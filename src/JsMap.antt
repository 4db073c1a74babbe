-- ===== src/JsMap.antt =====
-- JavaScript's `Map`: an association list in insertion order, at most one entry for a key.
pub mod Laws
use web3_js.Common.{
  ℕ, Bool, Option, none, some, List, [], ◌∷◌, SameValue, ◌==◌, if◌then◌else◌, length, any, true,
  false,
}

abbrev pub JsMap {ℓ κ} : Type ℓ → Type κ → Type (ℓ ⊔ κ)
JsMap K V = List (K × V)

abbrev pub is_some {ℓ} : {A : Type ℓ} → Option A → Bool
is_some none = false
is_some (some v) = true

-- Is the key one of the listed ones?
abbrev pub among {ℓ} : {K : Type ℓ} ⦃e : SameValue K⦄ → K → List K → Bool
among j ks = any (λ k. k == j) ks

module _ {ℓ κ} {K : Type ℓ} {V : Type κ} ⦃e : SameValue K⦄ where
  unfoldable pub get : JsMap K V → K → Option V
  get [] k = none
  get ((j, v) ∷ m) k = if j == k then some v else get m k

  unfoldable pub has : JsMap K V → K → Bool
  unfolding get
  has m k = is_some (get m k)

  -- A key that is there keeps its place; a new one goes to the end.
  unfoldable pub set : JsMap K V → K → V → JsMap K V
  set [] k v = (k, v) ∷ []
  set ((j, w) ∷ m) k v = if j == k then (j, v) ∷ m else (j, w) ∷ set m k v

  unfoldable pub delete : JsMap K V → K → JsMap K V
  delete [] k = []
  delete ((j, w) ∷ m) k = let rest = delete m k in if j == k then rest else (j, w) ∷ rest

  unfoldable pub delete_all : JsMap K V → List K → JsMap K V
  delete_all m [] = m
  delete_all m (k ∷ ks) = delete_all (delete m k) ks

  unfoldable pub set_all : JsMap K V → List K → V → JsMap K V
  set_all m [] v = m
  set_all m (k ∷ ks) v = set_all (set m k v) ks v

module _ {ℓ κ} {K : Type ℓ} {V : Type κ} where
  unfoldable pub keys : JsMap K V → List K
  keys [] = []
  keys ((k, v) ∷ m) = k ∷ keys m

  abbrev pub size : JsMap K V → ℕ
  size m = length m
