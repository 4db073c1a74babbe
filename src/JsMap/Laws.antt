-- ===== src/JsMap/Laws.antt =====
-- The laws of `Map` that its clients rely on, in the form `get (op m) j ≡ if … then … else …`.
use web3_js.Common.{
  false, ◌+◌, ◌≤◌, ◌≡◌, refl, true, none, some, List, [], ◌∷◌, arith, SameValue, ◌==◌, ==_refl,
  if◌then◌else◌, length, inl, inr, Bool-cases,
}
use web3_js.JsMap.{JsMap, get, set, delete, delete_all, set_all, keys, size, among}

module _ {ℓ κ} {K : Type ℓ} {V : Type κ} ⦃e : SameValue K⦄ where
  pub get-set :
      (m : JsMap K V) (k j : K) (v : V) → get (set m k v) j ≡ (if k == j then some v else get m j)
  unfolding get set
  get-set [] k j v = refl
  get-set ((i, w) ∷ m) k j v =
      ground (arith, e.same_iff i k, e.same_iff i j, e.same_iff k j, get-set m k j v)

  pub get-delete :
      (m : JsMap K V) (k j : K) → get (delete m k) j ≡ (if k == j then none else get m j)
  unfolding get delete
  get-delete [] k j = ground arith
  get-delete ((i, w) ∷ m) k j =
      ground (arith, e.same_iff i k, e.same_iff i j, e.same_iff k j, get-delete m k j)

  pub get-delete_all :
      (ks : List K) (m : JsMap K V) (j : K)
      → get (delete_all m ks) j ≡ (if among j ks then none else get m j)
  unfolding delete_all
  get-delete_all [] m j = refl
  get-delete_all (k ∷ ks) m j = ground (arith, get-delete_all ks (delete m k) j, get-delete m k j)

  pub get-set_all :
      (ks : List K) (m : JsMap K V) (j : K) (v : V)
      → get (set_all m ks v) j ≡ (if among j ks then some v else get m j)
  unfolding set_all
  get-set_all [] m j v = refl
  get-set_all (k ∷ ks) m j v = ground (arith, get-set_all ks (set m k v) j v, get-set m k j v)

  pub size-set : (m : JsMap K V) (k : K) (v : V) → size (set m k v) ≤ size m + 1
  unfolding set
  size-set [] k v = omega arith
  size-set ((i, w) ∷ m) k v = ground (arith, size-set m k v)

  pub size-set_all :
      (ks : List K) (m : JsMap K V) (v : V) → size (set_all m ks v) ≤ size m + length ks
  unfolding set_all
  size-set_all [] m v = omega arith
  size-set_all (k ∷ ks) m v = omega (arith, size-set_all ks (set m k v) v, size-set m k v)

  pub size-delete : (m : JsMap K V) (k : K) → size (delete m k) ≤ size m
  unfolding delete
  size-delete [] k = omega arith
  size-delete ((i, w) ∷ m) k = ground (arith, size-delete m k)

  pub size-delete_all : (ks : List K) (m : JsMap K V) → size (delete_all m ks) ≤ size m
  unfolding delete_all
  size-delete_all [] m = omega arith
  size-delete_all (k ∷ ks) m = omega (arith, size-delete_all ks (delete m k), size-delete m k)

  -- A map all of whose keys are absent is empty.
  pub nil_of_absent : (m : JsMap K V) → ((k : K) → get m k ≡ none) → m ≡ []
  unfolding get
  nil_of_absent [] h = refl
  nil_of_absent ((k, v) ∷ m) h = ground (arith, h k, ==_refl k)

  pub among-keys_absent : (m : JsMap K V) (k : K) → get m k ≡ none → among k (keys m) ≡ false
  unfolding get keys
  among-keys_absent [] k p = refl
  among-keys_absent ((i, w) ∷ m) k p = ground (arith, among-keys_absent m k)

  pub among-keys : (m : JsMap K V) (k : K) {v : V} → get m k ≡ some v → among k (keys m) ≡ true
  unfolding get keys
  among-keys [] k p = ground arith
  among-keys ((i, w) ∷ m) k {v} p = elim (Bool-cases (i == k)) [
    | inl here ↦ ground arith
    | inr there ↦ ground (arith, among-keys m k {v = v})
  ]

  -- Deleting a key that is there makes the map smaller.
  pub size-delete-lt :
      (m : JsMap K V) (k : K) {v : V} → get m k ≡ some v → size (delete m k) + 1 ≤ size m
  unfolding get delete
  size-delete-lt [] k p = absurd (ground arith)
  size-delete-lt ((i, w) ∷ m) k {v} p = ground (arith, size-delete m k, size-delete-lt m k {v = v})

-- A map has one entry for a key.
module _ {ℓ κ} {K : Type ℓ} {V : Type κ} ⦃e : SameValue K⦄ where
  abbrev pub IsMap : JsMap K V → Type κ
  IsMap [] = Unit
  IsMap ((k, v) ∷ m) = (get m k ≡ none) × IsMap m

  pub IsMap-set : (m : JsMap K V) (k : K) (v : V) → IsMap m → IsMap (set m k v)
  unfolding set get
  IsMap-set [] k v h = (refl, tt)
  IsMap-set ((j, w) ∷ m) k v (out, h) = elim (Bool-cases (j == k)) [
    | inl here ↦ rw here (out, h)
    | inr other ↦
        rw other
          (ground (arith, get-set m k j v, e.same_iff j k, e.same_iff k j), IsMap-set m k v h)
  ]

  pub IsMap-delete : (m : JsMap K V) (k : K) → IsMap m → IsMap (delete m k)
  unfolding delete get
  IsMap-delete [] k h = tt
  IsMap-delete ((j, w) ∷ m) k (out, h) = elim (Bool-cases (j == k)) [
    | inl here ↦ rw here (IsMap-delete m k h)
    | inr other ↦ rw other (ground (arith, get-delete m k j), IsMap-delete m k h)
  ]

  pub IsMap-set_all : (ks : List K) (m : JsMap K V) (v : V) → IsMap m → IsMap (set_all m ks v)
  unfolding set_all
  IsMap-set_all [] m v h = h
  IsMap-set_all (k ∷ ks) m v h = IsMap-set_all ks (set m k v) v (IsMap-set m k v h)

  pub IsMap-delete_all : (ks : List K) (m : JsMap K V) → IsMap m → IsMap (delete_all m ks)
  unfolding delete_all
  IsMap-delete_all [] m h = h
  IsMap-delete_all (k ∷ ks) m h = IsMap-delete_all ks (delete m k) (IsMap-delete m k h)
