-- ===== src/Wallet/Listed.antt =====
-- The array of packages/web3-qrl-accounts/src/wallet.ts without holes, and what the array operations
-- do to the list of its entries.
use web3_js.Common.{
  ℕ, zero, suc, ◌+◌, ◌≡◌, ◌↔◌, ◌≤◌, refl, ap, arith, Option, none, some, List, [], ◌∷◌, Text,
  text_same_iff, text_same_instance, ◌==◌, if◌then◌else◌, length,
}
use web3_js.JsMap.{JsMap, get, set, delete}
use web3_js.JsMap.Laws.{IsMap, get-set}
use web3_js.Wallet.{Account, key, put_at, splice_at, item_at, rebuild_from}

abbrev pub wrap : List Account → List (Option Account)
wrap [] = []
wrap (a ∷ accs) = some a ∷ wrap accs

abbrev pub entries : List Account → JsMap Text Account
entries [] = []
entries (a ∷ accs) = (key a, a) ∷ entries accs

abbrev shift : Option ℕ → Option ℕ
shift none = none
shift (some i) = some (suc i)

abbrev pub index_of : List Account → Text → Option ℕ
index_of [] k = none
index_of (a ∷ accs) k = if key a == k then some 0 else shift (index_of accs k)

abbrev pub index_or_end : List Account → Text → ℕ
index_or_end [] k = 0
index_or_end (a ∷ accs) k = if key a == k then 0 else suc (index_or_end accs k)

abbrev pub insert : List Account → Account → List Account
insert [] a = a ∷ []
insert (b ∷ bs) a = if key b == key a then a ∷ bs else b ∷ insert bs a

abbrev pub without : List Account → Text → List Account
without [] k = []
without (b ∷ bs) k = if key b == k then bs else b ∷ without bs k

pub length-wrap : (accs : List Account) → length (wrap accs) ≡ length accs
length-wrap [] = refl
length-wrap (a ∷ accs) = ap suc (length-wrap accs)

pub item_at-index_of :
    (accs : List Account) (k : Text) (i : ℕ)
    → index_of accs k ≡ some i
    → item_at (wrap accs) i ≡ get (entries accs) k
unfolding item_at get
item_at-index_of [] k i p = ground arith
item_at-index_of (a ∷ accs) k zero p = ground arith
item_at-index_of (a ∷ accs) k (suc i) p = ground (arith, item_at-index_of accs k i)

pub get-entries-none :
    (accs : List Account) (k : Text) → index_of accs k ≡ none → get (entries accs) k ≡ none
unfolding get
get-entries-none [] k p = refl
get-entries-none (a ∷ accs) k p = ground (arith, get-entries-none accs k)

pub index_of-absent :
    (accs : List Account) (k : Text) → get (entries accs) k ≡ none → index_of accs k ≡ none
unfolding get
index_of-absent [] k p = refl
index_of-absent (a ∷ accs) k p = ground (arith, index_of-absent accs k)

pub index_or_end-some :
    (accs : List Account) (k : Text) (i : ℕ) → index_of accs k ≡ some i → index_or_end accs k ≡ i
index_or_end-some [] k i p = absurd (ground arith)
index_or_end-some (a ∷ accs) k zero p = ground arith
index_or_end-some (a ∷ accs) k (suc i) p = ground (arith, index_or_end-some accs k i)

pub index_or_end-none :
    (accs : List Account) (k : Text) → index_of accs k ≡ none → index_or_end accs k ≡ length accs
index_or_end-none [] k p = refl
index_or_end-none (a ∷ accs) k p = ground (arith, index_or_end-none accs k)

pub put_at-insert :
    (accs : List Account) (a : Account)
    → put_at (wrap accs) (index_or_end accs (key a)) a ≡ wrap (insert accs a)
unfolding put_at
put_at-insert [] a = refl
put_at-insert (b ∷ bs) a = ground (arith, put_at-insert bs a)

pub entries-insert :
    (accs : List Account) (a : Account) → entries (insert accs a) ≡ set (entries accs) (key a) a
unfolding set
entries-insert [] a = refl
entries-insert (b ∷ bs) a = ground (arith, entries-insert bs a, text_same_iff (key b) (key a))

pub index_of-insert :
    (accs : List Account) (a : Account) (k : Text)
    → index_of (insert accs a) k
      ≡ (if key a == k then some (index_or_end accs (key a)) else index_of accs k)
index_of-insert [] a k = ground arith
index_of-insert (b ∷ bs) a k = ground (
  arith,
  index_of-insert bs a k,
  text_same_iff (key b) (key a),
  text_same_iff (key b) k,
  text_same_iff (key a) k,
)

pub splice_at-without :
    (accs : List Account) (k : Text) (i : ℕ)
    → index_of accs k ≡ some i
    → splice_at (wrap accs) i ≡ wrap (without accs k)
unfolding splice_at
splice_at-without [] k i p = absurd (ground arith)
splice_at-without (a ∷ accs) k zero p = ground arith
splice_at-without (a ∷ accs) k (suc i) p = ground (arith, splice_at-without accs k i)

pub delete-absent : (m : JsMap Text Account) (k : Text) → get m k ≡ none → delete m k ≡ m
unfolding get delete
delete-absent [] k p = refl
delete-absent ((j, v) ∷ m) k p = ground (arith, delete-absent m k)

pub entries-without :
    (accs : List Account) (k : Text)
    → IsMap (entries accs)
    → entries (without accs k) ≡ delete (entries accs) k
unfolding delete
entries-without [] k h = refl
entries-without (a ∷ accs) k (out, h) =
    ground
      (arith, entries-without accs k h, text_same_iff (key a) k, delete-absent (entries accs) k)

abbrev pub found_from : Option ℕ → ℕ → Option ℕ → Option ℕ
found_from none i old = old
found_from (some j) i old = some (i + j)

-- The loop that rebuilds the map, on entries with distinct keys.
pub get-rebuild_from :
    (accs : List Account) (i : ℕ) (m : JsMap Text ℕ) (k : Text)
    → IsMap (entries accs)
    → get (rebuild_from (wrap accs) i m) k ≡ found_from (index_of accs k) i (get m k)
unfolding rebuild_from
get-rebuild_from [] i m k h = refl
get-rebuild_from (a ∷ accs) i m k (out, h) = ground (
  arith,
  get-rebuild_from accs (suc i) (set m (key a) i) k h,
  get-set m (key a) k i,
  text_same_iff (key a) k,
  index_of-absent accs k,
)

unfoldable pub drop_nth {ℓ} : {A : Type ℓ} → List A → ℕ → List A
drop_nth [] i = []
drop_nth (x ∷ xs) zero = xs
drop_nth (x ∷ xs) (suc i) = x ∷ drop_nth xs i

pub splice_at-wrap :
    (accs : List Account) (i : ℕ) → splice_at (wrap accs) i ≡ wrap (drop_nth accs i)
unfolding splice_at drop_nth
splice_at-wrap [] i = refl
splice_at-wrap (a ∷ accs) zero = refl
splice_at-wrap (a ∷ accs) (suc i) = ap (λ xs. some a ∷ xs) (splice_at-wrap accs i)

pub entries-drop_nth :
    (accs : List Account) (i : ℕ) → entries (drop_nth accs i) ≡ drop_nth (entries accs) i
unfolding drop_nth
entries-drop_nth [] i = refl
entries-drop_nth (a ∷ accs) zero = refl
entries-drop_nth (a ∷ accs) (suc i) = ap (λ m. (key a, a) ∷ m) (entries-drop_nth accs i)

pub drop_nth-absent :
    (m : JsMap Text Account) (i : ℕ) (k : Text) → get m k ≡ none → get (drop_nth m i) k ≡ none
unfolding drop_nth get
drop_nth-absent [] i k p = p
drop_nth-absent ((j, v) ∷ m) zero k p = ground arith
drop_nth-absent ((j, v) ∷ m) (suc i) k p = ground (arith, drop_nth-absent m i k)

pub IsMap-drop_nth : (m : JsMap Text Account) (i : ℕ) → IsMap m → IsMap (drop_nth m i)
unfolding drop_nth
IsMap-drop_nth [] i h = h
IsMap-drop_nth ((j, v) ∷ m) zero (out, h) = h
IsMap-drop_nth ((j, v) ∷ m) (suc i) (out, h) = (drop_nth-absent m i j out, IsMap-drop_nth m i h)

pub item_at-wrap :
    (accs : List Account) (i : ℕ) → (item_at (wrap accs) i ≡ none) ↔ (length accs ≤ i)
unfolding item_at
item_at-wrap [] i = ground arith
item_at-wrap (a ∷ accs) zero = ground arith
item_at-wrap (a ∷ accs) (suc i) = ground (arith, item_at-wrap accs i)

pub length-entries : (accs : List Account) → length (entries accs) ≡ length accs
length-entries [] = refl
length-entries (a ∷ accs) = ap suc (length-entries accs)

pub drop_nth-end : (m : JsMap Text Account) (i : ℕ) → length m ≤ i → drop_nth m i ≡ m
unfolding drop_nth
drop_nth-end [] i p = refl
drop_nth-end (x ∷ m) zero p = absurd (omega arith)
drop_nth-end (x ∷ m) (suc i) p = ap (λ n. x ∷ n) (drop_nth-end m i (omega arith))
