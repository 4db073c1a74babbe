-- ===== src/Wallet/Refines.antt =====
-- The operations of packages/web3-qrl-accounts/src/wallet.ts, against those of a `Map` from addresses
-- in lower case to accounts.
use web3_js.Common.{
  ℕ, ◌≡◌, refl, ap, sym, ◌∙◌, subst, arith, true, Option, none, some, List, [], Text,
  text_same_instance, to_lower_case, length, ◌==◌, ltb, if◌then◌else◌, Option-cases, inl, inr,
}
use web3_js.JsMap.{JsMap, get, set, delete, has, is_some}
use web3_js.JsMap.Laws.{IsMap, IsMap-set, IsMap-delete, get-set}
use web3_js.Wallet.{
  Account, Wallet, key, item_at, put_at, splice_at, removed_at, get_account, add, add_index,
  rebuild_from, rebuild_address_map, remove, remove_at,
}
use web3_js.Wallet.Listed.{
  wrap, entries, index_of, index_of-absent, index_or_end, drop_nth, splice_at-wrap,
  entries-drop_nth, IsMap-drop_nth, drop_nth-end, item_at-wrap, length-entries, insert, without,
  length-wrap, item_at-index_of, get-entries-none, index_or_end-some, index_or_end-none,
  put_at-insert, entries-insert, index_of-insert, splice_at-without, delete-absent, entries-without,
  get-rebuild_from, found_from,
}

-- The array has no holes, its addresses differ in lower case, the map gives their indices, and the
-- accounts in their order are the entries of `m`.
pub record Implements (w : Wallet) (m : JsMap Text Account) : Type 0 where
  pub listed : List Account
  pub full : w.accounts ≡ wrap listed
  pub indexed : (k : Text) → get w.address_map k ≡ index_of listed k
  pub shown : entries listed ≡ m
  pub distinct : IsMap m

get_account-key :
    (w : Wallet) (accs : List Account) (t : Text)
    → w.accounts ≡ wrap accs
    → ((k : Text) → get w.address_map k ≡ index_of accs k)
    → get_account t w ≡ get (entries accs) (to_lower_case t)
unfolding get_account
get_account-key w accs t full indexed = elim (Option-cases (index_of accs (to_lower_case t))) [
  | inl absent ↦ ground (arith, get-entries-none accs (to_lower_case t), indexed (to_lower_case t))
  | inr (i, here) ↦
      ground (arith, item_at-index_of accs (to_lower_case t) i, indexed (to_lower_case t))
]

-- The account of an address, in any case, is what the map that the wallet implements has for it.
pub get_account-Implements :
    {w : Wallet} {m : JsMap Text Account} (t : Text)
    → Implements w m
    → get_account t w ≡ get m (to_lower_case t)
get_account-Implements {w} {m} t v =
    get_account-key w v.listed t v.full v.indexed ∙ ap (λ n. get n (to_lower_case t)) v.shown

-- The slot that `add` writes to.
slot :
    (w : Wallet) (accs : List Account) (a : Account)
    → w.accounts ≡ wrap accs
    → ((k : Text) → get w.address_map k ≡ index_of accs k)
    → add_index (get_account a.address w) (get w.address_map (key a)) (length w.accounts)
      ≡ index_or_end accs (key a)
slot w accs a full indexed = elim (Option-cases (index_of accs (key a))) [
  | inl absent ↦
      simp
        (get_account-key w accs a.address full indexed, get-entries-none accs (key a) absent, full)
        (length-wrap accs ∙ sym (index_or_end-none accs (key a) absent))
  | inr (i, here) ↦ elim (Option-cases (get (entries accs) (key a))) [
    | inl gone ↦ ground (arith, index_of-absent accs (key a))
    | inr (b, held) ↦
        simp (get_account-key w accs a.address full indexed, held, indexed (key a), here)
          (sym (index_or_end-some accs (key a) i here))
  ]
]

add-shape :
    (w : Wallet) (accs : List Account) (a : Account)
    → w.accounts ≡ wrap accs
    → ((k : Text) → get w.address_map k ≡ index_of accs k)
    → add a w ≡ record {
      accounts = put_at (wrap accs) (index_or_end accs (key a)) a;
      address_map = set w.address_map (key a) (index_or_end accs (key a));
    }
unfolding add
add-shape w accs a full indexed =
    ap (λ i. record { accounts = put_at w.accounts i a; address_map = set w.address_map (key a) i })
      (slot w accs a full indexed)
    ∙ ap
        (λ xs. record {
          accounts = put_at xs (index_or_end accs (key a)) a;
          address_map = set w.address_map (key a) (index_or_end accs (key a));
        })
        full

-- Adding an account sets the entry of its address.
pub add-Implements :
    {w : Wallet} {m : JsMap Text Account} (a : Account)
    → Implements w m
    → Implements (add a w) (set m (key a) a)
add-Implements {w} {m} a v =
    subst (λ t. Implements t (set m (key a) a)) (sym (add-shape w v.listed a v.full v.indexed))
      (record {
        listed = insert v.listed a;
        full = put_at-insert v.listed a;
        indexed = λ k.
            get-set w.address_map (key a) k (index_or_end v.listed (key a))
            ∙ ap (λ o. if key a == k then some (index_or_end v.listed (key a)) else o) (v.indexed k)
            ∙ sym (index_of-insert v.listed a k);
        shown = entries-insert v.listed a ∙ ap (λ n. set n (key a) a) v.shown;
        distinct = IsMap-set m (key a) a v.distinct;
      })

found_from-zero : (o : Option ℕ) → found_from o 0 none ≡ o
found_from-zero none = refl
found_from-zero (some i) = ap (λ n. some n) (omega arith)

rebuilt :
    (w : Wallet) (accs : List Account) (m : JsMap Text Account)
    → w.accounts ≡ wrap accs
    → entries accs ≡ m
    → IsMap m
    → Implements (rebuild_address_map w) m
unfolding rebuild_address_map get
rebuilt w accs m full shown distinct = record {
  listed = accs;
  full = full;
  indexed = λ k.
      ap (λ xs. get (rebuild_from xs 0 []) k) full
      ∙ get-rebuild_from accs 0 [] k (subst IsMap (sym shown) distinct)
      ∙ found_from-zero (index_of accs k);
  shown = shown;
  distinct = distinct;
}

removed :
    (w : Wallet) {n : JsMap Text Account} (accs : List Account) (i : ℕ)
    → splice_at w.accounts i ≡ wrap accs
    → entries accs ≡ n
    → IsMap n
    → Implements (removed_at w i) n
removed w {n} accs i p q h = rebuilt (record w { accounts = splice_at w.accounts i }) accs n p q h

get-shown :
    {w : Wallet} {m : JsMap Text Account} (v : Implements w m) (k : Text)
    → get (entries v.listed) k ≡ get m k
get-shown v k = ap (λ n. get n k) v.shown

-- Removing by address, in any case, tells whether the address was there and deletes its entry from
-- the map that the wallet implements.
pub remove-Implements :
    {w : Wallet} {m : JsMap Text Account} (t : Text)
    → Implements w m
    → ((remove t w).0 ≡ has m (to_lower_case t))
      × Implements (remove t w).1 (delete m (to_lower_case t))
unfolding remove has
remove-Implements {w} {m} t v = elim (Option-cases (index_of v.listed (to_lower_case t))) [
  | inl absent ↦
      let gone = sym (get-shown v (to_lower_case t)) ∙ get-entries-none v.listed _ absent in
      simp (v.indexed (to_lower_case t), absent, gone)
        (refl, subst (Implements w) (sym (delete-absent m _ gone)) v)
  | inr (i, here) ↦
      simp (v.indexed (to_lower_case t), here)
        (
          sym (held i here),
          removed w (without v.listed (to_lower_case t)) i
              (ap (λ xs. splice_at xs i) v.full ∙ splice_at-without v.listed _ i here)
              (entries-without v.listed _ (subst IsMap (sym v.shown) v.distinct)
                ∙ ap (λ n. delete n (to_lower_case t)) v.shown)
              (IsMap-delete m _ v.distinct),
        )
]
  where
    held :
        (i : ℕ)
        → index_of v.listed (to_lower_case t) ≡ some i
        → is_some (get m (to_lower_case t)) ≡ true
    held i here =
        ground (arith, index_of-absent v.listed (to_lower_case t), get-shown v (to_lower_case t))

-- Removing by index tells whether there is an account at the index and deletes that entry; out of
-- range nothing changes.
pub remove_at-Implements :
    {w : Wallet} {m : JsMap Text Account} (i : ℕ)
    → Implements w m
    → ((remove_at i w).0 ≡ ltb i (length m)) × Implements (remove_at i w).1 (drop_nth m i)
unfolding remove_at
remove_at-Implements {w} {m} i v = elim (Option-cases (item_at (wrap v.listed) i)) [
  | inl out ↦
      let few = (item_at-wrap v.listed i).0 out in
      simp (ap (λ xs. item_at xs i) v.full ∙ out) (
        ground (arith, counted),
        subst (Implements w) (sym (drop_nth-end m i (ground (arith, counted)))) v,
      )
  | inr (a, here) ↦ simp (ap (λ xs. item_at xs i) v.full ∙ here) (
    ground (arith, counted, item_at-wrap v.listed i),
    removed w (drop_nth v.listed i) i (ap (λ xs. splice_at xs i) v.full ∙ splice_at-wrap v.listed i)
        (entries-drop_nth v.listed i ∙ ap (λ n. drop_nth n i) v.shown)
        (IsMap-drop_nth m i v.distinct),
  )
]
  where
    counted : length m ≡ length v.listed
    counted = ap (λ n. length n) (sym v.shown) ∙ length-entries v.listed
