-- ===== src/Hardforks/Order.antt =====
-- packages/web3-qrl-accounts/src/common/common.ts: the order of hardforks, and the hardforks of an
-- earlier and of a later block.
use web3_js.Common.{
  ℕ, suc, ◌+◌, ◌≤◌, true, false, Option, none, some, List, [], ◌∷◌, ◌≡◌, ◌≢◌, refl, ap, All, arith,
  inl, inr, sym, ◌∙◌, subst, String, if◌then◌else◌, ◌==◌, ==_refl, string_eq_instance, leb,
  Option-cases,
}
use web3_js.Fault.{ok}
use web3_js.Hardforks.{HardforkConfig, Rules, position_from, position_of, hardfork_gte_hardfork}
use web3_js.Hardforks.Select.{get_hardfork_by_block_number}
use web3_js.Hardforks.Located.{last_active, or_this-some, or_this-none, IsOrdered, is_active}
use web3_js.Hardforks.Selected.{select_hardfork_lem}

-- No two hardforks of the chain have one name.
unfoldable pub IsDistinct : List HardforkConfig → Type 0
IsDistinct [] = Unit
IsDistinct (f ∷ fs) = All (λ g. (g.name == f.name) ≡ false) fs × IsDistinct fs

abbrev index_or : Option ℕ → ℕ → HardforkConfig → Option ℕ
index_or (some i) n f = some (suc i)
index_or none n f = if is_active n f.block then some 0 else none

active_index : ℕ → List HardforkConfig → Option ℕ
active_index n [] = none
active_index n (f ∷ fs) = index_or (active_index n fs) n f

active_mono :
    (n m : ℕ) (f : HardforkConfig) → n ≤ m → is_active n f.block ≡ true → is_active m f.block ≡ true
active_mono n m f h e = ground arith

index_active :
    (n m i : ℕ) (f : HardforkConfig)
    → n ≤ m
    → index_or none n f ≡ some i
    → (index_or none m f ≡ some 0) × (i ≤ 0)
index_active n m i f h e = ground (arith, active_mono n m f h)

index_or_mono :
    (n m i : ℕ) (f : HardforkConfig) (o o' : Option ℕ)
    → n ≤ m
    → ((j : ℕ) → o ≡ some j → (k : ℕ) × (o' ≡ some k) × (j ≤ k))
    → index_or o n f ≡ some i
    → (k : ℕ) × (index_or o' m f ≡ some k) × (i ≤ k)
index_or_mono n m i f none none h rec e = let (on, le) = index_active n m i f h e in (0, on, le)
index_or_mono n m i f none (some k) h rec e = (suc k, refl, ground arith)
index_or_mono n m i f (some j) o' h rec e =
    let (k, eq, le) = rec j refl in (suc k, rw eq refl, ground arith)

active_index_mono :
    (n m i : ℕ) (fs : List HardforkConfig)
    → n ≤ m
    → active_index n fs ≡ some i
    → (k : ℕ) × (active_index m fs ≡ some k) × (i ≤ k)
unfolding active_index
active_index_mono n m i [] h e = ground arith
active_index_mono n m i (f ∷ fs) h e =
    index_or_mono n m i f (active_index n fs) (active_index m fs) h
      (λ j e'. active_index_mono n m j fs h e') e

none≢some' : (k : ℕ) → none ≢ some k
none≢some' k e = ground arith

reached : (j k k' : ℕ) → j ≤ k → some k ≡ some k' → leb (0 + j) (0 + k') ≡ true
reached j k k' le e = ground arith

position_from-skip :
    (s : String) (i : ℕ) (fs : List HardforkConfig) (p : Option ℕ)
    → All (λ g. (g.name == s) ≡ false) fs
    → position_from s fs i p ≡ p
unfolding position_from
position_from-skip s i [] p h = refl
position_from-skip s i (f ∷ fs) p (e, h) = rw e (position_from-skip s (suc i) fs p h)

active_index-none :
    (n : ℕ) (fs : List HardforkConfig) → last_active n fs ≡ none → active_index n fs ≡ none
unfolding active_index last_active
active_index-none n [] e = refl
active_index-none n (f ∷ fs) e =
    let (rest, this) = or_this-none (last_active n fs) n f e in
    rw (active_index-none n fs rest) (rw this refl)

-- The last active hardfork stands where its name says.
position_from-last :
    (n i : ℕ) (f : HardforkConfig) (fs : List HardforkConfig) (p : Option ℕ)
    → IsDistinct fs
    → last_active n fs ≡ some f
    → (k : ℕ) × (position_from f.name fs i p ≡ some (i + k)) × (active_index n fs ≡ some k)
unfolding position_from active_index last_active IsDistinct
position_from-last n i f [] p d e = ground arith
position_from-last n i f (g ∷ fs) p (d, ds) e = elim (or_this-some (last_active n fs) n g f e) [
  | inl rest ↦
      let (k, at, index) =
        position_from-last n (suc i) f fs (if g.name == f.name then some i else p) ds rest in
      (suc k, at ∙ ap (λ j. some j) (omega arith), rw index refl)
  | inr (rest, (this, same)) ↦ let (at, index) = here rest this same in (0, at, index)
]
  where
    here :
        last_active n fs ≡ none
        → is_active n g.block ≡ true
        → g ≡ f
        → (position_from f.name fs (suc i) (if g.name == f.name then some i else p) ≡ some (i + 0))
          × (index_or (active_index n fs) n g ≡ some 0)
    here rest this same =
        subst
          (λ x.
            (position_from x.name fs (suc i) (if g.name == x.name then some i else p)
              ≡ some (i + 0))
            × (index_or (active_index n fs) n g ≡ some 0))
          same
          (
            rw (==_refl g.name)
                (position_from-skip g.name (suc i) fs (some i) d ∙ ap (λ j. some j) (omega arith)),
            rw (active_index-none n fs rest) (rw this refl),
          )

-- On a chain whose block numbers never decrease and are never `undefined`, and that has no two
-- hardforks of one name: the hardfork found for a block, without a timestamp, is the last one whose
-- block is at most the number, whatever hardforks without a block stand between; and for every
-- later block one is found that is at or after it.
pub later_block-gte :
    (r : Rules) (n m : ℕ) (f : HardforkConfig)
    → IsOrdered 0 r.chain.hardforks
    → IsDistinct r.chain.hardforks
    → n ≤ m
    → last_active n r.chain.hardforks ≡ some f
    → (g : HardforkConfig) × (get_hardfork_by_block_number n none r ≡ ok f.name)
      × (get_hardfork_by_block_number m none r ≡ ok g.name)
      × (hardfork_gte_hardfork (some g.name) f.name r ≡ true)
unfolding hardfork_gte_hardfork position_of
later_block-gte r n m f o d h e =
    let fs = r.chain.hardforks in
    let (j, at, index) = position_from-last n 0 f fs none d e in
    let (k, index', le) = active_index_mono n m j fs h index in
    elim (Option-cases (last_active m fs)) [
      | inl x ↦ elim (none≢some' k (sym (active_index-none m fs x) ∙ index')) [ ]
      | inr (g, x) ↦
          let (k', at', index'') = position_from-last m 0 g fs none d x in
          (
            g,
            select_hardfork_lem n f fs o e,
            select_hardfork_lem m g fs o x,
            rw at' (rw at (reached j k k' le (sym index' ∙ index''))),
          )
    ]
