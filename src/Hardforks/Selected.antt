-- ===== src/Hardforks/Selected.antt =====
-- packages/web3-qrl-accounts/src/common/common.ts: the choice by indices comes out at the hardfork
-- of a block.
use mathlib.Core.List.{reverse, reverse_aux, reverse_aux-append, append_assoc}
use web3_js.Common.{
  slice_to-length, drop-length, ℕ, suc, ◌+◌, ◌-◌, ◌≤◌, Bool, true, false, Option, none, some, List,
  [], ◌∷◌, ◌++◌, ◌≡◌, refl, ap, All, arith, sym, ◌∙◌, subst, if◌then◌else◌, length, slice_to, drop,
  length-append, inl, inr,
}
use web3_js.Fault.{ok}
use web3_js.Hardforks.{HardforkConfig, number, null}
use web3_js.Hardforks.Select.{
  not_null, is_above, is_applied, filter, find_index, at?, select_hardfork, select_found,
  select_from, last_together, start_index, step_back,
}
use web3_js.Hardforks.Located.{
  Located, locate, last_active, IsOrdered, StartsAbove, OrderedBlock, Block-cases, ordered_absent,
  IsOrdered-tail, IsOrdered-number,
}

abbrev plus : Option ℕ → ℕ → Option ℕ
plus none k = none
plus (some i) k = some (k + i)

plus-suc :
    (o : Option ℕ) (k : ℕ)
    → (elim (plus o k) [ none ↦ none | some i ↦ some (suc i) ]) ≡ plus o (suc k)
plus-suc o k = ground arith

shift :
    (o : Option ℕ) (k : ℕ)
    → plus (elim o [ none ↦ none | some i ↦ some (suc i) ]) k ≡ plus o (suc k)
shift o k = ground arith

plus_zero : (k : ℕ) → plus (some 0) k ≡ some k
plus_zero k = ground arith

module _ {A : Type 0} where
  find_index-skip :
      (p : A → Bool) (xs ys : List A)
      → All (λ x. p x ≡ false) xs
      → find_index p (xs ++ ys) ≡ plus (find_index p ys) (length xs)
  find_index-skip p [] ys h = ground arith
  find_index-skip p (x ∷ xs) ys (e, h) =
      rw e (rw (find_index-skip p xs ys h) (plus-suc (find_index p ys) (length xs)))

  at?-length : (xs : List A) (y : A) (ys : List A) → at? (xs ++ (y ∷ ys)) (length xs) ≡ some y
  at?-length [] y ys = refl
  at?-length (x ∷ xs) y ys = at?-length xs y ys

  find_index-first :
      (p : A → Bool) (x : A) (xs : List A) → p x ≡ true → find_index p (x ∷ xs) ≡ some 0
  find_index-first p x xs e = rw e refl

  find_index-reverse_aux :
      (p : A → Bool) (ys zs : List A)
      → All (λ y. p y ≡ false) ys
      → find_index p (reverse_aux ys zs) ≡ plus (find_index p zs) (length ys)
  find_index-reverse_aux p [] zs h = ground arith
  find_index-reverse_aux p (y ∷ ys) zs (e, h) =
      rw (find_index-reverse_aux p ys (y ∷ zs) h) (rw e (shift (find_index p zs) (length ys)))

  -- From the back, the search passes the elements that fail and stops at the one before them.
  find_index-reverse :
      (p : A → Bool) (xs ys : List A) (x : A)
      → p x ≡ true
      → All (λ y. p y ≡ false) ys
      → find_index p (reverse (xs ++ (x ∷ ys))) ≡ some (length ys)
  find_index-reverse p xs ys x e h = rw (reverse_aux-append xs (x ∷ ys) []) (
      rw (find_index-reverse_aux p ys (x ∷ reverse_aux xs []) h)
        (rw (find_index-first p x (reverse_aux xs []) e) (plus_zero (length ys))))

module _ {A : Type 0} (P : A → Type 0) where
  All-append : (xs ys : List A) → All P xs → All P ys → All P (xs ++ ys)
  All-append [] ys h k = k
  All-append (x ∷ xs) ys (e, h) k = (e, All-append xs ys h k)

-- The blocks before `after`, one more than the index of the hardfork and the ones inside.
module _ (n low : ℕ) (f : HardforkConfig) (fs : List HardforkConfig) (l : Located n low f fs) where
  abbrev front : List HardforkConfig
  front = l.before ++ (f ∷ l.inside)

  fs-front : fs ≡ front ++ l.after
  fs-front = l.shape ∙ sym (append_assoc l.before (f ∷ l.inside) l.after)

  inside_below :
      (gs : List HardforkConfig)
      → All (λ g. g.block ≡ null) gs
      → All (λ g. is_above n none g ≡ false) gs
  inside_below [] h = tt
  inside_below (g ∷ gs) (e, h) = (ground arith, inside_below gs h)

  inside_not_null :
      (gs : List HardforkConfig)
      → All (λ g. g.block ≡ null) gs
      → All (λ g. not_null g.block ≡ false) gs
  inside_not_null [] h = tt
  inside_not_null (g ∷ gs) (e, h) = (ap not_null e, inside_not_null gs h)

  front_below : All (λ g. is_above n none g ≡ false) front
  front_below =
      All-append (λ g. is_above n none g ≡ false) l.before (f ∷ l.inside) l.before_below
        (ground (arith, l.at_block, l.at_most), inside_below l.inside l.inside_null)

  length-front : length front ≡ suc (length l.before + length l.inside)
  length-front = omega (arith, length-append l.before (f ∷ l.inside))

  found_in :
      (gs hfs : List HardforkConfig) (i : ℕ)
      → StartsAbove n gs
      → hfs ≡ front ++ gs
      → length front ≡ suc i
      → select_found hfs none (plus (find_index (is_above n none) gs) (length front))
        ≡ select_from hfs (length front) none
  found_in [] hfs i h e k =
      ap (λ j. select_from hfs j none) (ap length e ∙ length-append front [] ∙ omega arith)
  found_in (g ∷ gs) hfs i h e k = rw h (
      ap (select_found hfs none) (plus_zero (length front) ∙ ap (λ j. some j) k)
      ∙ ap (λ j. select_from hfs j none) (sym k))

  select_found-front :
      (hfs : List HardforkConfig)
      → hfs ≡ front ++ l.after
      → select_found hfs none (find_index (is_above n none) hfs)
        ≡ select_from hfs (length front) none
  select_found-front hfs e =
      ap (select_found hfs none) (
        ap (find_index (is_above n none)) e
        ∙ find_index-skip (is_above n none) front l.after front_below)
      ∙ found_in l.after hfs (length l.before + length l.inside) l.after_above e length-front

  start-before :
      (hfs : List HardforkConfig)
      → hfs ≡ front ++ l.after
      → start_index hfs (length front) none ≡ length l.before
  start-before hfs e =
      ap (λ gs. step_back (length front) (find_index (λ g. not_null g.block) (reverse gs)) - 1)
        (ap (slice_to (length front)) e ∙ slice_to-length front l.after)
      ∙ ap (λ o. step_back (length front) o - 1)
          (find_index-reverse (λ g. not_null g.block) l.before l.inside f (ap not_null l.at_block)
            (inside_not_null l.inside l.inside_null))
      ∙ omega (arith, length-front)

  apart_null :
      (i : ℕ) (g : HardforkConfig) (gs : List HardforkConfig)
      → g.block ≡ null
      → last_together i (f ∷ (g ∷ gs)) ≡ i
  apart_null i g gs e = ground (arith, l.at_block)

  apart_above : (i : ℕ) (gs : List HardforkConfig) → StartsAbove n gs → last_together i (f ∷ gs) ≡ i
  apart_above i [] h = refl
  apart_above i (g ∷ gs) h = ground (arith, l.at_block, l.at_most)

  last_together-alone :
      (i : ℕ) (gs : List HardforkConfig)
      → All (λ g. g.block ≡ null) gs
      → last_together i (f ∷ (gs ++ l.after)) ≡ i
  last_together-alone i [] h = apart_above i l.after l.after_above
  last_together-alone i (g ∷ gs) (e, h) = apart_null i g (gs ++ l.after) e

  select_from-front :
      (hfs : List HardforkConfig)
      → hfs ≡ front ++ l.after
      → hfs ≡ l.before ++ (f ∷ (l.inside ++ l.after))
      → select_from hfs (length front) none ≡ ok f.name
  unfolding select_from
  select_from-front hfs e e' = rw (start-before hfs e) (
      rw (ap (drop (length l.before)) e' ∙ drop-length l.before (f ∷ (l.inside ++ l.after))) (
        rw (last_together-alone (length l.before) l.inside l.inside_null) (
          rw (ap (λ gs. at? gs (length l.before)) e' ∙ at?-length l.before f (l.inside ++ l.after))
            refl)))

  located-selected : select_found fs none (find_index (is_above n none) fs) ≡ ok f.name
  located-selected = select_found-front fs fs-front ∙ select_from-front fs fs-front l.shape

filtered_last :
    (n : ℕ) (fs : List HardforkConfig) → last_active n (filter is_applied fs) ≡ last_active n fs
unfolding last_active
filtered_last n [] = refl
filtered_last n (f ∷ fs) = ground (arith, filtered_last n fs)

is_applied_number : (b : ℕ) (f : HardforkConfig) → f.block ≡ number b → is_applied f ≡ true
is_applied_number b f e = ground arith

kept_null :
    (low : ℕ) (f : HardforkConfig) (gs : List HardforkConfig) (kept : Bool)
    → f.block ≡ null
    → IsOrdered low gs
    → IsOrdered low (if kept then f ∷ gs else gs)
unfolding IsOrdered
kept_null low f gs true e h = subst (λ b. OrderedBlock b low (λ c. IsOrdered c gs)) (sym e) h
kept_null low f gs false e h = h

kept_number :
    (low b : ℕ) (f : HardforkConfig) (gs : List HardforkConfig)
    → f.block ≡ number b
    → (low ≤ b) × IsOrdered b gs
    → IsOrdered low (if is_applied f then f ∷ gs else gs)
unfolding IsOrdered
kept_number low b f gs e h =
    rw (is_applied_number b f e) (subst (λ c. OrderedBlock c low (λ d. IsOrdered d gs)) (sym e) h)

filtered-IsOrdered :
    (low : ℕ) (fs : List HardforkConfig) → IsOrdered low fs → IsOrdered low (filter is_applied fs)
unfolding IsOrdered
filtered-IsOrdered low [] h = tt
filtered-IsOrdered low (f ∷ fs) h = elim (Block-cases f.block) [
  | inl x ↦ elim (ordered_absent low f fs x h) [ ]
  | inr (inl x) ↦
      kept_null low f (filter is_applied fs) (is_applied f) x
        (filtered-IsOrdered low fs (IsOrdered-tail low f fs x h))
  | inr (inr (b, x)) ↦
      let (le, t) = IsOrdered-number low b f fs x h in
      kept_number low b f (filter is_applied fs) x (le, filtered-IsOrdered b fs t)
]

pub select_hardfork_lem :
    (n : ℕ) (f : HardforkConfig) (fs : List HardforkConfig)
    → IsOrdered 0 fs
    → last_active n fs ≡ some f
    → select_hardfork fs n none ≡ ok f.name
unfolding select_hardfork
select_hardfork_lem n f fs h e =
    located-selected n 0 f (filter is_applied fs)
      (locate n 0 f (filter is_applied fs) (filtered-IsOrdered 0 fs h) (filtered_last n fs ∙ e))
