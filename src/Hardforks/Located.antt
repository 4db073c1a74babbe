-- ===== src/Hardforks/Located.antt =====
-- packages/web3-qrl-accounts/src/common/common.ts: where the hardfork of a block stands among the
-- hardforks of its chain.
use web3_js.Common.{
  ℕ, ◌≤◌, Bool, true, false, Option, none, some, List, [], ◌∷◌, ◌++◌, ◌≡◌, refl, ap, leb,
  if◌then◌else◌, All, ◌⊎◌, ◌≢◌, arith, inl, inr, subst,
}
use web3_js.Hardforks.{Block, absent, null, number, HardforkConfig}
use web3_js.Hardforks.Select.{is_above}

abbrev pub is_active : ℕ → Block → Bool
is_active n (number b) = leb b n
is_active n _ = false

abbrev pub or_this : Option HardforkConfig → ℕ → HardforkConfig → Option HardforkConfig
or_this (some g) n f = some g
or_this none n f = if is_active n f.block then some f else none

-- The last hardfork of the list whose block is at most the number.
unfoldable pub last_active : ℕ → List HardforkConfig → Option HardforkConfig
last_active n [] = none
last_active n (f ∷ fs) = or_this (last_active n fs) n f

abbrev pub OrderedBlock : Block → ℕ → (ℕ → Type 0) → Type 0
OrderedBlock absent low rest = ⊥
OrderedBlock null low rest = rest low
OrderedBlock (number b) low rest = (low ≤ b) × rest b

-- No block number is below `low` or below one before it, and none is `undefined`.
unfoldable pub IsOrdered : ℕ → List HardforkConfig → Type 0
IsOrdered low [] = Unit
IsOrdered low (f ∷ fs) = OrderedBlock f.block low (λ b. IsOrdered b fs)

-- The list ends, or goes on with a hardfork above the number.
abbrev pub StartsAbove : ℕ → List HardforkConfig → Type 0
StartsAbove n [] = Unit
StartsAbove n (g ∷ gs) = is_above n none g ≡ true

pub record Located (n low : ℕ) (f : HardforkConfig) (fs : List HardforkConfig) : Type 0 where
  pub before : List HardforkConfig
  pub inside : List HardforkConfig
  pub after : List HardforkConfig
  pub at : ℕ
  pub shape : fs ≡ before ++ (f ∷ (inside ++ after))
  pub at_block : f.block ≡ number at
  pub at_most : at ≤ n
  pub at_least : low ≤ at
  pub before_below : All (λ g. is_above n none g ≡ false) before
  pub inside_null : All (λ g. g.block ≡ null) inside
  pub after_above : StartsAbove n after

pub record Passed (n : ℕ) (fs : List HardforkConfig) : Type 0 where
  pub nulls : List HardforkConfig
  pub later : List HardforkConfig
  pub split : fs ≡ nulls ++ later
  pub all_null : All (λ g. g.block ≡ null) nulls
  pub later_above : StartsAbove n later

pub or_this-none :
    (o : Option HardforkConfig) (n : ℕ) (f : HardforkConfig)
    → or_this o n f ≡ none
    → (o ≡ none) × (is_active n f.block ≡ false)
or_this-none o n f h = ground arith

Passed-null :
    (n : ℕ) (f : HardforkConfig) (fs : List HardforkConfig)
    → f.block ≡ null
    → Passed n fs
    → Passed n (f ∷ fs)
Passed-null n f fs e p = record {
  nulls = f ∷ p.nulls;
  later = p.later;
  split = ap (λ gs. f ∷ gs) p.split;
  all_null = (e, p.all_null);
  later_above = p.later_above;
}

Passed-above :
    (n : ℕ) (f : HardforkConfig) (fs : List HardforkConfig)
    → is_above n none f ≡ true
    → Passed n (f ∷ fs)
Passed-above n f fs e = record {
  nulls = [];
  later = f ∷ fs;
  split = refl;
  all_null = tt;
  later_above = e;
}

pub Block-cases : (b : Block) → (b ≡ absent) ⊎ ((b ≡ null) ⊎ ((n : ℕ) × (b ≡ number n)))
Block-cases absent = inl refl
Block-cases null = inr (inl refl)
Block-cases (number n) = inr (inr (n, refl))

pub IsOrdered-tail :
    (low : ℕ) (f : HardforkConfig) (fs : List HardforkConfig)
    → f.block ≡ null
    → IsOrdered low (f ∷ fs)
    → IsOrdered low fs
unfolding IsOrdered
IsOrdered-tail low f fs e h = subst (λ b. OrderedBlock b low (λ c. IsOrdered c fs)) e h

pub IsOrdered-number :
    (low b : ℕ) (f : HardforkConfig) (fs : List HardforkConfig)
    → f.block ≡ number b
    → IsOrdered low (f ∷ fs)
    → (low ≤ b) × IsOrdered b fs
unfolding IsOrdered
IsOrdered-number low b f fs e h = subst (λ c. OrderedBlock c low (λ d. IsOrdered d fs)) e h

pub ordered_absent :
    (low : ℕ) (f : HardforkConfig) (fs : List HardforkConfig)
    → f.block ≡ absent
    → IsOrdered low (f ∷ fs)
    → ⊥
unfolding IsOrdered
ordered_absent low f fs e h = subst (λ c. OrderedBlock c low (λ d. IsOrdered d fs)) e h

above_not_active :
    (n b : ℕ) (f : HardforkConfig)
    → f.block ≡ number b
    → is_active n f.block ≡ false
    → is_above n none f ≡ true
above_not_active n b f e h = ground arith

passed :
    (n low : ℕ) (fs : List HardforkConfig)
    → IsOrdered low fs
    → last_active n fs ≡ none
    → Passed n fs
unfolding last_active IsOrdered
passed n low [] h e = record {
  nulls = [];
  later = [];
  split = refl;
  all_null = tt;
  later_above = tt;
}
passed n low (f ∷ fs) h e =
    let (rest, this) = or_this-none (last_active n fs) n f e in
    elim (Block-cases f.block) [
      | inl x ↦ elim (ordered_absent low f fs x h) [ ]
      | inr (inl x) ↦ Passed-null n f fs x (passed n low fs (IsOrdered-tail low f fs x h) rest)
      | inr (inr (b, x)) ↦ Passed-above n f fs (above_not_active n b f x this)
    ]

pub or_this-some :
    (o : Option HardforkConfig) (n : ℕ) (f g : HardforkConfig)
    → or_this o n f ≡ some g
    → (o ≡ some g) ⊎ ((o ≡ none) × ((is_active n f.block ≡ true) × (f ≡ g)))
or_this-some o n f g h = ground arith

Located-after :
    (n low b : ℕ) (f g : HardforkConfig) (fs : List HardforkConfig)
    → (is_above n none f ≡ false)
    → low ≤ b
    → Located n b g fs
    → Located n low g (f ∷ fs)
Located-after n low b f g fs e le l = record {
  before = f ∷ l.before;
  inside = l.inside;
  after = l.after;
  at = l.at;
  shape = ap (λ gs. f ∷ gs) l.shape;
  at_block = l.at_block;
  at_most = l.at_most;
  at_least = omega (arith, l.at_least);
  before_below = (e, l.before_below);
  inside_null = l.inside_null;
  after_above = l.after_above;
}

Located-here :
    (n low b : ℕ) (f : HardforkConfig) (fs : List HardforkConfig)
    → f.block ≡ number b
    → low ≤ b
    → b ≤ n
    → Passed n fs
    → Located n low f (f ∷ fs)
Located-here n low b f fs e le lt p = record {
  before = [];
  inside = p.nulls;
  after = p.later;
  at = b;
  shape = ap (λ gs. f ∷ gs) p.split;
  at_block = e;
  at_most = lt;
  at_least = le;
  before_below = tt;
  inside_null = p.all_null;
  after_above = p.later_above;
}

null-below : (n : ℕ) (f : HardforkConfig) → f.block ≡ null → is_above n none f ≡ false
null-below n f e = ground arith

number-below :
    (n b : ℕ) (f : HardforkConfig) → f.block ≡ number b → b ≤ n → is_above n none f ≡ false
number-below n b f e h = ground arith

active-number :
    (n b : ℕ) (f : HardforkConfig) → f.block ≡ number b → is_active n f.block ≡ true → b ≤ n
active-number n b f e h = ground arith

null-inactive : (n : ℕ) (f : HardforkConfig) → f.block ≡ null → is_active n f.block ≢ true
null-inactive n f e h = ground arith

pub locate :
    (n low : ℕ) (f : HardforkConfig) (fs : List HardforkConfig)
    → IsOrdered low fs
    → last_active n fs ≡ some f
    → Located n low f fs
unfolding last_active
locate n low f [] h e = ground arith
locate n low f (g ∷ fs) h e = elim (Block-cases g.block) [
  | inl x ↦ elim (ordered_absent low g fs x h) [ ]
  | inr (inl x) ↦ elim (or_this-some (last_active n fs) n g f e) [
    | inl rest ↦
        Located-after n low low g f fs (null-below n g x) (omega arith)
          (locate n low f fs (IsOrdered-tail low g fs x h) rest)
    | inr (rest, (this, same)) ↦ elim (null-inactive n g x this) [ ]
  ]
  | inr (inr (b, x)) ↦
      let (le, t) = IsOrdered-number low b g fs x h in
      elim (or_this-some (last_active n fs) n g f e) [
        | inl rest ↦
            let l = locate n b f fs t rest in
            Located-after n low b g f fs
              (number-below n b g x (omega (arith, l.at_least, l.at_most))) le l
        | inr (rest, (this, same)) ↦
            subst (λ k. Located n low k (g ∷ fs)) same
              (Located-here n low b g fs x le (active-number n b g x this) (passed n b fs t rest))
      ]
]
