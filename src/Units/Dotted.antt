-- ===== src/Units/Dotted.antt =====
-- packages/web3-utils/src/converters.ts: a text of digits with one dot at most, cut at the dot.
use web3_js.Common.{
  Bool, ℕ, suc, ◌+◌, ◌*◌, ◌/◌, ◌%◌, min, ◌<◌, ◌≡◌, refl, ap, arith, true, false, [], ◌∷◌, ◌++◌,
  Text, all, ltb, nat_eq, Bool-cases, inl, inr, ◌&&◌, length, length-append,
}
use web3_js.Units.{
  digits_10, to_string_10, number_of_zeros, join_parts, split_at_dot, scaled, cut_decimals,
  is_decimal, is_decimal_unit, count_dots,
}
use web3_js.Units.Decimal.{is_digit, parse_10-zeros_before}

pub all-cons :
    (c : ℕ) (s : Text) → all is_digit (c ∷ s) ≡ true → (is_digit c ≡ true) × (all is_digit s ≡ true)
all-cons c s h = ground arith

pub both : {a b : Bool} → (a && b) ≡ true → (a ≡ true) × (b ≡ true)
both {a = a} {b = b} h = ground arith

no_dot : (c : ℕ) → is_digit c ≡ true → nat_eq c 46 ≡ false
no_dot c h = ground arith

pub split_digits : (s : Text) → all is_digit s ≡ true → split_at_dot s ≡ (s, [])
split_digits [] h = refl
split_digits (c ∷ s) h =
    let (first, others) = all-cons c s h in
    rw (no_dot c first) (ap (λ p. (c ∷ p.0, p.1)) (split_digits s others))

split_dotted : (s f : Text) → all is_digit s ≡ true → split_at_dot (s ++ (46 ∷ f)) ≡ (s, f)
split_dotted [] f h = refl
split_dotted (c ∷ s) f h =
    let (first, others) = all-cons c s h in
    rw (no_dot c first) (ap (λ p. (c ∷ p.0, p.1)) (split_dotted s f others))

all-decimal : (s : Text) → all is_digit s ≡ true → all is_decimal_unit s ≡ true
all-decimal [] h = refl
all-decimal (c ∷ s) h = ground (arith, all-decimal s, all-cons c s h)

all-dotted :
    (s f : Text)
    → all is_digit s ≡ true
    → all is_digit f ≡ true
    → all is_decimal_unit (s ++ (46 ∷ f)) ≡ true
all-dotted [] f h k = all-decimal f k
all-dotted (c ∷ s) f h k = ground (arith, all-dotted s f, all-cons c s h)

count_dots-digits : (s : Text) → all is_digit s ≡ true → count_dots s ≡ 0
count_dots-digits [] h = refl
count_dots-digits (c ∷ s) h =
    let (first, others) = all-cons c s h in rw (no_dot c first) (count_dots-digits s others)

count_dots-dotted :
    (s f : Text) → all is_digit s ≡ true → all is_digit f ≡ true → count_dots (s ++ (46 ∷ f)) ≡ 1
count_dots-dotted [] f h k = ap suc (count_dots-digits f k)
count_dots-dotted (c ∷ s) f h k =
    let (first, others) = all-cons c s h in rw (no_dot c first) (count_dots-dotted s f others k)

is_decimal-digits : (c : ℕ) (s : Text) → all is_digit (c ∷ s) ≡ true → is_decimal (c ∷ s) ≡ true
is_decimal-digits c s h = rw (all-decimal (c ∷ s) h) (rw (count_dots-digits (c ∷ s) h) refl)

is_decimal-dotted :
    (c : ℕ) (s f : Text)
    → all is_digit (c ∷ s) ≡ true
    → all is_digit f ≡ true
    → is_decimal ((c ∷ s) ++ (46 ∷ f)) ≡ true
is_decimal-dotted c s f h k =
    rw (all-dotted (c ∷ s) f h k) (rw (count_dots-dotted (c ∷ s) f h k) refl)

leading_zero : (d : ℕ) (f : Text) → scaled d (48 ∷ []) f ≡ scaled d [] f
unfolding scaled
leading_zero d f =
    ap (λ v. cut_decimals (to_string_10 (v * d)) (min (length f) (number_of_zeros d)))
      (parse_10-zeros_before 1 f)

-- What `toPlanck` makes of a text in any of the three forms that `fromPlanck` writes.
pub read_parts :
    (d : ℕ) (integer fraction : Text)
    → all is_digit integer ≡ true
    → all is_digit fraction ≡ true
    → (is_decimal (join_parts integer fraction) ≡ true)
      × (scaled d
            (split_at_dot (join_parts integer fraction)).0
            (split_at_dot (join_parts integer fraction)).1
          ≡ scaled d integer fraction)
read_parts d [] fraction h k = (is_decimal-dotted 48 [] fraction refl k, leading_zero d fraction)
read_parts d (c ∷ s) [] h k =
    (is_decimal-digits c s h, ap (λ p. scaled d p.0 p.1) (split_digits (c ∷ s) h))
read_parts d (c ∷ s) (e ∷ f) h k =
    (is_decimal-dotted c s (e ∷ f) h k, ap (λ p. scaled d p.0 p.1) (split_dotted (c ∷ s) (e ∷ f) h))

pub decimal_of_digits : (s : Text) → all is_digit s ≡ true → 0 < length s → is_decimal s ≡ true
decimal_of_digits [] d h = ground arith
decimal_of_digits (c ∷ s) d h = is_decimal-digits c s d

pub to_string_10-nonempty : (n : ℕ) → 0 < length (to_string_10 n)
unfolding to_string_10 digits_10
to_string_10-nonempty n = elim (Bool-cases (ltb n 10)) [
  | inl small ↦ rw small (omega arith)
  | inr large ↦ rw large (omega (arith, length-append (digits_10 n (n / 10)) ((48 + n % 10) ∷ [])))
]
