-- ===== src/Units/Decimal.antt =====
-- packages/web3-utils/src/converters.ts: decimal digits, and zeros in front and behind.
use web3_js.Common.{
  Bool, ℕ, zero, suc, ◌+◌, ◌-◌, ◌*◌, ◌/◌, ◌%◌, ◌^◌, ◌≤◌, ◌<◌, ◌≡◌, refl, ap, sym, ◌∙◌, arith, true,
  false, [], ◌∷◌, ◌++◌, Text, all, ltb, nat_eq, between, Bool-cases, inl, inr, ◌&&◌, length,
  length-append,
}
use native.Mathlib.Nat.{pow-succ', mul_assoc}
use mathlib.Core.List.{append-nil, append_assoc}
use web3_js.Hex.{filler}
use web3_js.Units.{digits_10, to_string_10, parse_10, number_of_zeros, strip_zeros, keep_digit}

abbrev pub zero_digits : ℕ → Text
zero_digits zero = []
zero_digits (suc n) = 48 ∷ zero_digits n

pub length-zero_digits : (n : ℕ) → length (zero_digits n) ≡ n
length-zero_digits zero = refl
length-zero_digits (suc n) = ap suc (length-zero_digits n)

pub parse_10-append : (s t : Text) (n : ℕ) → parse_10 (s ++ t) n ≡ parse_10 t (parse_10 s n)
unfolding parse_10
parse_10-append [] t n = refl
parse_10-append (c ∷ s) t n = parse_10-append s t (n * 10 + (c - 48))

parse_10-digits_10 : (fuel n : ℕ) → n < fuel → parse_10 (digits_10 fuel n) 0 ≡ n
unfolding digits_10 parse_10
parse_10-digits_10 zero n p = absurd (omega arith)
parse_10-digits_10 (suc fuel) n p = elim (Bool-cases (ltb n 10)) [
  | inl small ↦ simp small (ground arith)
  | inr large ↦ simp large (
      parse_10-append (digits_10 fuel (n / 10)) ((48 + n % 10) ∷ []) 0
      ∙ ground (arith, parse_10-digits_10 fuel (n / 10)))
]

pub parse_10-to_string_10 : (n : ℕ) → parse_10 (to_string_10 n) 0 ≡ n
unfolding to_string_10
parse_10-to_string_10 n = parse_10-digits_10 (suc n) n (omega arith)

abbrev pub is_digit : ℕ → Bool
is_digit c = between 48 57 c

pub all-append : (s t : Text) → all is_digit (s ++ t) ≡ (all is_digit s && all is_digit t)
all-append [] t = refl
all-append (c ∷ s) t = ground (arith, all-append s t)

all-digits_10 : (fuel n : ℕ) → all is_digit (digits_10 fuel n) ≡ true
unfolding digits_10
all-digits_10 zero n = refl
all-digits_10 (suc fuel) n = elim (Bool-cases (ltb n 10)) [
  | inl small ↦ simp small (ground arith)
  | inr large ↦ simp large (
      all-append (digits_10 fuel (n / 10)) ((48 + n % 10) ∷ [])
      ∙ ground (arith, all-digits_10 fuel (n / 10)))
]

pub all-to_string_10 : (n : ℕ) → all is_digit (to_string_10 n) ≡ true
unfolding to_string_10
all-to_string_10 n = all-digits_10 (suc n) n

pub all-zero_digits : (n : ℕ) → all is_digit (zero_digits n) ≡ true
all-zero_digits zero = refl
all-zero_digits (suc n) = all-zero_digits n

-- More fuel than the number changes nothing.
digits_10-fuel : (f g n : ℕ) → n < f → n < g → digits_10 f n ≡ digits_10 g n
unfolding digits_10
digits_10-fuel zero g n p q = absurd (omega arith)
digits_10-fuel (suc f) zero n p q = absurd (omega arith)
digits_10-fuel (suc f) (suc g) n p q = elim (Bool-cases (ltb n 10)) [
  | inl small ↦ rw small refl
  | inr large ↦ rw large (
      ap (λ s. s ++ ((48 + n % 10) ∷ []))
        (digits_10-fuel f g (n / 10) (ground arith) (ground arith)))
]

digits_10-step :
    (f n : ℕ) → 10 ≤ n → digits_10 (suc f) n ≡ digits_10 f (n / 10) ++ ((48 + n % 10) ∷ [])
unfolding digits_10
digits_10-step f n h = rw (not_small n h) refl
  where
    not_small : (n : ℕ) → 10 ≤ n → ltb n 10 ≡ false
    not_small n h = ground arith

to_string_10-ten : (m : ℕ) → 0 < m → to_string_10 (m * 10) ≡ to_string_10 m ++ (48 ∷ [])
unfolding to_string_10
to_string_10-ten m p =
    let quotient : m * 10 / 10 ≡ m = omega arith in
    let last : 48 + (m * 10) % 10 ≡ 48 = omega arith in
    digits_10-step (m * 10) (m * 10) (omega arith)
    ∙ (λ i. digits_10 (m * 10) (quotient i) ++ (last i ∷ []))
    ∙ ap (λ s. s ++ (48 ∷ [])) (digits_10-fuel (m * 10) (suc m) m (omega arith) (omega arith))

pub to_string_10-power :
    (m d : ℕ) → 0 < m → to_string_10 (m * 10 ^ d) ≡ to_string_10 m ++ zero_digits d
to_string_10-power m zero p = ap to_string_10 (times_one m) ∙ sym (append-nil (to_string_10 m))
  where
    times_one : (m : ℕ) → m * 10 ^ 0 ≡ m
    times_one m = omega arith
to_string_10-power m (suc d) p =
    ap to_string_10 (ap (λ k. m * k) (pow-succ' 10 d) ∙ sym (mul_assoc m 10 (10 ^ d)))
    ∙ to_string_10-power (m * 10) d (omega arith)
    ∙ ap (λ s. s ++ zero_digits d) (to_string_10-ten m p)
    ∙ append_assoc (to_string_10 m) (48 ∷ []) (zero_digits d)

one_digit : length (to_string_10 1) ≡ 1
unfolding to_string_10
one_digit = refl

pub number_of_zeros-power : (z : ℕ) → number_of_zeros (10 ^ z) ≡ z
unfolding number_of_zeros
number_of_zeros-power z =
    ap (λ s. length s - 1) (ap to_string_10 (one_times z) ∙ to_string_10-power 1 z (omega arith))
    ∙ ap (λ n. n - 1) (length-append (to_string_10 1) (zero_digits z))
    ∙ omega (arith, length-zero_digits z, one_digit)
  where
    one_times : (z : ℕ) → 10 ^ z ≡ 1 * 10 ^ z
    one_times z = omega arith

pub parse_10-zeros_before : (k : ℕ) (s : Text) → parse_10 (zero_digits k ++ s) 0 ≡ parse_10 s 0
unfolding parse_10
parse_10-zeros_before zero s = refl
parse_10-zeros_before (suc k) s = parse_10-zeros_before k s

parse_10-zeros : (k n : ℕ) → parse_10 (zero_digits k) n ≡ n * 10 ^ k
unfolding parse_10
parse_10-zeros zero n = omega arith
parse_10-zeros (suc k) n =
    ap (parse_10 (zero_digits k)) (no_digit n)
    ∙ parse_10-zeros k (n * 10)
    ∙ mul_assoc n 10 (10 ^ k)
    ∙ ap (λ m. n * m) (sym (pow-succ' 10 k))
  where
    no_digit : (n : ℕ) → n * 10 + (48 - 48) ≡ n * 10
    no_digit n = omega arith

pub parse_10-zeros_behind :
    (s : Text) (k : ℕ) → parse_10 (s ++ zero_digits k) 0 ≡ parse_10 s 0 * 10 ^ k
parse_10-zeros_behind s k = parse_10-append s (zero_digits k) 0 ∙ parse_10-zeros k (parse_10 s 0)

is_zero : (c : ℕ) → nat_eq c 48 ≡ true → c ≡ 48
is_zero c e = ground arith

-- What is stripped is zeros.
pub strip_zeros-rest : (s : Text) → (k : ℕ) × (s ≡ strip_zeros s ++ zero_digits k)
unfolding strip_zeros
strip_zeros-rest [] = (0, refl)
strip_zeros-rest (c ∷ s) = let (k, e) = strip_zeros-rest s in kept c (strip_zeros s) k s e
  where
    kept :
        (c : ℕ) (t : Text) (k : ℕ) (s : Text)
        → s ≡ t ++ zero_digits k
        → (n : ℕ) × ((c ∷ s) ≡ keep_digit c t ++ zero_digits n)
    kept c [] k s e = elim (Bool-cases (nat_eq c 48)) [
      | inl x ↦ (suc k, rw x (λ i. is_zero c x i ∷ e i))
      | inr x ↦ (k, rw x (ap (λ s. c ∷ s) e))
    ]
    kept c (d ∷ t) k s e = (k, ap (λ s. c ∷ s) e)

pub filler-zero_digits : (n : ℕ) → filler (48 ∷ []) (48 ∷ []) n ≡ zero_digits n
unfolding filler
filler-zero_digits zero = refl
filler-zero_digits (suc n) = ap (λ s. 48 ∷ s) (filler-zero_digits n)
