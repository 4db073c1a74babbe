-- ===== src/Units/Scaled.antt =====
-- packages/web3-utils/src/converters.ts: what `toPlanck` gives for the digits before and behind the dot.
use web3_js.Common.{
  ℕ, zero, suc, ◌+◌, ◌-◌, ◌*◌, ◌^◌, min, ◌≤◌, ◌<◌, ◌≡◌, refl, ap, sym, ◌∙◌, arith, true, false, [],
  ◌∷◌, ◌++◌, Text, nat_eq, Bool-cases, inl, inr, length, length-append, slice_to, slice_to-length,
}
use native.Mathlib.Nat.{zero-add, pow-suc, pow-succ', mul_assoc}
use web3_js.Hex.{pad_start, filler}
use web3_js.Hex.Numbers.{pad_start-length}
use web3_js.Units.{to_string_10, parse_10, slice_before, scaled, cut_decimals}
use web3_js.Units.Decimal.{
  zero_digits, length-zero_digits, to_string_10-power, number_of_zeros-power,
}

pow_add : (a b : ℕ) → 10 ^ (a + b) ≡ 10 ^ a * 10 ^ b
pow_add zero b = ap (λ n. 10 ^ n) (zero-add b) ∙ one_times (10 ^ b)
  where
    one_times : (n : ℕ) → n ≡ 10 ^ 0 * n
    one_times n = omega arith
pow_add (suc a) b =
    ap (λ n. 10 ^ n) (suc_add a b)
    ∙ pow-succ' 10 (a + b)
    ∙ ap (λ n. 10 * n) (pow_add a b)
    ∙ sym (mul_assoc 10 (10 ^ a) (10 ^ b))
    ∙ ap (λ n. n * 10 ^ b) (sym (pow-succ' 10 a))
  where
    suc_add : (a b : ℕ) → suc a + b ≡ suc (a + b)
    suc_add a b = omega arith

slice_before-append : (xs ys : Text) (k : ℕ) → length ys ≡ k → slice_before k (xs ++ ys) ≡ xs
slice_before-append xs ys k e =
    ap (λ n. slice_to n (xs ++ ys)) (omega (arith, length-append xs ys)) ∙ slice_to-length xs ys

-- A text that is long enough is not padded.
pad_start-long : (s : Text) (k : ℕ) → k ≤ length s → pad_start s k (48 ∷ []) ≡ s
unfolding pad_start filler
pad_start-long s k h = ap (λ n. filler (48 ∷ []) (48 ∷ []) n ++ s) (nothing_missing (length s) k h)
  where
    nothing_missing : (n k : ℕ) → k ≤ n → k - n ≡ 0
    nothing_missing n k h = omega arith

shifted :
    (m k : ℕ)
    → 0 < m
    → slice_before k (pad_start (to_string_10 (m * 10 ^ k)) k (48 ∷ [])) ≡ to_string_10 m
shifted m k h =
    ap (λ s. slice_before k (pad_start s k (48 ∷ []))) (to_string_10-power m k h)
    ∙ ap (slice_before k) (
        pad_start-long (to_string_10 m ++ zero_digits k) k
          (omega (arith, length-append (to_string_10 m) (zero_digits k), length-zero_digits k)))
    ∙ slice_before-append (to_string_10 m) (zero_digits k) k (length-zero_digits k)

zeros_sliced : (k : ℕ) → 0 < k → slice_before k (pad_start (48 ∷ []) k (48 ∷ [])) ≡ []
zeros_sliced k h =
    slice_before-append [] (pad_start (48 ∷ []) k (48 ∷ [])) k
      (omega (arith, pad_start-length (48 ∷ []) k 48 []))

cut_decimals-power : (m k : ℕ) → 0 < m → cut_decimals (to_string_10 (m * 10 ^ k)) k ≡ to_string_10 m
cut_decimals-power m k h = elim (Bool-cases (nat_eq k 0)) [
  | inl x ↦ rw x (ap (λ n. to_string_10 (m * 10 ^ n)) (is_none k x) ∙ ap to_string_10 (times_one m))
  | inr x ↦ rw x (shifted m k h)
]
  where
    is_none : (k : ℕ) → nat_eq k 0 ≡ true → k ≡ 0
    is_none k x = ground arith

    times_one : (m : ℕ) → m * 10 ^ 0 ≡ m
    times_one m = omega arith

split_power : (v k z : ℕ) → k ≤ z → v * 10 ^ z ≡ v * 10 ^ (z - k) * 10 ^ k
split_power v k z h =
    ap (λ n. v * 10 ^ n) (parts k z h)
    ∙ ap (λ n. v * n) (pow_add (z - k) k)
    ∙ sym (mul_assoc v (10 ^ (z - k)) (10 ^ k))
  where
    parts : (k z : ℕ) → k ≤ z → z ≡ z - k + k
    parts k z h = omega arith

positive_power : (v n : ℕ) → 0 < v → 0 < v * 10 ^ n
positive_power v zero h = omega arith
positive_power v (suc n) h =
    let more : v * 10 ^ suc n ≡ v * 10 ^ n * 10 =
      ap (λ m. v * m) (pow-suc 10 n) ∙ sym (mul_assoc v (10 ^ n) 10) in
    omega (arith, positive_power v n h, more)

pub zero_to_string : to_string_10 0 ≡ 48 ∷ []
unfolding to_string_10
zero_to_string = refl

pub nothing_scaled : (v n : ℕ) → v ≡ 0 → v * n ≡ 0
nothing_scaled v n e = ap (λ m. m * n) e ∙ zero_times n
  where
    zero_times : (n : ℕ) → 0 * n ≡ 0
    zero_times n = omega arith

cut_none : (s : Text) (k : ℕ) → k ≡ 0 → cut_decimals s k ≡ s
cut_none s k e = ground arith

cut_some : (s : Text) (k : ℕ) → 0 < k → cut_decimals s k ≡ slice_before k (pad_start s k (48 ∷ []))
cut_some s k h = rw (above k h) refl
  where
    above : (k : ℕ) → 0 < k → nat_eq k 0 ≡ false
    above k h = ground arith

-- For the digits before and behind the dot, in a unit of 10 ^ z planck: digits that make a number
-- above 0 are that number times 10 ^ z, less one power of ten for each digit behind the dot but for
-- z of them at most, so that digits behind the dot beyond the z-th make the amount larger; digits
-- that are all 0 give `0` without a fraction, or in planck, and the empty text otherwise.
pub scaled_lem :
    (z : ℕ) (integer fraction : Text)
    → let v = parse_10 (integer ++ fraction) 0 in
      let k = min (length fraction) z in
      ((0 < v) → scaled (10 ^ z) integer fraction ≡ to_string_10 (v * 10 ^ (z - k)))
      × (v ≡ 0 → k ≡ 0 → scaled (10 ^ z) integer fraction ≡ 48 ∷ [])
      × (v ≡ 0 → 0 < k → scaled (10 ^ z) integer fraction ≡ [])
unfolding scaled
scaled_lem z integer fraction =
    let v = parse_10 (integer ++ fraction) 0 in
    let k = min (length fraction) z in
    let zeros : scaled (10 ^ z) integer fraction ≡ cut_decimals (to_string_10 (v * 10 ^ z)) k =
      ap (λ n. cut_decimals (to_string_10 (v * 10 ^ z)) (min (length fraction) n))
        (number_of_zeros-power z) in
    let nothing : v ≡ 0 → scaled (10 ^ z) integer fraction ≡ cut_decimals (48 ∷ []) k = λ e.
      zeros
      ∙ ap (λ s. cut_decimals s k)
          (ap to_string_10 (nothing_scaled v (10 ^ z) e) ∙ zero_to_string) in
    (
      λ h.
          zeros
          ∙ ap (λ n. cut_decimals (to_string_10 n) k) (split_power v k z (omega arith))
          ∙ cut_decimals-power (v * 10 ^ (z - k)) k (positive_power v (z - k) h),
      λ e e'. nothing e ∙ cut_none (48 ∷ []) k e',
      λ e h. nothing e ∙ cut_some (48 ∷ []) k h ∙ zeros_sliced k h,
    )
