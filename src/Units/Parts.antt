-- ===== src/Units/Parts.antt =====
-- packages/web3-utils/src/converters.ts: the parts that `fromPlanck` writes.
use web3_js.Common.{
  ℕ, suc, ◌+◌, ◌-◌, ◌*◌, ◌^◌, ◌<◌, ◌≡◌, ap, sym, ◌∙◌, arith, true, [], ◌∷◌, ◌++◌, Text, all, inl,
  inr, ◌⊎◌, length, length-append, slice_to-drop, length-drop,
}
use mathlib.Core.List.{append_assoc}
use web3_js.Hex.{pad_start}
use web3_js.Hex.Numbers.{pad_start-length}
use web3_js.Units.{
  to_string_10, parse_10, strip_zeros, keep_digit, slice_before, slice_last, scaled,
}
use web3_js.Units.Decimal.{
  zero_digits, length-zero_digits, parse_10-append, parse_10-to_string_10, is_digit, all-append,
  all-to_string_10, all-zero_digits, parse_10-zeros_before, parse_10-zeros_behind, strip_zeros-rest,
  filler-zero_digits,
}
use web3_js.Units.Scaled.{scaled_lem, nothing_scaled, zero_to_string}
use web3_js.Units.Dotted.{all-cons, both}

kept-positive :
    (c : ℕ) (t : Text) (n : ℕ)
    → is_digit c ≡ true
    → ((m : ℕ) → 0 < length t → 0 < parse_10 t m)
    → 0 < length (keep_digit c t)
    → 0 < parse_10 (keep_digit c t) n
unfolding parse_10
kept-positive c [] n d rest h = ground arith
kept-positive c (e ∷ t) n d rest h = rest (n * 10 + (c - 48)) (omega arith)

-- The last digit that is left is not 0.
strip_zeros-positive :
    (s : Text) (n : ℕ)
    → all is_digit s ≡ true
    → 0 < length (strip_zeros s)
    → 0 < parse_10 (strip_zeros s) n
unfolding strip_zeros
strip_zeros-positive [] n d h = ground arith
strip_zeros-positive (c ∷ s) n d h =
    let (first, others) = all-cons c s d in
    kept-positive c (strip_zeros s) n first (λ m p. strip_zeros-positive s m others p) h

zero_or_more : (v : ℕ) → (v ≡ 0) ⊎ (0 < v)
zero_or_more v = ground arith

module _ (n k : ℕ) where
  abbrev padded : Text
  padded = pad_start (to_string_10 n) (suc k) (48 ∷ [])

  abbrev pub integer_part : Text
  integer_part = slice_before (suc k) padded

  abbrev pub last_part : Text
  last_part = slice_last (suc k) padded

  abbrev pub fraction_part : Text
  fraction_part = strip_zeros last_part

  padded_zeros : padded ≡ zero_digits (suc k - length (to_string_10 n)) ++ to_string_10 n
  unfolding pad_start
  padded_zeros =
      ap (λ s. s ++ to_string_10 n) (filler-zero_digits (suc k - length (to_string_10 n)))

  all-padded : all is_digit padded ≡ true
  all-padded =
      ap (all is_digit) padded_zeros
      ∙ all-append (zero_digits (suc k - length (to_string_10 n))) (to_string_10 n)
      ∙ ground (arith, all-zero_digits (suc k - length (to_string_10 n)), all-to_string_10 n)

  parts_joined : integer_part ++ last_part ≡ padded
  parts_joined = slice_to-drop (length padded - suc k) padded

  pub all-parts : (all is_digit integer_part ≡ true) × (all is_digit last_part ≡ true)
  all-parts =
      both (sym (all-append integer_part last_part) ∙ ap (all is_digit) parts_joined ∙ all-padded)

  length-last_part : length last_part ≡ suc k
  length-last_part = omega (
    arith,
    length-drop (length padded - suc k) padded,
    pad_start-length (to_string_10 n) (suc k) 48 [],
  )

  -- The zeros that were stripped.
  abbrev stripped : ℕ
  stripped = (strip_zeros-rest last_part).0

  parsed : n ≡ parse_10 (integer_part ++ fraction_part) 0 * 10 ^ stripped
  parsed =
      sym (parse_10-to_string_10 n)
      ∙ sym (parse_10-zeros_before (suc k - length (to_string_10 n)) (to_string_10 n))
      ∙ ap (λ s. parse_10 s 0)
          (sym padded_zeros
            ∙ sym parts_joined
            ∙ ap (λ s. integer_part ++ s) (strip_zeros-rest last_part).1
            ∙ sym (append_assoc integer_part fraction_part (zero_digits stripped)))
      ∙ parse_10-zeros_behind (integer_part ++ fraction_part) stripped

  length-fraction_part : length fraction_part + stripped ≡ suc k
  length-fraction_part = omega (
    arith,
    length-last_part,
    ap length (strip_zeros-rest last_part).1,
    length-append fraction_part (zero_digits stripped),
    length-zero_digits stripped,
  )

  no_fraction : parse_10 (integer_part ++ fraction_part) 0 ≡ 0 → length fraction_part ≡ 0
  no_fraction e = elim (zero_or_more (length fraction_part)) [
    | inl none ↦ none
    | inr h ↦ absurd (
        omega (
          arith,
          e,
          parse_10-append integer_part fraction_part 0,
          strip_zeros-positive last_part (parse_10 integer_part 0) all-parts.1 h,
        ))
  ]

  pub scaled_back : scaled (10 ^ suc k) integer_part fraction_part ≡ to_string_10 n
  scaled_back =
      let v = parse_10 (integer_part ++ fraction_part) 0 in
      let (some_value, no_value, lost) = scaled_lem (suc k) integer_part fraction_part in
      elim (zero_or_more v) [
        | inl e ↦
            no_value e (omega (arith, no_fraction e))
            ∙ sym zero_to_string
            ∙ ap to_string_10 (sym (parsed ∙ nothing_scaled v (10 ^ stripped) e))
        | inr h ↦
            some_value h
            ∙ ap to_string_10
                (ap (λ e. v * 10 ^ e) (omega (arith, length-fraction_part)) ∙ sym parsed)
      ]

pub all-strip_zeros : (s : Text) → all is_digit s ≡ true → all is_digit (strip_zeros s) ≡ true
all-strip_zeros s h =
    let (k, e) = strip_zeros-rest s in
    (both (sym (all-append (strip_zeros s) (zero_digits k)) ∙ ap (all is_digit) (sym e) ∙ h)).0
