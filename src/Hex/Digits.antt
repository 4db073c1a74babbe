-- ===== src/Hex/Digits.antt =====
-- Single digits and `toString(16)`, for packages/web3-validator/src/utils.ts.
use web3_js.Common.{
  ℕ, zero, suc, ◌+◌, ◌*◌, ◌/◌, ◌%◌, ◌<◌, ◌≡◌, refl, ◌∙◌, arith, true, [], ◌∷◌, ◌++◌, Text, all, ltb,
  Bool-cases, inl, inr, ◌&&◌, lower,
}
use web3_js.Hex.{hex_value, hex_digit, is_hex_digit, digits_16, to_string_16, parse_16}

pub hex_value-hex_digit : (d : ℕ) → d < 16 → hex_value (hex_digit d) ≡ d
unfolding hex_value hex_digit
hex_value-hex_digit d p = ground arith

pub hex_digit-hex_value : (c : ℕ) → is_hex_digit c ≡ true → hex_digit (hex_value c) ≡ lower c
unfolding hex_value hex_digit
hex_digit-hex_value c p = ground arith

pub hex_value-lt : (c : ℕ) → is_hex_digit c ≡ true → hex_value c < 16
unfolding hex_value
hex_value-lt c p = ground arith

pub is_hex_digit-hex_digit : (d : ℕ) → d < 16 → is_hex_digit (hex_digit d) ≡ true
unfolding hex_digit
is_hex_digit-hex_digit d p = ground arith

parse_16-append : (s t : Text) (n : ℕ) → parse_16 (s ++ t) n ≡ parse_16 t (parse_16 s n)
unfolding parse_16
parse_16-append [] t n = refl
parse_16-append (c ∷ s) t n = parse_16-append s t (n * 16 + hex_value c)

all-append : (s t : Text) → all is_hex_digit (s ++ t) ≡ (all is_hex_digit s && all is_hex_digit t)
all-append [] t = refl
all-append (c ∷ s) t = ground (arith, all-append s t)

pub parse_16-digits_16 : (fuel n : ℕ) → n < fuel → parse_16 (digits_16 fuel n) 0 ≡ n
unfolding digits_16 parse_16
parse_16-digits_16 zero n p = absurd (omega arith)
parse_16-digits_16 (suc fuel) n p = elim (Bool-cases (ltb n 16)) [
  | inl small ↦ simp small (ground (arith, hex_value-hex_digit n))
  | inr large ↦ simp large (
      parse_16-append (digits_16 fuel (n / 16)) (hex_digit (n % 16) ∷ []) 0
      ∙ ground (arith, parse_16-digits_16 fuel (n / 16), hex_value-hex_digit (n % 16)))
]

pub digits_16-hex : (fuel n : ℕ) → all is_hex_digit (digits_16 fuel n) ≡ true
unfolding digits_16
digits_16-hex zero n = refl
digits_16-hex (suc fuel) n = elim (Bool-cases (ltb n 16)) [
  | inl small ↦ simp small (ground (arith, is_hex_digit-hex_digit n))
  | inr large ↦ simp large (
      all-append (digits_16 fuel (n / 16)) (hex_digit (n % 16) ∷ [])
      ∙ ground (arith, digits_16-hex fuel (n / 16), is_hex_digit-hex_digit (n % 16)))
]

pub parse_16-to_string_16 : (n : ℕ) → parse_16 (to_string_16 n) 0 ≡ n
unfolding to_string_16
parse_16-to_string_16 n = parse_16-digits_16 (suc n) n (omega arith)

pub to_string_16-hex : (n : ℕ) → all is_hex_digit (to_string_16 n) ≡ true
unfolding to_string_16
to_string_16-hex n = digits_16-hex (suc n) n
