-- ===== src/Transactions/Encoded.antt =====
-- packages/web3-qrl-accounts/src/common/utils.ts: numbers as bytes and back.
use web3_js.Common.{
  ℕ, zero, suc, ◌+◌, ◌*◌, ◌%◌, ◌≡◌, refl, ap, ◌∙◌, true, false, Bool-cases, inl, inr, [], ◌∷◌, Text,
  all, to_lower_case, lower, nat_eq, length, arith,
}
use web3_js.Hex.{
  digits_16, hex_digit, hex_value, is_hex_digit, parse_16, to_string_16, hex_of_bytes, read_bytes,
}
use web3_js.Hex.Digits.{parse_16-to_string_16, to_string_16-hex}
use web3_js.Hex.Bytes.{hex_of_bytes-read_bytes}
use web3_js.Hardforks.ForkHash.{pad_to_even}
use web3_js.Transactions.{Bytes}
use web3_js.Transactions.Encoding.{
  strip_front, big_int_to_uint8_array, big_int_to_unpadded, uint8_array_to_big_int,
  starts_with_zero,
}

hex_value-lower : (c : ℕ) → is_hex_digit c ≡ true → hex_value (lower c) ≡ hex_value c
unfolding hex_value
hex_value-lower c h = ground arith

all-cons :
    (c : ℕ) (s : Text)
    → all is_hex_digit (c ∷ s) ≡ true
    → (is_hex_digit c ≡ true) × (all is_hex_digit s ≡ true)
all-cons c s h = ground arith

parse_16-lower :
    (s : Text) (n : ℕ) → all is_hex_digit s ≡ true → parse_16 (to_lower_case s) n ≡ parse_16 s n
unfolding parse_16
parse_16-lower [] n h = refl
parse_16-lower (c ∷ s) n h =
    let (first, others) = all-cons c s h in
    ap (λ m. parse_16 (to_lower_case s) (n * 16 + m)) (hex_value-lower c first)
    ∙ parse_16-lower s (n * 16 + hex_value c) others

pad_to_even-even : (s : Text) → length (pad_to_even s) % 2 ≡ 0
pad_to_even-even s = ground arith

pad_to_even-hex : (s : Text) → all is_hex_digit s ≡ true → all is_hex_digit (pad_to_even s) ≡ true
pad_to_even-hex s h = ground arith

parse_16-leading : (s : Text) → parse_16 (48 ∷ s) 0 ≡ parse_16 s 0
unfolding parse_16 hex_value
parse_16-leading s = refl

parse_16-pad_to_even : (s : Text) → parse_16 (pad_to_even s) 0 ≡ parse_16 s 0
parse_16-pad_to_even s = elim (Bool-cases (nat_eq (length s % 2) 0)) [
  | inl x ↦ rw x refl
  | inr x ↦ rw x (parse_16-leading s)
]

parse_16-zero_byte :
    (bs : Bytes) → parse_16 (hex_of_bytes bs) 0 ≡ parse_16 (hex_of_bytes (0 ∷ bs)) 0
unfolding hex_of_bytes parse_16 hex_value to_string_16 digits_16 hex_digit
parse_16-zero_byte bs = refl

parse_16-strip_front :
    (bs : Bytes) → parse_16 (hex_of_bytes (strip_front bs)) 0 ≡ parse_16 (hex_of_bytes bs) 0
unfolding strip_front
parse_16-strip_front [] = refl
parse_16-strip_front (zero ∷ bs) = parse_16-strip_front bs ∙ parse_16-zero_byte bs
parse_16-strip_front (suc b ∷ bs) = refl

pub uint8_array_to_big_int-unpadded : (n : ℕ) → uint8_array_to_big_int (big_int_to_unpadded n) ≡ n
unfolding uint8_array_to_big_int big_int_to_unpadded big_int_to_uint8_array
uint8_array_to_big_int-unpadded n =
    let s = pad_to_even (to_string_16 n) in
    let hex = pad_to_even-hex (to_string_16 n) (to_string_16-hex n) in
    parse_16-strip_front (read_bytes s)
    ∙ ap (λ t. parse_16 t 0) (hex_of_bytes-read_bytes s (pad_to_even-even (to_string_16 n)) hex)
    ∙ parse_16-lower s 0 hex
    ∙ parse_16-pad_to_even (to_string_16 n)
    ∙ parse_16-to_string_16 n

strip_front-starts : (bs : Bytes) → starts_with_zero (strip_front bs) ≡ false
unfolding strip_front
strip_front-starts [] = refl
strip_front-starts (zero ∷ bs) = strip_front-starts bs
strip_front-starts (suc b ∷ bs) = ground arith

pub big_int_to_unpadded-starts : (n : ℕ) → starts_with_zero (big_int_to_unpadded n) ≡ false
unfolding big_int_to_unpadded
big_int_to_unpadded-starts n = strip_front-starts (big_int_to_uint8_array n)
