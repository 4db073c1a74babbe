-- ===== src/Hex/Tests.antt =====
-- Hex strings of concrete bytes and numbers (packages/web3-validator/src/utils.ts).
use web3_js.Common.{
  ℕ, ◌%◌, ◌≡◌, refl, none, some, [], ◌∷◌, ◌++◌, codes, length, all, to_lower_case, All, arith, List,
  true, false,
}
use web3_js.Hex.{
  negsuc, hex_to_uint8_array, uint8_array_to_hex_string, bytes, odd_length, invalid_hex,
  hex_to_number, number_to_hex, to_string_16, is_hex_strict, strip_prefix, is_hex_digit, read_bytes,
  hex_of_bytes, hex_value, hex_digit, digits_16, parse_16,
}
use web3_js.Hex.Bytes.{IsByte, hex_to_uint8_array-uint8_array_to_hex_string, hex_to_uint8_array_lem}
use web3_js.Hex.Numbers.{hex_to_number-number_to_hex}

hex_code : Unit {0}
unfolding hex_to_uint8_array read_bytes hex_value hex_of_bytes to_string_16 digits_16 hex_digit
    uint8_array_to_hex_string is_hex_strict number_to_hex hex_to_number parse_16
hex_code = tt

read_mixed : hex_to_uint8_array (codes "0X0aFf") ≡ bytes (10 ∷ 255 ∷ [])
unfolding hex_code
read_mixed = refl

no_digits : hex_to_number (codes "0x") ≡ none
unfolding hex_code
no_digits = refl

minus_255 : number_to_hex (negsuc 254) ≡ codes "-0xff"
unfolding hex_code
minus_255 = refl

hex_to_uint8_array-uint8_array_to_hex_string_example :
    hex_to_uint8_array (uint8_array_to_hex_string (0 ∷ 16 ∷ 255 ∷ [])) ≡ bytes (0 ∷ 16 ∷ 255 ∷ [])
hex_to_uint8_array-uint8_array_to_hex_string_example =
    hex_to_uint8_array-uint8_array_to_hex_string (0 ∷ 16 ∷ 255 ∷ [])
      (omega arith, (omega arith, (omega arith, tt)))

hex_to_uint8_array_lem_example :
    (length (strip_prefix (codes "0xA1")) % 2 ≡ 1
      → hex_to_uint8_array (codes "0xA1") ≡ odd_length (codes "0xA1"))
    × (length (strip_prefix (codes "0xA1")) % 2 ≡ 0
        → all is_hex_digit (strip_prefix (codes "0xA1")) ≡ false
        → hex_to_uint8_array (codes "0xA1") ≡ invalid_hex (codes "0xA1"))
    × (length (strip_prefix (codes "0xA1")) % 2 ≡ 0
        → all is_hex_digit (strip_prefix (codes "0xA1")) ≡ true
        → (es : List ℕ) × (hex_to_uint8_array (codes "0xA1") ≡ bytes es)
          × All IsByte es
          × (uint8_array_to_hex_string es
              ≡ codes "0x" ++ to_lower_case (strip_prefix (codes "0xA1"))))
hex_to_uint8_array_lem_example = hex_to_uint8_array_lem (codes "0xA1")

hex_to_number-number_to_hex_example : hex_to_number (number_to_hex (negsuc 254)) ≡ some (negsuc 254)
hex_to_number-number_to_hex_example = hex_to_number-number_to_hex (negsuc 254)
