-- ===== src/Hex.antt =====
-- packages/web3-validator/src/utils.ts and validation/string.ts: hex strings, as lists of code units.
pub mod Digits
pub mod Bytes
pub mod Numbers
mod Tests
use web3_js.Common.{
  ℕ, zero, suc, ◌+◌, ◌*◌, ◌-◌, ◌/◌, ◌%◌, Bool, true, false, not, ◌&&◌, ◌||◌, Option, none, some,
  List, [], ◌∷◌, ◌++◌, Text, codes, between, to_lower_case, text_same_instance, ltb, nat_eq,
  if◌then◌else◌, length, all, drop,
}

pub data ℤ : Type 0 where
  pos negsuc : ℕ → ℤ

unfoldable pub code_point_to_int : ℕ → Option ℕ
code_point_to_int c =
    if between 48 57 c
    then some (c - 48)
    else if between 65 70 c
    then some (c - 55)
    else if between 97 102 c
    then some (c - 87)
    else none

-- `/[0-9a-f]/i`
abbrev pub is_hex_digit : ℕ → Bool
is_hex_digit c = between 48 57 c || between 65 70 c || between 97 102 c

-- What `parseInt(…, 16)` and `BigInt` read for a hex digit.
unfoldable pub hex_value : ℕ → ℕ
hex_value c = if between 48 57 c then c - 48 else if between 65 70 c then c - 55 else c - 87

-- The digit that `toString(16)` writes.
unfoldable pub hex_digit : ℕ → ℕ
hex_digit d = if ltb d 10 then 48 + d else 87 + d

-- `n.toString(16)`: a number has at most as many digits as `fuel`, where it is not above it.
unfoldable pub digits_16 : ℕ → ℕ → Text
unfolding hex_digit
digits_16 zero n = []
digits_16 (suc fuel) n =
    let rest = digits_16 fuel (n / 16) in
    if ltb n 16 then hex_digit n ∷ [] else rest ++ (hex_digit (n % 16) ∷ [])

unfoldable pub to_string_16 : ℕ → Text
unfolding digits_16
to_string_16 n = digits_16 (suc n) n

unfoldable pub parse_16 : Text → ℕ → ℕ
unfolding hex_value
parse_16 [] n = n
parse_16 (c ∷ s) n = parse_16 s (n * 16 + hex_value c)

-- `hex.length === 1 ? `0${hex}` : hex`
abbrev pub two_digits : Text → Text
two_digits t = if nat_eq (length t) 1 then 48 ∷ t else t

unfoldable pub hex_of_bytes : List ℕ → Text
unfolding to_string_16
hex_of_bytes [] = []
hex_of_bytes (e ∷ es) = two_digits (to_string_16 e) ++ hex_of_bytes es

unfoldable pub uint8_array_to_hex_string : List ℕ → Text
unfolding hex_of_bytes
uint8_array_to_hex_string es = codes "0x" ++ hex_of_bytes es

pub data BytesResult : Type 0 where
  bytes : List ℕ → BytesResult
  odd_length invalid_hex : Text → BytesResult

abbrev pub is_x : ℕ → Bool
is_x c = nat_eq c 120 || nat_eq c 88

-- `/^0x/i`
abbrev pub has_prefix : Text → Bool
has_prefix (a ∷ b ∷ s) = nat_eq a 48 && is_x b
has_prefix _ = false

abbrev pub strip_prefix : Text → Text
strip_prefix s = if has_prefix s then drop 2 s else s

-- The loop that fills the `Uint8Array`: an element keeps eight bits.
unfoldable pub read_bytes : Text → List ℕ
unfolding hex_value
read_bytes [] = []
read_bytes (a ∷ []) = hex_value a % 256 ∷ []
read_bytes (a ∷ b ∷ s) = (hex_value a * 16 + hex_value b) % 256 ∷ read_bytes s

abbrev checked_bytes : Text → Text → BytesResult
checked_bytes hex value =
    if not (nat_eq (length value % 2) 0)
    then odd_length hex
    else if not (all is_hex_digit value)
    then invalid_hex hex
    else bytes (read_bytes value)

unfoldable pub hex_to_uint8_array : Text → BytesResult
unfolding read_bytes
hex_to_uint8_array hex = checked_bytes hex (strip_prefix hex)

abbrev is_nonempty : Text → Bool
is_nonempty [] = false
is_nonempty (c ∷ s) = true

abbrev pub has_minus : Text → Bool
has_minus (c ∷ s) = nat_eq c 45
has_minus [] = false

abbrev pub strip_minus : Text → Text
strip_minus s = if has_minus s then drop 1 s else s

-- `/^((-)?0x[0-9a-f]+|(0x))$/i`
unfoldable pub is_hex_strict : Text → Bool
is_hex_strict s =
    has_prefix (strip_minus s)
    && all is_hex_digit (drop 2 (strip_minus s))
    && (is_nonempty (drop 2 (strip_minus s)) || not (has_minus s))

abbrev pub negated : Bool → ℕ → ℤ
negated true (suc n) = negsuc n
negated _ n = pos n

-- `BigInt("0x")` throws.
unfoldable pub hex_to_number : Text → Option ℤ
hex_to_number s =
    if is_hex_strict s && is_nonempty (drop 2 (strip_minus s))
    then some (negated (has_minus s) (parse_16 (drop 2 (strip_minus s)) 0))
    else none

-- For numbers and bigints.
unfoldable pub number_to_hex : ℤ → Text
number_to_hex (pos n) = codes "0x" ++ to_string_16 n
number_to_hex (negsuc n) = codes "-0x" ++ to_string_16 (suc n)

abbrev pub refill : Text → Text → Text
refill sign [] = sign
refill sign (c ∷ s) = c ∷ s

-- The filler, repeated and cut to `n` code units.
unfoldable pub filler : Text → Text → ℕ → Text
filler sign s zero = []
filler sign [] (suc n) = []
filler sign (c ∷ s) (suc n) = c ∷ filler sign (refill sign s) n

-- `value.padStart(n, sign)`
unfoldable pub pad_start : Text → ℕ → Text → Text
pad_start value n sign = filler sign sign (n - length value) ++ value

-- `padLeft` for a string.
unfoldable pub pad_left : Text → ℕ → Text → Text
pad_left value n sign =
    if not (is_hex_strict value)
    then pad_start value n sign
    else if has_minus value
    then codes "-0x" ++ pad_start (drop 3 value) n sign
    else codes "0x" ++ pad_start (drop 2 value) n sign
