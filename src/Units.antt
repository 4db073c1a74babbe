-- ===== src/Units.antt =====
-- packages/web3-utils/src/converters.ts: amounts in planck and in other units. A text is a list of
-- code units, as in the other modules.
pub mod Decimal
pub mod Scaled
pub mod Dotted
pub mod Parts
pub mod Converted
mod Tests
use web3_js.Common.{
  ℕ, zero, suc, ◌+◌, ◌-◌, ◌*◌, ◌/◌, ◌%◌, ◌^◌, min, Bool, true, false, ◌&&◌, ◌||◌, Option, none,
  some, List, [], ◌∷◌, ◌++◌, String, Text, codes, between, nat_eq, ltb, leb, if◌then◌else◌, length,
  drop, slice_to, all, any, string_eq_instance,
}
use web3_js.JsMap.{JsMap, get}
use web3_js.Fault.{Result, ok, err, ◌>>=◌, invalid_unit, not_a_number}
use web3_js.Hex.{ℤ, pos, negsuc, pad_start}

unfoldable pub digits_10 : ℕ → ℕ → Text
digits_10 zero n = []
digits_10 (suc fuel) n =
    let rest = digits_10 fuel (n / 10) in
    if ltb n 10 then (48 + n) ∷ [] else rest ++ ((48 + n % 10) ∷ [])

-- `toString` of a number that is not negative; a number is enough fuel for its digits.
unfoldable pub to_string_10 : ℕ → Text
unfolding digits_10
to_string_10 n = digits_10 (suc n) n

-- `BigInt` of a text of digits.
unfoldable pub parse_10 : Text → ℕ → ℕ
parse_10 [] n = n
parse_10 (c ∷ s) n = parse_10 s (n * 10 + (c - 48))

-- `String(toNumber(number))` of an integer.
abbrev pub integer_text : ℤ → Text
integer_text (pos n) = to_string_10 n
integer_text (negsuc n) = 45 ∷ to_string_10 (suc n)

abbrev pub qrl_unit_map : JsMap String ℕ
qrl_unit_map =
    ("noquanta", 0)
    ∷ ("planck", 1)
    ∷ ("kplanck", 10 ^ 3)
    ∷ ("Kplanck", 10 ^ 3)
    ∷ ("mplanck", 10 ^ 6)
    ∷ ("Mplanck", 10 ^ 6)
    ∷ ("shor", 10 ^ 9)
    ∷ ("nano", 10 ^ 9)
    ∷ ("kshor", 10 ^ 12)
    ∷ ("Kshor", 10 ^ 12)
    ∷ ("micro", 10 ^ 12)
    ∷ ("mshor", 10 ^ 15)
    ∷ ("Mshor", 10 ^ 15)
    ∷ ("milli", 10 ^ 15)
    ∷ ("quanta", 10 ^ 18)
    ∷ ("kquanta", 10 ^ 21)
    ∷ ("grand", 10 ^ 21)
    ∷ ("mquanta", 10 ^ 24)
    ∷ ("gquanta", 10 ^ 27)
    ∷ ("tquanta", 10 ^ 30)
    ∷ []

-- `if (!denomination)`: 0 is refused like an unknown unit.
abbrev pub checked_denomination : String → Option ℕ → Result ℕ
checked_denomination unit none = err (invalid_unit unit)
checked_denomination unit (some zero) = err (invalid_unit unit)
checked_denomination unit (some (suc d)) = ok (suc d)

unfoldable pub denomination_of : String → Result ℕ
denomination_of unit = checked_denomination unit (get qrl_unit_map unit)

unfoldable pub number_of_zeros : ℕ → ℕ
number_of_zeros d = length (to_string_10 d) - 1

abbrev pub keep_digit : ℕ → Text → Text
keep_digit c [] = if nat_eq c 48 then [] else c ∷ []
keep_digit c (d ∷ s) = c ∷ d ∷ s

-- The loop over `fractionEnd`: the zeros at the end go.
unfoldable pub strip_zeros : Text → Text
strip_zeros [] = []
strip_zeros (c ∷ s) = keep_digit c (strip_zeros s)

-- `slice(0, -k)` and `slice(-k)`, for `k` above 0.
abbrev pub slice_before : ℕ → Text → Text
slice_before k s = slice_to (length s - k) s

abbrev pub slice_last : ℕ → Text → Text
slice_last k s = drop (length s - k) s

abbrev pub join_parts : Text → Text → Text
join_parts [] fraction = 48 ∷ 46 ∷ fraction
join_parts (c ∷ integer) [] = c ∷ integer
join_parts (c ∷ integer) (d ∷ fraction) = (c ∷ integer) ++ (46 ∷ d ∷ fraction)

unfoldable pub from_planck_text : Text → ℕ → Text
from_planck_text value zero = value
from_planck_text value (suc k) =
    let padded = pad_start value (suc k) (48 ∷ []) in
    join_parts (slice_before (suc k) padded) (strip_zeros (slice_last (suc k) padded))

unfoldable pub from_planck : ℤ → String → Result Text
from_planck n unit = do
  d ← denomination_of unit
  ok (from_planck_text (integer_text n) (number_of_zeros d))

-- The argument of `toPlanck`: a number, a bigint or a hex string by its value; any other text.
pub data Amount : Type 0 where
  whole : ℤ → Amount
  decimal : Text → Amount

abbrev is_decimal_unit : ℕ → Bool
is_decimal_unit c = between 48 57 c || nat_eq c 46

abbrev count_dots : Text → ℕ
count_dots [] = 0
count_dots (c ∷ s) = if nat_eq c 46 then suc (count_dots s) else count_dots s

-- `isNumber` for a text of digits and dots, with one dot at most; the empty text is the integer 0.
abbrev pub is_decimal : Text → Bool
is_decimal s = all is_decimal_unit s && leb (count_dots s) 1

-- `isInt` for 512 bits.
abbrev pub is_int_512 : ℤ → Bool
is_int_512 (pos n) = ltb n (2 ^ 511)
is_int_512 (negsuc n) = ltb n (2 ^ 511)

-- `.split('.').concat('')`, for at most one dot.
abbrev pub split_at_dot : Text → Text × Text
split_at_dot [] = ([], [])
split_at_dot (c ∷ s) =
    let (integer, fraction) = split_at_dot s in
    if nat_eq c 46 then ([], s) else (c ∷ integer, fraction)

abbrev pub cut_decimals : Text → ℕ → Text
cut_decimals updated k =
    if nat_eq k 0 then updated else slice_before k (pad_start updated k (48 ∷ []))

unfoldable pub scaled : ℕ → Text → Text → Text
scaled d integer fraction =
    let updated = to_string_10 (parse_10 (integer ++ fraction) 0 * d) in
    let decimals = min (length fraction) (number_of_zeros d) in cut_decimals updated decimals

abbrev pub scaled_integer : ℕ → ℤ → Text
scaled_integer d (pos n) = scaled d (to_string_10 n) []
scaled_integer d (negsuc n) = 45 ∷ to_string_10 (suc n * d)

unfoldable pub to_planck : Amount → String → Result Text
to_planck (whole n) unit =
    if is_int_512 n
    then (do d ← denomination_of unit; ok (scaled_integer d n))
    else err not_a_number
to_planck (decimal s) unit =
    if is_decimal s
    then (do d ← denomination_of unit; ok (scaled d (split_at_dot s).0 (split_at_dot s).1))
    else err not_a_number
