-- ===== src/Units/Tests.antt =====
-- Amounts in planck and in larger units (packages/web3-utils/src/converters.ts).
use web3_js.Common.{◌-◌, ◌*◌, ◌^◌, min, ◌<◌, ◌≡◌, refl, [], ◌∷◌, ◌++◌, Text, codes, length}
use web3_js.JsMap.{get}
use web3_js.Fault.{ok, err, invalid_unit}
use web3_js.Hex.{pos, negsuc, pad_start, filler}
use web3_js.Units.{
  digits_10, to_string_10, parse_10, number_of_zeros, strip_zeros, from_planck_text, from_planck,
  decimal, whole, scaled, to_planck, denomination_of,
}
use web3_js.Units.Scaled.{scaled_lem}
use web3_js.Units.Converted.{to_planck-from_planck}

conversions : Unit {0}
unfolding denomination_of from_planck to_planck from_planck_text scaled digits_10 to_string_10
    parse_10 number_of_zeros strip_zeros pad_start filler get
conversions = tt

three_halves : from_planck (pos 1_500_000_000) "shor" ≡ ok (codes "1.5")
unfolding conversions
three_halves = refl

nothing_in_quanta : from_planck (pos 0) "quanta" ≡ ok (codes "0.")
unfolding conversions
nothing_in_quanta = refl

less_than_nothing : from_planck (negsuc 0) "shor" ≡ ok (codes "0.0000000-1")
unfolding conversions
less_than_nothing = refl

zero_with_a_fraction : to_planck (decimal (codes "0.0")) "quanta" ≡ ok []
unfolding conversions
zero_with_a_fraction = refl

too_many_digits : to_planck (decimal (codes "1.1234567891")) "shor" ≡ ok (codes "11234567891")
unfolding conversions
too_many_digits = refl

no_unit : to_planck (whole (pos 1)) "noquanta" ≡ err (invalid_unit "noquanta")
unfolding conversions
no_unit = refl

quanta : denomination_of "quanta" ≡ ok (10 ^ 18)
unfolding conversions
quanta = refl

to_planck-from_planck_example :
    (t : Text) × (from_planck (pos 123_000) "quanta" ≡ ok t)
    × (to_planck (decimal t) "quanta" ≡ ok (to_string_10 123_000))
to_planck-from_planck_example = to_planck-from_planck 123_000 "quanta" 18 quanta

scaled_lem_example :
    (0 < parse_10 (codes "1" ++ codes "5") 0
      → scaled (10 ^ 9) (codes "1") (codes "5")
        ≡ to_string_10
            (parse_10 (codes "1" ++ codes "5") 0 * 10 ^ (9 - min (length (codes "5")) 9)))
    × (parse_10 (codes "1" ++ codes "5") 0 ≡ 0
        → min (length (codes "5")) 9 ≡ 0
        → scaled (10 ^ 9) (codes "1") (codes "5") ≡ 48 ∷ [])
    × (parse_10 (codes "1" ++ codes "5") 0 ≡ 0
        → 0 < min (length (codes "5")) 9
        → scaled (10 ^ 9) (codes "1") (codes "5") ≡ [])
scaled_lem_example = scaled_lem 9 (codes "1") (codes "5")
