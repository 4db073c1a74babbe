-- ===== src/Units/Converted.antt =====
-- packages/web3-utils/src/converters.ts: `toPlanck` undoes `fromPlanck`.
use web3_js.Common.{ℕ, zero, suc, ◌*◌, ◌^◌, ◌≡◌, ap, ◌∙◌, arith, true, [], Text, String}
use mathlib.Core.List.{append-nil}
use web3_js.Fault.{ok}
use web3_js.Hex.{pos}
use web3_js.Units.{
  to_string_10, parse_10, number_of_zeros, from_planck_text, from_planck, decimal, split_at_dot,
  scaled, to_planck, is_decimal, denomination_of,
}
use web3_js.Units.Decimal.{parse_10-to_string_10, all-to_string_10, number_of_zeros-power}
use web3_js.Units.Dotted.{split_digits, read_parts, decimal_of_digits, to_string_10-nonempty}
use web3_js.Units.Parts.{
  integer_part, fraction_part, last_part, all-parts, scaled_back, all-strip_zeros,
}

scaled_whole : (n : ℕ) → scaled (10 ^ 0) (to_string_10 n) [] ≡ to_string_10 n
unfolding scaled number_of_zeros to_string_10
scaled_whole n =
    ap (λ s. to_string_10 (parse_10 s 0 * 10 ^ 0)) (append-nil (to_string_10 n))
    ∙ ap to_string_10 (ap (λ m. m * 10 ^ 0) (parse_10-to_string_10 n) ∙ times_one n)
  where
    times_one : (m : ℕ) → m * 10 ^ 0 ≡ m
    times_one m = omega arith

-- For every number of zeros, what is written is a decimal text that reads as the number.
written_back :
    (n z : ℕ)
    → let t = from_planck_text (to_string_10 n) z in
      (is_decimal t ≡ true)
      × (scaled (10 ^ z) (split_at_dot t).0 (split_at_dot t).1 ≡ to_string_10 n)
unfolding from_planck_text
written_back n zero =
    let digits = all-to_string_10 n in
    (
      decimal_of_digits (to_string_10 n) digits (to_string_10-nonempty n),
      ap (λ p. scaled (10 ^ 0) p.0 p.1) (split_digits (to_string_10 n) digits) ∙ scaled_whole n,
    )
written_back n (suc k) =
    let (digits, others) = all-parts n k in
    let (e, e') =
      read_parts (10 ^ suc k) (integer_part n k) (fraction_part n k) digits
        (all-strip_zeros (last_part n k) others) in
    (e, e' ∙ scaled_back n k)

-- For every amount of planck that is not negative and every unit of the map that is a power of ten,
-- the text that `fromPlanck` writes is accepted by `toPlanck`, which gives the amount back.
pub to_planck-from_planck :
    (n : ℕ) (unit : String) (z : ℕ)
    → denomination_of unit ≡ ok (10 ^ z)
    → (t : Text) × (from_planck (pos n) unit ≡ ok t)
      × (to_planck (decimal t) unit ≡ ok (to_string_10 n))
unfolding from_planck to_planck
to_planck-from_planck n unit z e =
    let t = from_planck_text (to_string_10 n) z in
    let (ok_text, back) = written_back n z in
    (
      t,
      rw e (ap (λ k. ok (from_planck_text (to_string_10 n) k)) (number_of_zeros-power z)),
      rw ok_text (rw e (ap (λ s. ok s) back)),
    )
