-- ===== src/Hex/Numbers.antt =====
-- `hexToNumber`, `numberToHex` and `padLeft` of packages/web3-validator/src/utils.ts.
use web3_js.Common.{
  ℕ, zero, suc, ◌+◌, ◌-◌, ◌/◌, ◌%◌, ◌≤◌, ◌<◌, sym, subst, ◌≡◌, refl, ap, ◌∙◌, arith, true, some, [],
  ◌∷◌, ◌++◌, Text, all, length, length-append, max, Bool-cases, inl, inr, ltb,
}
use web3_js.Hex.{
  ℤ, pos, negsuc, is_hex_digit, digits_16, to_string_16, parse_16, is_hex_strict, hex_to_number,
  number_to_hex, pad_start, pad_left, filler, hex_digit, negated, hex_value,
}
use web3_js.Hex.Digits.{parse_16-to_string_16, to_string_16-hex}

digits_16-cons : (n : ℕ) → (c : ℕ) × (t : Text) × (to_string_16 n ≡ c ∷ t)
unfolding to_string_16 digits_16
digits_16-cons n = elim (Bool-cases (ltb n 16)) [
  | inl small ↦ simp small (hex_digit n, [], refl)
  | inr large ↦ simp large (cons_of_append (digits_16 n (n / 16)) (hex_digit (n % 16)))
]
  where
    cons_of_append : (s : Text) (d : ℕ) → (c : ℕ) × (t : Text) × (s ++ (d ∷ []) ≡ c ∷ t)
    cons_of_append [] d = (d, [], refl)
    cons_of_append (c ∷ s) d = (c, s ++ (d ∷ []), refl)

read_signless :
    (c : ℕ) (t : Text)
    → all is_hex_digit (c ∷ t) ≡ true
    → hex_to_number (48 ∷ 120 ∷ c ∷ t) ≡ some (pos (parse_16 (c ∷ t) 0))
unfolding hex_to_number is_hex_strict
read_signless c t h = simp h refl

read_negative :
    (c : ℕ) (t : Text)
    → all is_hex_digit (c ∷ t) ≡ true
    → hex_to_number (45 ∷ 48 ∷ 120 ∷ c ∷ t) ≡ some (negated true (parse_16 (c ∷ t) 0))
unfolding hex_to_number is_hex_strict
read_negative c t h = simp h refl

read_back :
    (n : ℕ)
    → (hex_to_number (48 ∷ 120 ∷ to_string_16 n) ≡ some (pos n))
      × (hex_to_number (45 ∷ 48 ∷ 120 ∷ to_string_16 n) ≡ some (negated true n))
read_back n =
    let (c, t, shape) = digits_16-cons n in
    let all_hex : all is_hex_digit (c ∷ t) ≡ true =
      subst (λ s. all is_hex_digit s ≡ true) shape (to_string_16-hex n) in
    let same : parse_16 (c ∷ t) 0 ≡ n =
      subst (λ s. parse_16 s 0 ≡ n) shape (parse_16-to_string_16 n) in
    (
      ap (λ s. hex_to_number (48 ∷ 120 ∷ s)) shape
          ∙ read_signless c t all_hex
          ∙ ap (λ m. some (pos m)) same,
      ap (λ s. hex_to_number (45 ∷ 48 ∷ 120 ∷ s)) shape
          ∙ read_negative c t all_hex
          ∙ ap (λ m. some (negated true m)) same,
    )

-- Reading the hex string of a whole number, of either sign and any size, gives the number.
pub hex_to_number-number_to_hex : (i : ℤ) → hex_to_number (number_to_hex i) ≡ some i
unfolding number_to_hex
hex_to_number-number_to_hex (pos n) = (read_back n).0
hex_to_number-number_to_hex (negsuc n) = (read_back (suc n)).1

filler-length :
    (c : ℕ) (sign : Text) (d : ℕ) (s : Text) (n : ℕ) → length (filler (c ∷ sign) (d ∷ s) n) ≡ n
unfolding filler
filler-length c sign d s zero = refl
filler-length c sign d [] (suc n) = ap suc (filler-length c sign c sign n)
filler-length c sign d (e ∷ s) (suc n) = ap suc (filler-length c sign e s n)

pub pad_start-length :
    (value : Text) (n c : ℕ) (sign : Text)
    → length (pad_start value n (c ∷ sign)) ≡ max n (length value)
unfolding pad_start
pad_start-length value n c sign = omega (
  arith,
  length-append (filler (c ∷ sign) (c ∷ sign) (n - length value)) value,
  filler-length c sign c sign (n - length value),
)

filler-digits :
    (c : ℕ) (s : Text) (n : ℕ)
    → is_hex_digit c ≡ true
    → all is_hex_digit (filler (c ∷ []) (c ∷ []) n ++ s) ≡ all is_hex_digit s
unfolding filler
filler-digits c s zero h = refl
filler-digits c s (suc n) h = ground (arith, filler-digits c s n h)

filler-value :
    (n : ℕ) (s : Text) (m : ℕ) → parse_16 (filler (48 ∷ []) (48 ∷ []) n ++ s) 0 ≡ parse_16 s 0
unfolding filler parse_16 hex_value
filler-value zero s m = refl
filler-value (suc n) s m = filler-value n s m

-- A digit string that is padded with zeros still is one, with the same value.
record Padded (s : Text) (n : ℕ) : Type 0 where
  longer : max n (length s) ≡ length (pad_start s n (48 ∷ []))
  is_hex : all is_hex_digit (pad_start s n (48 ∷ [])) ≡ true
  value : parse_16 (pad_start s n (48 ∷ [])) 0 ≡ parse_16 s 0

padded : (s : Text) (n : ℕ) → all is_hex_digit s ≡ true → Padded s n
unfolding pad_start
padded s n h = record {
  longer = sym (pad_start-length s n 48 []);
  is_hex = filler-digits 48 s (n - length s) refl ∙ h;
  value = filler-value (n - length s) s 0;
}

read_text :
    (s : Text)
    → 0 < length s
    → all is_hex_digit s ≡ true
    → (hex_to_number (48 ∷ 120 ∷ s) ≡ some (pos (parse_16 s 0)))
      × (hex_to_number (45 ∷ 48 ∷ 120 ∷ s) ≡ some (negated true (parse_16 s 0)))
read_text [] p h = absurd (omega arith)
read_text (c ∷ t) p h = (read_signless c t h, read_negative c t h)

pad_strict :
    (s : Text) (n : ℕ)
    → 0 < length s
    → all is_hex_digit s ≡ true
    → (pad_left (48 ∷ 120 ∷ s) n (48 ∷ []) ≡ 48 ∷ 120 ∷ pad_start s n (48 ∷ []))
      × (pad_left (45 ∷ 48 ∷ 120 ∷ s) n (48 ∷ []) ≡ 45 ∷ 48 ∷ 120 ∷ pad_start s n (48 ∷ []))
unfolding pad_left is_hex_strict
pad_strict [] n p h = absurd (omega arith)
pad_strict (c ∷ t) n p h = (simp h refl, simp h refl)

to_string_16-nonempty : (m : ℕ) → 0 < length (to_string_16 m)
to_string_16-nonempty m =
    let (c, t, shape) = digits_16-cons m in subst (λ s. 0 < length s) (sym shape) (omega arith)

pad_number :
    (m n : ℕ)
    → ((hex_to_number (pad_left (48 ∷ 120 ∷ to_string_16 m) n (48 ∷ [])) ≡ some (pos m))
        × (n + 2 ≤ length (pad_left (48 ∷ 120 ∷ to_string_16 m) n (48 ∷ []))))
      × ((hex_to_number (pad_left (45 ∷ 48 ∷ 120 ∷ to_string_16 m) n (48 ∷ []))
            ≡ some (negated true m))
          × (n + 3 ≤ length (pad_left (45 ∷ 48 ∷ 120 ∷ to_string_16 m) n (48 ∷ []))))
pad_number m n =
    let s = to_string_16 m in
    let filled = to_string_16-nonempty m in
    let p = padded s n (to_string_16-hex m) in
    let (signless, negative) = pad_strict s n filled (to_string_16-hex m) in
    let (plain, minus) = read_text (pad_start s n (48 ∷ [])) (omega (arith, p.longer)) p.is_hex in
    let v = p.value ∙ parse_16-to_string_16 m in
    (
      (
        ap (λ t. hex_to_number t) signless ∙ plain ∙ ap (λ k. some (pos k)) v,
        subst (λ t. n + 2 ≤ length t) (sym signless) (omega (arith, p.longer)),
      ),
      (
        ap (λ t. hex_to_number t) negative ∙ minus ∙ ap (λ k. some (negated true k)) v,
        subst (λ t. n + 3 ≤ length t) (sym negative) (omega (arith, p.longer)),
      ),
    )

-- Padding the hex string of a whole number with zeros keeps the number and gives at least as many
-- digits as were asked for.
pub pad_left-number_to_hex :
    (i : ℤ) (n : ℕ)
    → (hex_to_number (pad_left (number_to_hex i) n (48 ∷ [])) ≡ some i)
      × (n + 2 ≤ length (pad_left (number_to_hex i) n (48 ∷ [])))
unfolding number_to_hex
pad_left-number_to_hex (pos m) n = (pad_number m n).0
pad_left-number_to_hex (negsuc m) n =
    let (value, long) = (pad_number (suc m) n).1 in (value, omega (arith, long))
