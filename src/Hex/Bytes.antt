-- ===== src/Hex/Bytes.antt =====
-- `hexToUint8Array` and `uint8ArrayToHexString` of packages/web3-validator/src/utils.ts.
use web3_js.Common.{
  ℕ, zero, suc, ◌+◌, ◌*◌, ◌/◌, ◌%◌, ◌<◌, ◌≡◌, refl, ap, ◌∙◌, arith, Bool, true, false, List, [],
  ◌∷◌, ◌++◌, Text, all, length, ◌&&◌, ltb, Bool-cases, inl, inr, lower, to_lower_case, codes, All,
}
use web3_js.Hex.{
  hex_value, hex_digit, is_hex_digit, digits_16, to_string_16, two_digits, hex_of_bytes,
  uint8_array_to_hex_string, read_bytes, bytes, odd_length, invalid_hex, hex_to_uint8_array,
  strip_prefix,
}
use web3_js.Hex.Digits.{
  hex_value-hex_digit, hex_digit-hex_value, hex_value-lt, is_hex_digit-hex_digit,
}

abbrev pub IsByte : ℕ → Type 0
IsByte e = e < 256

digits_16-digit : (fuel d : ℕ) → 0 < fuel → d < 16 → digits_16 fuel d ≡ hex_digit d ∷ []
unfolding digits_16
digits_16-digit zero d p q = absurd (omega arith)
digits_16-digit (suc fuel) d p q = ground arith

-- A byte is written with two digits.
two_digits_of_byte :
    (e : ℕ) → e < 256 → two_digits (to_string_16 e) ≡ hex_digit (e / 16) ∷ hex_digit (e % 16) ∷ []
unfolding to_string_16 digits_16 hex_digit
two_digits_of_byte e p = elim (Bool-cases (ltb e 16)) [
  | inl small ↦
      let high : 0 ≡ e / 16 = ground arith in
      let low : e ≡ e % 16 = ground arith in
      simp small (
        ap (λ d. hex_digit d ∷ hex_digit e ∷ []) high
        ∙ ap (λ d. hex_digit (e / 16) ∷ hex_digit d ∷ []) low)
  | inr large ↦ simp (large, digits_16-digit e (e / 16) (ground arith) (omega arith)) refl
]

hex_of_bytes_cons :
    (e : ℕ) (es : List ℕ)
    → e < 256
    → hex_of_bytes (e ∷ es) ≡ hex_digit (e / 16) ∷ hex_digit (e % 16) ∷ hex_of_bytes es
unfolding hex_of_bytes
hex_of_bytes_cons e es p = ap (λ t. t ++ hex_of_bytes es) (two_digits_of_byte e p)

length-hex_of_bytes : (es : List ℕ) → All IsByte es → length (hex_of_bytes es) % 2 ≡ 0
unfolding hex_of_bytes
length-hex_of_bytes [] h = refl
length-hex_of_bytes (e ∷ es) (p, h) =
    ap (λ t. length t % 2) (hex_of_bytes_cons e es p) ∙ ground (arith, length-hex_of_bytes es h)

all-hex_of_bytes : (es : List ℕ) → All IsByte es → all is_hex_digit (hex_of_bytes es) ≡ true
unfolding hex_of_bytes
all-hex_of_bytes [] h = refl
all-hex_of_bytes (e ∷ es) (p, h) =
    ap (λ t. all is_hex_digit t) (hex_of_bytes_cons e es p)
    ∙ ground (
      arith,
      all-hex_of_bytes es h,
      is_hex_digit-hex_digit (e / 16),
      is_hex_digit-hex_digit (e % 16),
    )

read_bytes-hex_of_bytes : (es : List ℕ) → All IsByte es → read_bytes (hex_of_bytes es) ≡ es
unfolding hex_of_bytes read_bytes
read_bytes-hex_of_bytes [] h = refl
read_bytes-hex_of_bytes (e ∷ es) (p, h) =
    ap (λ t. read_bytes t) (hex_of_bytes_cons e es p)
    ∙ ground (
      arith,
      read_bytes-hex_of_bytes es h,
      hex_value-hex_digit (e / 16),
      hex_value-hex_digit (e % 16),
    )

-- Reading the hex string of an array of bytes gives the array.
pub hex_to_uint8_array-uint8_array_to_hex_string :
    (es : List ℕ) → All IsByte es → hex_to_uint8_array (uint8_array_to_hex_string es) ≡ bytes es
unfolding hex_to_uint8_array uint8_array_to_hex_string
hex_to_uint8_array-uint8_array_to_hex_string es h =
    simp (length-hex_of_bytes es h, all-hex_of_bytes es h)
      (ap (λ ds. bytes ds) (read_bytes-hex_of_bytes es h))

pub read_bytes-bytes : (s : Text) → All IsByte (read_bytes s)
unfolding read_bytes
read_bytes-bytes [] = tt
read_bytes-bytes (a ∷ []) = (omega arith, tt)
read_bytes-bytes (a ∷ b ∷ s) = (omega arith, read_bytes-bytes s)

digits_of_pair :
    (a b : ℕ) {s t : Text}
    → is_hex_digit a ≡ true
    → is_hex_digit b ≡ true
    → s ≡ t
    → hex_digit ((hex_value a * 16 + hex_value b) % 256 / 16)
        ∷ hex_digit ((hex_value a * 16 + hex_value b) % 256 % 16)
        ∷ s
      ≡ lower a ∷ lower b ∷ t
digits_of_pair a b {s = s} p q r =
    let high : (hex_value a * 16 + hex_value b) % 256 / 16 ≡ hex_value a =
      omega (arith, hex_value-lt a p, hex_value-lt b q) in
    let low : (hex_value a * 16 + hex_value b) % 256 % 16 ≡ hex_value b =
      omega (arith, hex_value-lt a p, hex_value-lt b q) in
    ap (λ d. hex_digit d ∷ hex_digit ((hex_value a * 16 + hex_value b) % 256 % 16) ∷ s) high
    ∙ ap (λ d. hex_digit (hex_value a) ∷ hex_digit d ∷ s) low
    ∙ ap (λ c. c ∷ hex_digit (hex_value b) ∷ s) (hex_digit-hex_value a p)
    ∙ ap (λ c. lower a ∷ c ∷ s) (hex_digit-hex_value b q)
    ∙ ap (λ u. lower a ∷ lower b ∷ u) r

and_true : {a b : Bool} → (a && b) ≡ true → (a ≡ true) × (b ≡ true)
and_true {a = true} p = (refl, p)
and_true {a = false} p = absurd (ground arith)

pub hex_of_bytes-read_bytes :
    (s : Text)
    → length s % 2 ≡ 0
    → all is_hex_digit s ≡ true
    → hex_of_bytes (read_bytes s) ≡ to_lower_case s
unfolding read_bytes hex_of_bytes
hex_of_bytes-read_bytes [] p q = refl
hex_of_bytes-read_bytes (a ∷ []) p q = absurd (ground arith)
hex_of_bytes-read_bytes (a ∷ b ∷ s) p q =
    hex_of_bytes_cons ((hex_value a * 16 + hex_value b) % 256) (read_bytes s) (omega arith)
    ∙ digits_of_pair a b (and_true q).0 (and_true (and_true q).1).0
        (hex_of_bytes-read_bytes s (omega arith) (and_true (and_true q).1).1)

-- A hex string is refused for an odd length or for a character that is no hex digit, and for
-- nothing else; one that is read gives bytes, whose hex string is the lower case of what was read.
pub hex_to_uint8_array_lem :
    (hex : Text)
    → (length (strip_prefix hex) % 2 ≡ 1 → hex_to_uint8_array hex ≡ odd_length hex)
      × (length (strip_prefix hex) % 2 ≡ 0
          → all is_hex_digit (strip_prefix hex) ≡ false
          → hex_to_uint8_array hex ≡ invalid_hex hex)
      × (length (strip_prefix hex) % 2 ≡ 0
          → all is_hex_digit (strip_prefix hex) ≡ true
          → (es : List ℕ) × (hex_to_uint8_array hex ≡ bytes es)
            × All IsByte es
            × (uint8_array_to_hex_string es ≡ codes "0x" ++ to_lower_case (strip_prefix hex)))
unfolding hex_to_uint8_array uint8_array_to_hex_string
hex_to_uint8_array_lem hex = (
  λ odd. simp odd refl,
  λ even bad. simp (even, bad) refl,
  λ even good. (
    read_bytes (strip_prefix hex),
    simp (even, good) refl,
    read_bytes-bytes (strip_prefix hex),
    ap (λ t. codes "0x" ++ t) (hex_of_bytes-read_bytes (strip_prefix hex) even good),
  ),
)
