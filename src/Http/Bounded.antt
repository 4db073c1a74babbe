-- ===== src/Http/Bounded.antt =====
-- packages/web3-providers-http/src/index.ts: what reading a response gives, within the bound and
-- over it, from a reader, from an iterator and from an array.
use native.Mathlib.Nat.{add_assoc}
use mathlib.Core.List.{append-nil, append_assoc}
use web3_js.Common.{
  ℕ, ◌+◌, ◌≤◌, ◌<◌, ◌≡◌, refl, ap, sym, ◌∙◌, Option, none, some, List, [], ◌∷◌, ◌++◌, length, arith,
  false, ltb, Bool-cases, inl, inr,
}
use web3_js.Fault.{Fault, ok, response_too_large}
use web3_js.Http.{
  Chunks, finished, broken, aborted, next, nothing, binary, not_binary, Reading, reader_loop,
  iterable_loop, already, meanwhile, cancel_reader, destroy_body, cancelled, gave_up,
}
use web3_js.Http.Merged.{total_length}

-- A body that delivers the chunks and ends.
abbrev pub chunks_of : List (List ℕ) → Chunks
chunks_of [] = finished none
chunks_of (c ∷ cs) = next (binary c) (chunks_of cs)

total_length-append :
    (cs : List (List ℕ)) (c : List ℕ) → total_length (cs ++ (c ∷ [])) ≡ total_length cs + length c
total_length-append [] c = omega arith
total_length-append (d ∷ cs) c = omega (arith, total_length-append cs c)

cancelled≢ok :
    (cancel : Option Fault) (e : Fault) (p : List (List ℕ) × ℕ)
    → ¬ ((cancelled cancel e).result ≡ ok p)
cancelled≢ok none e p q = ground arith
cancelled≢ok (some e') e p q = ground arith

gave_up≢ok : (e : Fault) (p : List (List ℕ) × ℕ) → ¬ ((gave_up e (destroy_body ∷ [])).result ≡ ok p)
gave_up≢ok e p q = ground arith

-- What a loop that ends well has read.
abbrev pub HasRead : ℕ → Reading → Type 0
HasRead max r =
    (chunks : List (List ℕ)) (n : ℕ)
    → r.result ≡ ok (chunks, n)
    → (n ≤ max) × (n ≡ total_length chunks)

within : (max n : ℕ) → n ≤ max → ltb max n ≡ false
within max n h = ground arith

module _ (max : ℕ) where
  pub HasRead-reader :
      (cancel : Option Fault) (s : Chunks) (chunks : List (List ℕ)) (total : ℕ)
      → total ≤ max
      → total ≡ total_length chunks
      → HasRead max (reader_loop max cancel s chunks total)
  unfolding reader_loop
  HasRead-reader cancel (finished none) chunks total h e cs n q = ground (arith)
  HasRead-reader cancel (finished (some stop)) chunks total h e cs n q = ground (arith)
  HasRead-reader cancel (broken x) chunks total h e cs n q = ground arith
  HasRead-reader cancel (aborted stop) chunks total h e cs n q = ground arith
  HasRead-reader cancel (next nothing rest) chunks total h e cs n q =
      HasRead-reader cancel rest chunks total h e cs n q
  HasRead-reader cancel (next (not_binary kind) rest) chunks total h e cs n q = ground arith
  HasRead-reader cancel (next (binary bs) rest) chunks total h e cs n q =
      elim (Bool-cases (ltb max (total + length bs))) [
        | inl x ↦
            elim (cancelled≢ok cancel (response_too_large max (total + length bs)) (cs, n)
              (rw x at q)) [ ]
        | inr x ↦
            HasRead-reader cancel rest (chunks ++ (bs ∷ [])) (total + length bs) (ground arith)
              (omega (arith, total_length-append chunks bs)) cs n (rw x at q)
      ]

  pub reader-whole :
      (cancel : Option Fault) (cs chunks : List (List ℕ)) (total : ℕ)
      → total + total_length cs ≤ max
      → reader_loop max cancel (chunks_of cs) chunks total
        ≡ record { result = ok (chunks ++ cs, total + total_length cs); actions = [] }
  unfolding reader_loop
  reader-whole cancel [] chunks total h =
      ap (λ p. record { result = ok p; actions = [] })
        (λ i. (sym (append-nil chunks) i, add_zero total i))
    where
      add_zero : (n : ℕ) → n ≡ n + 0
      add_zero n = omega arith
  reader-whole cancel (c ∷ cs) chunks total h = rw (within max (total + length c) (omega arith)) (
      reader-whole cancel cs (chunks ++ (c ∷ [])) (total + length c) (omega arith)
      ∙ ap (λ p. record { result = ok p; actions = [] })
          (λ i.
            (append_assoc chunks (c ∷ []) cs i, add_assoc total (length c) (total_length cs) i)))

  pub reader-over :
      (cs chunks : List (List ℕ)) (total : ℕ)
      → total ≤ max
      → max < total + total_length cs
      → (n : ℕ) × (max < n)
        × (reader_loop max none (chunks_of cs) chunks total
            ≡ gave_up (response_too_large max n) (cancel_reader ∷ []))
  unfolding reader_loop
  reader-over [] chunks total h k = ground arith
  reader-over (c ∷ cs) chunks total h k = elim (Bool-cases (ltb max (total + length c))) [
    | inl x ↦ (total + length c, ground arith, rw x refl)
    | inr x ↦
        let (n, lt, e) =
          reader-over cs (chunks ++ (c ∷ [])) (total + length c) (ground arith) (omega arith) in
        (n, lt, rw x e)
  ]

  pub HasRead-iterable :
      (s : Chunks) (chunks : List (List ℕ)) (total : ℕ)
      → total ≤ max
      → total ≡ total_length chunks
      → HasRead max (iterable_loop max s chunks total)
  unfolding iterable_loop
  HasRead-iterable (finished none) chunks total h e cs n q = ground arith
  HasRead-iterable (finished (some stop)) chunks total h e cs n q = ground arith
  HasRead-iterable (broken x) chunks total h e cs n q = ground arith
  HasRead-iterable (aborted stop) chunks total h e cs n q = ground arith
  HasRead-iterable (next nothing rest) chunks total h e cs n q = ground arith
  HasRead-iterable (next (not_binary kind) rest) chunks total h e cs n q = ground arith
  HasRead-iterable (next (binary bs) rest) chunks total h e cs n q =
      elim (Bool-cases (ltb max (total + length bs))) [
        | inl x ↦
            elim (gave_up≢ok (response_too_large max (total + length bs)) (cs, n) (rw x at q)) [ ]
        | inr x ↦
            HasRead-iterable rest (chunks ++ (bs ∷ [])) (total + length bs) (ground arith)
              (omega (arith, total_length-append chunks bs)) cs n (rw x at q)
      ]

  -- A reader may say nothing and go on; an iterator that does ends the reading.
  unfoldable pub HasNoGap : Chunks → Type 0
  HasNoGap (next nothing rest) = ⊥
  HasNoGap (next (binary bs) rest) = HasNoGap rest
  HasNoGap (next (not_binary kind) rest) = HasNoGap rest
  HasNoGap _ = Unit

  pub reader-iterable :
      (s : Chunks) (chunks : List (List ℕ)) (total : ℕ)
      → HasNoGap s
      → (reader_loop max none s chunks total).result ≡ (iterable_loop max s chunks total).result
  unfolding reader_loop iterable_loop HasNoGap
  reader-iterable (finished none) chunks total h = refl
  reader-iterable (finished (some (already e))) chunks total h = refl
  reader-iterable (finished (some (meanwhile e))) chunks total h = refl
  reader-iterable (broken x) chunks total h = refl
  reader-iterable (aborted (already e)) chunks total h = refl
  reader-iterable (aborted (meanwhile e)) chunks total h = refl
  reader-iterable (next nothing rest) chunks total h = elim h [ ]
  reader-iterable (next (not_binary kind) rest) chunks total h = refl
  reader-iterable (next (binary bs) rest) chunks total h =
      elim (Bool-cases (ltb max (total + length bs))) [
        | inl x ↦ rw x refl
        | inr x ↦ rw x (reader-iterable rest (chunks ++ (bs ∷ [])) (total + length bs) h)
      ]
