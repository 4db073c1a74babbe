-- ===== src/Http/Texts.antt =====
-- packages/web3-providers-http/src/index.ts: the text of a response, for every kind of body.
use web3_js.Common.{
  ℕ, ◌+◌, ◌≤◌, ◌<◌, ◌≡◌, refl, ap, sym, ◌∙◌, Option, none, some, List, [], ◌∷◌, Text, length, arith,
  Bool, true, false, ltb, inr, ◌⊎◌, if◌then◌else◌,
}
use mathlib.Core.List.{append-nil}
use web3_js.Fault.{Fault, Result, ok, err, response_too_large}
use web3_js.Http.{
  Chunks, reader_loop, iterable_loop, decode_chunks, finish_reading, read_from_reader,
  read_from_async_iterable, read_body, read_within, read_bounded_text, HttpResponse, Body, no_body,
  array, stream, iterable, other_body, add_listener, remove_listener, cancel_reader, over_declared,
}
use web3_js.Http.Merged.{total_length, join, length-join, decode_chunks-join}
use web3_js.Http.Bounded.{
  HasRead-reader, HasRead-iterable, HasNoGap, reader-iterable, reader-whole, reader-over, chunks_of,
}

module _ (decode : List ℕ → Text) where
  -- The text is empty or comes of at most `max` bytes.
  abbrev pub IsBoundedText : ℕ → Result Text → Type 0
  IsBoundedText max o =
      (t : Text) → o ≡ ok t → (t ≡ []) ⊎ ((bs : List ℕ) × (length bs ≤ max) × (t ≡ decode bs))

  ok-injective : (s t : Text) → Path (Result Text) (ok s) (ok t) → s ≡ t
  ok-injective s t e = ground arith

  read_chunks :
      (max : ℕ) (o : Result (List (List ℕ) × ℕ))
      → ((cs : List (List ℕ)) (n : ℕ) → o ≡ ok (cs, n) → (n ≤ max) × (n ≡ total_length cs))
      → IsBoundedText max (elim o [ err e ↦ err e | ok p ↦ decode_chunks decode p.0 p.1 ])
  read_chunks max (err x) h t e = ground arith
  read_chunks max (ok (cs, n)) h t e =
      let (le, sum) = h cs n refl in
      inr (
        join cs,
        omega (arith, length-join cs),
        sym (ok-injective (decode (join cs)) t (sym (decode_chunks-join decode cs n sum) ∙ e)),
      )

  whole_array : (bs : List ℕ) → decode_chunks decode (bs ∷ []) (length bs) ≡ ok (decode bs)
  whole_array bs =
      decode_chunks-join decode (bs ∷ []) (length bs) (omega arith)
      ∙ ap (λ cs. ok (decode cs)) (append-nil bs)

  read_array :
      (max : ℕ) (bs t : List ℕ) (over : Bool)
      → (over ≡ ltb max (length bs))
      → (if over
          then err (response_too_large max (length bs))
          else decode_chunks decode (bs ∷ []) (length bs))
        ≡ ok t
      → (t ≡ []) ⊎ ((cs : List ℕ) × (length cs ≤ max) × (t ≡ decode cs))
  read_array max bs t true x e = ground arith
  read_array max bs t false x e =
      inr (bs, ground arith, sym (ok-injective (decode bs) t (sym (whole_array bs) ∙ e)))

  IsBoundedText-read_body :
      (max : ℕ) (cancel : Option Fault) (r : HttpResponse) (b : Body)
      → IsBoundedText max (read_body decode max cancel r b).0
  unfolding read_from_reader read_from_async_iterable
  IsBoundedText-read_body max cancel r no_body t e = ground arith
  IsBoundedText-read_body max cancel r (array bs) t e =
      read_array max bs t (ltb max (length bs)) refl e
  IsBoundedText-read_body max cancel r (stream s) t e =
      read_chunks max (reader_loop max cancel s [] 0).result
        (HasRead-reader max cancel s [] 0 (omega arith) refl) t e
  IsBoundedText-read_body max cancel r (iterable s) t e =
      read_chunks max (iterable_loop max s [] 0).result
        (HasRead-iterable max s [] 0 (omega arith) refl) t e
  IsBoundedText-read_body max cancel r (other_body kind) t e = ground arith

  read_within-text :
      (max : ℕ) (cancel : Option Fault) (r : HttpResponse) (o : Option Fault)
      → IsBoundedText max (read_within decode max cancel r o).0
  read_within-text max cancel r none t e = IsBoundedText-read_body max cancel r r.body t e
  read_within-text max cancel r (some x) t e = ground arith

  -- The text that reading a response gives is empty or is decoded from at most `maxResponseBytes`
  -- bytes, whatever the headers say, whatever the body is and however it comes.
  pub IsBoundedText-read_bounded_text :
      (max : ℕ) (cancel : Option Fault) (r : HttpResponse)
      → IsBoundedText max (read_bounded_text decode max cancel r).0
  unfolding read_bounded_text
  IsBoundedText-read_bounded_text max cancel r =
      read_within-text max cancel r (over_declared max r.declared)

  -- A body that has no undefined item gives the same text or the same error through a reader as
  -- through an async iterator, when cancelling the reader does not fail.
  pub read_from_reader-iterable :
      (max : ℕ) (s : Chunks)
      → HasNoGap max s
      → (read_from_reader decode max none s).0 ≡ (read_from_async_iterable decode max s).0
  unfolding read_from_reader read_from_async_iterable
  read_from_reader-iterable max s h =
      ap (λ o. elim o [ err e ↦ err e | ok p ↦ decode_chunks decode p.0 p.1 ])
        (reader-iterable max s [] 0 h)

  -- A reader whose chunks are within the bound together gives the text of the joined chunks; over
  -- the bound it is cancelled, if that does not fail, with an error that tells a size above the
  -- bound. In both cases the listener on the signal is removed.
  pub read_from_reader-chunks_of :
      (max : ℕ) (cs : List (List ℕ))
      → (total_length cs ≤ max
          → read_from_reader decode max none (chunks_of cs)
            ≡ (ok (decode (join cs)), add_listener ∷ remove_listener ∷ []))
        × (max < total_length cs
            → (n : ℕ) × (max < n)
              × (read_from_reader decode max none (chunks_of cs) ≡ (
                err (response_too_large max n),
                add_listener ∷ cancel_reader ∷ remove_listener ∷ [],
              )))
  unfolding read_from_reader
  read_from_reader-chunks_of max cs = (
    λ h.
        ap (finish_reading decode) (reader-whole max none cs [] 0 (omega arith))
        ∙ ap (λ o. (o, add_listener ∷ remove_listener ∷ []))
            (decode_chunks-join decode cs (0 + total_length cs) (omega arith)),
    λ h.
        let (n, lt, e) = reader-over max cs [] 0 (omega arith) (omega arith) in
        (n, lt, ap (finish_reading decode) e),
  )
