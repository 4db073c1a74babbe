-- ===== src/ChunkParser/Carrying.antt =====
-- The chunk that packages/web3-utils/src/chunk_response_parser.ts carries from one text to the next.
use web3_js.Common.{
  ◌≤◌, ◌≡◌, refl, sym, subst, arith, Bool, false, Option, none, some, List, [], ◌∷◌, ◌++◌, Text,
  ltb, length, Bool-cases, inl, inr,
}
use web3_js.JsonRpc.{Response}
use web3_js.ChunkParser.{
  Parsed, syntax_error, falsy, value, Parser, max_chunk_bytes, with_last, clear_queues_of,
  parsed_chunk, parse_joined, parse_chunk, parse_chunks, parse_response, on_chunk_timeout,
  create_parser, dechunk, on_parse_error,
}

abbrev pub IsBounded : Option Text → Type 0
IsBounded none = Unit
IsBounded (some t) = length t ≤ max_chunk_bytes

parsed_chunk-IsBounded :
    (v : Parsed) (s : Text) (p : Parser)
    → length s ≤ max_chunk_bytes
    → IsBounded (parsed_chunk v s p).1.last_chunk
parsed_chunk-IsBounded syntax_error s p h = h
parsed_chunk-IsBounded falsy s p h = tt
parsed_chunk-IsBounded (value r) s p h = tt

clear_queues_of-last_chunk : (p : Parser) → (clear_queues_of p).last_chunk ≡ p.last_chunk
clear_queues_of-last_chunk p = ground arith

-- What a socket does with the parser.
pub data Input : Type 0 where
  arriving : Text → Input
  waiting : Input
  handling : Bool → Input

module _ (json_parse : Text → Parsed) where
  parse_joined-IsBounded :
      (s : Text) (p : Parser) → IsBounded (parse_joined json_parse s p).1.last_chunk
  unfolding parse_joined
  parse_joined-IsBounded s p = elim (Bool-cases (ltb max_chunk_bytes (length s))) [
    | inl large ↦
        simp large
          (subst IsBounded (sym (clear_queues_of-last_chunk (record p { last_chunk = none }))) tt)
    | inr small ↦ simp small (parsed_chunk-IsBounded (json_parse s) s p (ground arith))
  ]

  parse_chunks-IsBounded :
      (chunks : List Text) (p : Parser)
      → IsBounded p.last_chunk
      → IsBounded (parse_chunks json_parse chunks p).1.last_chunk
  unfolding parse_chunks parse_chunk
  parse_chunks-IsBounded [] p h = h
  parse_chunks-IsBounded (s ∷ rest) p h =
      parse_chunks-IsBounded rest (parse_chunk json_parse s p).1
        (parse_joined-IsBounded (with_last p.last_chunk s) p)

  pub take_input : Input → Parser → Parser
  take_input (arriving t) p = (parse_response json_parse t p).1
  take_input waiting p = on_chunk_timeout p
  take_input (handling given) p = on_parse_error given p

  pub take_all : List Input → Parser → Parser
  take_all [] p = p
  take_all (i ∷ is) p = take_all is (take_input i p)

  take_input-IsBounded :
      (i : Input) (p : Parser) → IsBounded p.last_chunk → IsBounded (take_input i p).last_chunk
  unfolding take_input on_chunk_timeout on_parse_error parse_response
  take_input-IsBounded (arriving t) p h = parse_chunks-IsBounded (dechunk t) p h
  take_input-IsBounded waiting p h = subst IsBounded (sym same) h
    where
      same : (on_chunk_timeout p).last_chunk ≡ p.last_chunk
      same = ground arith
  take_input-IsBounded (handling given) p h = h

  -- A new parser, whatever arrives and whenever its timer fires, never carries more than the bound
  -- from one text to the next.
  pub take_all-IsBounded :
      (auto : Bool) (is : List Input) → IsBounded (take_all is (create_parser auto)).last_chunk
  unfolding take_all create_parser
  take_all-IsBounded auto is = go is (create_parser auto) tt
    where
      go :
          (is : List Input) (p : Parser)
          → IsBounded p.last_chunk
          → IsBounded (take_all is p).last_chunk
      go [] p h = h
      go (i ∷ is) p h = go is (take_input i p) (take_input-IsBounded i p h)

  abbrev pub Values : List Text → List Response → Type 0
  Values [] [] = Unit
  Values (s ∷ ss) (r ∷ rs) = (length s ≤ max_chunk_bytes) × (json_parse s ≡ value r) × Values ss rs
  Values _ _ = ⊥

  -- Chunks within the bound that are whole responses, when no chunk is carried, come out as these
  -- responses, in their order, and leave nothing to carry.
  pub parse_chunks-whole :
      (chunks : List Text) (rs : List Response) (p : Parser)
      → p.last_chunk ≡ none
      → Values chunks rs
      → ((parse_chunks json_parse chunks p).0 ≡ rs)
        × ((parse_chunks json_parse chunks p).1.last_chunk ≡ none)
  unfolding parse_chunks parse_chunk parse_joined
  parse_chunks-whole [] [] p h v = (refl, h)
  parse_chunks-whole (s ∷ ss) (r ∷ rs) p h (small, is_value, v) =
      ground
        (arith, parse_chunks-whole ss rs (record p { last_chunk = none; running = false }) refl v)
  parse_chunks-whole [] (r ∷ rs) p h v = elim v [ ]
  parse_chunks-whole (s ∷ ss) [] p h v = elim v [ ]

  -- A response that arrives in two pieces within the bound, of which the first is no JSON text,
  -- comes out whole with the second piece, and no timer runs any more.
  pub parse_chunk-pieces :
      (a b : Text) (r : Response) (p : Parser)
      → p.last_chunk ≡ none
      → json_parse a ≡ syntax_error
      → json_parse (a ++ b) ≡ value r
      → length (a ++ b) ≤ max_chunk_bytes
      → length a ≤ max_chunk_bytes
      → ((parse_chunk json_parse a p).0 ≡ [])
        × ((parse_chunk json_parse b (parse_chunk json_parse a p).1).0 ≡ r ∷ [])
        × ((parse_chunk json_parse b (parse_chunk json_parse a p).1).1.last_chunk ≡ none)
        × ((parse_chunk json_parse b (parse_chunk json_parse a p).1).1.running ≡ false)
  unfolding parse_chunk parse_joined
  parse_chunk-pieces a b r p h bad good small small' = ground arith

  -- A chunk that timed out stays in front of what comes next: a whole response is not found when
  -- the two together are no JSON text.
  pub stale_chunk_stays :
      (t s : Text) (r : Response) (p : Parser)
      → p.last_chunk ≡ some t
      → json_parse s ≡ value r
      → json_parse (t ++ s) ≡ syntax_error
      → ((parse_chunk json_parse s (on_chunk_timeout p)).0 ≡ [])
  unfolding parse_chunk parse_joined on_chunk_timeout
  stale_chunk_stays t s r p h good bad = ground arith
