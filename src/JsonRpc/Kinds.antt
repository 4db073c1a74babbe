-- ===== src/JsonRpc/Kinds.antt =====
-- The predicates on responses and the ids of payloads, in packages/web3-utils/src/json_rpc.ts.
use web3_js.Common.{
  ℕ, suc, ◌+◌, ◌≡◌, ◌⊎◌, true, some, List, [], ◌∷◌, arith, length, All, String, inl, inr,
}
use web3_js.JsonRpc.{
  Message, nullish, num, null, missing, is_response_with_result, is_response_with_error, Call,
  Payload, to_payload, to_batch_payload,
}

-- A message that counts both as a result and as an error has the two properties, each of them null
-- or undefined.
pub result_or_error :
    (r : Message)
    → is_response_with_result r ≡ true
    → is_response_with_error r ≡ true
    → (r.result ≡ nullish) × (r.error ≡ nullish)
unfolding is_response_with_result is_response_with_error
result_or_error r p q = ground arith

abbrev pub IdsFrom : ℕ → List Payload → Type 0
IdsFrom n [] = Unit
IdsFrom n (p ∷ ps) = (p.id ≡ num (suc n)) × IdsFrom (suc n) ps

abbrev pub HasNoId : Call → Type 0
HasNoId c = (c.id ≡ null) ⊎ (c.id ≡ missing)

-- Once a start is set, the calls of a batch that bring no id of their own get consecutive ids from
-- the start on, in their order, and the seed moves on by the length of the batch.
pub to_batch_payload-ids :
    (cs : List Call) (n : ℕ) (uuids : ℕ → String) (i : ℕ)
    → All HasNoId cs
    → IdsFrom n (to_batch_payload cs (some n) uuids i).0
      × ((to_batch_payload cs (some n) uuids i).1 ≡ some (n + length cs))
unfolding to_batch_payload to_payload
to_batch_payload-ids [] n uuids i h = (tt, ground arith)
to_batch_payload-ids (c ∷ cs) n uuids i (inl p, h) =
    ground (arith, to_batch_payload-ids cs (suc n) uuids (suc i) h)
to_batch_payload-ids (c ∷ cs) n uuids i (inr p, h) =
    ground (arith, to_batch_payload-ids cs (suc n) uuids (suc i) h)
