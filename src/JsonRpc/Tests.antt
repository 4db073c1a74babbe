-- ===== src/JsonRpc/Tests.antt =====
-- Concrete messages of packages/web3-utils/src/json_rpc.ts.
use web3_js.Common.{true, some, none, ◌≡◌, refl}
use web3_js.JsonRpc.{
  Message, nullish, absent, num, missing, Call, to_payload, is_response_with_result,
  is_response_with_error,
}

abbrev both_null : Message
both_null = record {
  version_2 = true;
  id = num 3;
  result = nullish;
  error = nullish;
  method = absent;
  params = absent;
}

abbrev bare : Call
bare = record { version = none; id = missing; method = "qrl_chainId"; params = none }

both_a_result_and_an_error :
    (is_response_with_result both_null ≡ true) × (is_response_with_error both_null ≡ true)
unfolding is_response_with_result is_response_with_error
both_a_result_and_an_error = (refl, refl)

next_id : (to_payload bare (some 4) "0a6f9e1c-5d6b-4c0e-8d4b-3f3f6d3c2a11").0.id ≡ num 5
unfolding to_payload
next_id = refl
