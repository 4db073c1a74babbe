-- ===== src/RequestManager/Tests.antt =====
-- Concrete answers in packages/web3-core/src/web3_request_manager.ts.
use web3_js.Common.{true, false, ◌≡◌, ◌≢◌, ◌⊎◌, refl, none, [], ◌∷◌}
use web3_js.JsonRpc.{
  Message, single, batch, present, absent, num, negative, Payload, is_response_with_error,
  is_response_with_result, is_batch_response, is_valid_response, validate_response,
}
use web3_js.Socket.State.{one, many}
use web3_js.RequestManager.{
  answer, refused, mismatched_id, process, as_is, error_failure, contract_execution_error,
  reply_has_error, reply_has_result, process_rest, includes, starts_with, reply_is_batch,
}
use web3_js.RequestManager.Send.{resolved, send, result_of, send_request, send_web3}
use web3_js.RequestManager.Replies.{process-mismatched_id, process_refuses_error, send_web3_source}
use web3_js.RequestManager.Legacy.{batch_answer}

abbrev call : Payload
call = record { version = "2.0"; id = num 1; method = "qrl_call"; params = none }

abbrev reverted : Message
reverted = record {
  version_2 = true;
  id = num 1;
  result = absent;
  error = present (record { code = negative 32000; message = "execution reverted" });
  method = absent;
  params = absent;
}

abbrev found : Message
found = record {
  version_2 = true;
  id = num 2;
  result = present "0x10";
  error = absent;
  method = absent;
  params = absent;
}

answer_code : Unit {0}
unfolding process error_failure process_rest includes starts_with reply_has_error reply_has_result
    reply_is_batch is_response_with_error is_response_with_result send send_request send_web3
    is_batch_response is_valid_response validate_response
answer_code = tt

revert_is_decoded : error_failure false reverted ≡ contract_execution_error "execution reverted"
unfolding answer_code
revert_is_decoded = refl

process-mismatched_id_example :
    process false (one call) (answer (single found)) false false ≢ refused (mismatched_id found)
process-mismatched_id_example =
    process-mismatched_id false (one call) (answer (single found)) false false found

process_refuses_error_example :
    process true (many (call ∷ [])) (answer (single reverted)) true false
    ≡ refused (error_failure true reverted)
unfolding answer_code
process_refuses_error_example =
    process_refuses_error true (many (call ∷ [])) reverted true false refl

send_web3_source_example :
    (is_response_with_result found ≡ true)
    × (is_response_with_error found ≡ false)
    × (result_of (present "0x10") ≡ result_of found.result)
unfolding answer_code
send_web3_source_example =
    send_web3_source false (one call) (resolved (answer (single found)))
      (result_of (present "0x10")) refl

batch_answer_example :
    (as_is (answer (batch (found ∷ []))) ≡ as_is (answer (batch (found ∷ []))))
    × ((is_batch_response (batch (found ∷ [])) ≡ true)
        ⊎ ((m : Message) × (batch (found ∷ []) ≡ single m) × (is_response_with_result m ≡ true)))
unfolding answer_code
batch_answer_example =
    batch_answer false call [] (batch (found ∷ [])) (as_is (answer (batch (found ∷ [])))) refl
