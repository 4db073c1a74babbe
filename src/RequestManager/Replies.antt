-- ===== src/RequestManager/Replies.antt =====
-- What the answer of a provider can turn into, in packages/web3-core/src/web3_request_manager.ts.
use web3_js.Common.{Bool, true, false, ◌≡◌, ◌≢◌, arith}
use web3_js.JsonRpc.{Message, single, batch, is_response_with_result, is_response_with_error}
use web3_js.Socket.State.{SocketPayload}
use web3_js.RequestManager.{
  Reply, nothing, answer, error_instance, mismatched_id, refused, process, process_rest,
  error_failure, reply_is_batch, reply_has_error, reply_has_result, build_response,
  is_json_rpc_response,
}
use web3_js.RequestManager.Send.{
  Given, resolved, rejected, send_web3, web3, send, Result, result_of, whole, value, send_request,
}

-- The comparison of the two ids is never reached: no answer is refused because of its id.
pub process-mismatched_id :
    (spec : Bool) (payload : SocketPayload) (r : Reply) (legacy error : Bool) (m : Message)
    → process spec payload r legacy error ≢ refused (mismatched_id m)
unfolding process error_failure process_rest reply_has_error reply_has_result
process-mismatched_id spec payload nothing legacy error m = ground arith
process-mismatched_id spec payload (error_instance t) legacy error m = ground arith
process-mismatched_id spec payload (answer (single r)) legacy error m = ground arith
process-mismatched_id spec payload (answer (batch rs)) legacy error m = ground arith

-- A JSON-RPC response with an error is an error for every provider, payload and flag.
pub process_refuses_error :
    (spec : Bool) (payload : SocketPayload) (r : Message) (legacy error : Bool)
    → is_response_with_error r ≡ true
    → process spec payload (answer (single r)) legacy error ≡ refused (error_failure spec r)
unfolding process
process_refuses_error spec payload r legacy error p = ground arith

abbrev ResultSource : Given → Result → Type 0
ResultSource (resolved nothing) v = v ≡ whole nothing
ResultSource (rejected nothing) v = v ≡ whole nothing
ResultSource (resolved (answer (single r))) v =
    (is_response_with_result r ≡ true)
    × (is_response_with_error r ≡ false)
    × (v ≡ result_of r.result)
ResultSource (rejected (answer (single r))) v =
    (is_response_with_result r ≡ true)
    × (is_response_with_error r ≡ false)
    × (v ≡ result_of r.result)
ResultSource _ v = ⊥

-- What `send` returns for a request of a web3 provider is the `result` of a response that has a
-- result and no error, or null when the provider gave null.
pub send_web3_source :
    (spec : Bool) (payload : SocketPayload) (g : Given) (v : Result)
    → send spec payload (web3 g) ≡ value v
    → ResultSource g v
unfolding send send_request send_web3 process error_failure process_rest reply_has_error
    reply_has_result reply_is_batch build_response is_json_rpc_response
send_web3_source spec payload (resolved nothing) v p = ground arith
send_web3_source spec payload (rejected nothing) v p = ground arith
send_web3_source spec payload (resolved (answer (single r))) v p = ground arith
send_web3_source spec payload (rejected (answer (single r))) v p = ground arith
send_web3_source spec payload (resolved (answer (batch rs))) v p = ground arith
send_web3_source spec payload (rejected (answer (batch rs))) v p = ground arith
send_web3_source spec payload (resolved (error_instance m)) v p = ground arith
send_web3_source spec payload (rejected (error_instance m)) v p = ground arith
