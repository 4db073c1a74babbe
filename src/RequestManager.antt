-- ===== src/RequestManager.antt =====
-- packages/web3-core/src/web3_request_manager.ts: how the answer of a provider becomes the result of
-- a request, or an error.
-- A reply is what a provider resolves or rejects with. An `Error` instance is known by its message.
-- The class and the text of an error that is thrown stand for the error.
pub mod Send
pub mod Replies
pub mod Legacy
mod Tests
use web3_js.Common.{
  Bool, true, false, not, ◌&&◌, ◌||◌, Option, none, some, List, [], ◌∷◌, String, ◌==◌,
  string_eq_instance, ltb, if◌then◌else◌,
}
use web3_js.JsonRpc.{
  JsonRpcId, null, num, str, Field, present, ErrorCode, RpcErrorObject, Message, Response, single,
  batch, rpc_errors_has, is_response_rpc_error, is_response_with_result, is_response_with_error,
  is_batch_response, is_id, id_eq_instance,
}
use web3_js.Socket.State.{SocketPayload, one, many}

pub data Reply : Type 0 where
  nothing : Reply
  answer : Response → Reply
  error_instance : String → Reply

pub data Failure : Type 0 where
  mapped_rpc_error rpc_error invalid_response mismatched_id : Message → Failure
  contract_execution_error : String → Failure
  thrown : Reply → Failure
  response_failure : Reply → String → Failure
  no_json_rpc : Reply → Failure
  provider_failure : String → Failure
  type_failure : Failure

-- A response as it came, or `{ jsonrpc, id, result }` or `{ jsonrpc, id, error }` around it.
pub data Answer : Type 0 where
  as_is : Reply → Answer
  built_result built_error : JsonRpcId → Reply → Answer

pub data Verdict : Type 0 where
  returned : Answer → Verdict
  refused : Failure → Verdict

unfoldable pub starts_with : String → String → Bool
starts_with s String.[] = true
starts_with String.[] (String.◌∷◌ d t) = false
starts_with (String.◌∷◌ c s) (String.◌∷◌ d t) =
    let rest = starts_with s t in String.◌∷◌ c String.[] == String.◌∷◌ d String.[] && rest

unfoldable pub includes : String → String → Bool
unfolding starts_with
includes String.[] t = starts_with String.[] t
includes (String.◌∷◌ c s) t = let rest = includes s t in starts_with (String.◌∷◌ c s) t || rest

-- Does `_isReverted` throw for this message?
abbrev pub is_revert : String → Bool
is_revert m = includes m "revert"

abbrev pub is_batch_payload : SocketPayload → Bool
is_batch_payload (many (p ∷ ps)) = true
is_batch_payload _ = false

-- An empty array has no `id` of its own.
abbrev payload_id : SocketPayload → JsonRpcId
payload_id (one p) = p.id
payload_id (many []) = null
payload_id (many (p ∷ ps)) = p.id

abbrev is_array : Reply → Bool
is_array (answer (batch rs)) = true
is_array _ = false

unfoldable pub reply_has_error : Reply → Bool
reply_has_error (answer (single r)) = is_response_with_error r
reply_has_error _ = false

unfoldable pub reply_has_result : Reply → Bool
reply_has_result (answer (single r)) = is_response_with_result r
reply_has_result _ = false

unfoldable pub reply_is_batch : Reply → Bool
reply_is_batch (answer r) = is_batch_response r
reply_is_batch _ = false

unfoldable pub is_json_rpc_response : Reply → Bool
unfolding reply_has_error reply_has_result reply_is_batch
is_json_rpc_response nothing = true
is_json_rpc_response r = reply_is_batch r || reply_has_error r || reply_has_result r

unfoldable pub build_non_json_rpc_error : Reply → Failure
unfolding includes
build_non_json_rpc_error (error_instance m) =
    if is_revert m then contract_execution_error m else thrown (error_instance m)
build_non_json_rpc_error r = no_json_rpc r

unfoldable pub build_response : SocketPayload → Reply → Bool → Answer
build_response payload r error =
    if error then built_error (payload_id payload) r else built_result (payload_id payload) r

-- A null `error` has no code to read; the message that `InvalidResponseError` builds from it throws.
abbrev rpc_failure : Message → Field RpcErrorObject → Failure
rpc_failure r (present e) = if rpc_errors_has e.code then mapped_rpc_error r else rpc_error r
rpc_failure r _ = type_failure

abbrev reverted_failure : Message → Field RpcErrorObject → Failure
reverted_failure r (present e) =
    if is_revert e.message then contract_execution_error e.message else invalid_response r
reverted_failure r _ = type_failure

abbrev counts_as_rpc_error : Field RpcErrorObject → Bool
counts_as_rpc_error (present e) = is_response_rpc_error e
counts_as_rpc_error _ = true

-- What is thrown for a response with an error: each of the three branches throws.
unfoldable pub error_failure : Bool → Message → Failure
unfolding includes
error_failure spec r =
    if spec && counts_as_rpc_error r.error
    then rpc_failure r r.error
    else reverted_failure r r.error

-- `response.id && payload.id !== response.id`
abbrev differs : JsonRpcId → JsonRpcId → Bool
differs (str s) id = not (s == "") && not (str s == id)
differs (num n) id = ltb 0 n && not (num n == id)
differs _ id = false

abbrev last_checks : SocketPayload → Reply → Verdict
last_checks (one p) (answer (single r)) =
    if (is_response_with_error r || is_response_with_result r) && differs r.id p.id
    then refused (mismatched_id r)
    else refused (response_failure (answer (single r)) "Invalid response")
last_checks payload r = refused (response_failure r "Invalid response")

-- From the tests on batches on, in the order of the source.
unfoldable pub process_rest : SocketPayload → Reply → Bool → Bool → Verdict
unfolding build_response reply_has_error reply_has_result reply_is_batch
process_rest payload r legacy error =
    if not legacy && is_batch_payload payload && reply_is_batch r
    then returned (as_is r)
    else if legacy && not error && is_batch_payload payload
    then returned (as_is r)
    else if legacy && error && is_batch_payload payload
    then refused (thrown r)
    else if legacy && not (reply_has_error r) && not (reply_has_result r)
    then returned (build_response payload r error)
    else if is_batch_payload payload && not (is_array r)
    then refused (response_failure r "Got normal response for a batch request.")
    else if not (is_batch_payload payload) && is_array r
    then refused (response_failure r "Got batch response for a normal request.")
    else last_checks payload r

-- `_processJsonRpcResponse`
unfoldable pub process : Bool → SocketPayload → Reply → Bool → Bool → Verdict
unfolding process_rest error_failure
process spec payload nothing legacy error = returned (build_response payload nothing error)
process spec payload (error_instance m) legacy error =
    if is_revert m
    then refused (contract_execution_error m)
    else refused (thrown (error_instance m))
process spec payload (answer (single r)) legacy error =
    if is_response_with_error r
    then refused (error_failure spec r)
    else if is_response_with_result r
    then returned (as_is (answer (single r)))
    else process_rest payload (answer (single r)) legacy error
process spec payload (answer (batch rs)) legacy error =
    process_rest payload (answer (batch rs)) legacy error
