-- ===== src/RequestManager/Send.antt =====
-- packages/web3-core/src/web3_request_manager.ts: `_sendRequest` for each kind of provider, and `send`.
-- The provider's own answer is a parameter. Legacy providers call back at once or later; an `err`
-- that is null or undefined is no error.
use web3_js.Common.{Bool, true, false, Option, none, some, String, if◌then◌else◌}
use web3_js.JsonRpc.{single, is_response_with_result, Field, is_id}
use web3_js.Socket.State.{SocketPayload}
use web3_js.RequestManager.{
  Reply, nothing, answer, Failure, response_failure, provider_failure, Answer, as_is, built_result,
  built_error, Verdict, returned, refused, process, is_json_rpc_response, build_non_json_rpc_error,
}

-- A promise of the provider, or the two arguments of its callback.
pub data Given : Type 0 where
  resolved rejected : Reply → Given

-- How a request ends. `stranded`: the failure was thrown into the provider that called back
-- later, and the promise of the request never settles.
pub data Ending : Type 0 where
  ended : Answer → Ending
  failed : Failure → Ending
  failed_with : Answer → Ending
  stranded : Failure → Ending

abbrev pub settle : Verdict → Ending
settle (returned a) = ended a
settle (refused f) = failed f

-- `reject(this._processJsonRpcResponse(…))` and `resolve(…)` inside a callback: what is thrown there
-- rejects the promise only while the executor runs.
abbrev pub throw_in_callback : Bool → Failure → Ending
throw_in_callback at_once f = if at_once then failed f else stranded f

abbrev rejecting : Bool → Verdict → Ending
rejecting at_once (returned a) = failed_with a
rejecting at_once (refused f) = throw_in_callback at_once f

abbrev resolving : Bool → Verdict → Ending
resolving at_once (returned a) = ended a
resolving at_once (refused f) = throw_in_callback at_once f

pub data Provider : Type 0 where
  no_provider : Provider
  web3 eip1193 legacy_send_async : Given → Provider
  legacy_request legacy_send : Bool → Given → Provider
  legacy_promise : Given → Provider
  unsupported : Provider

module _ (spec : Bool) (payload : SocketPayload) where
  unfoldable pub send_web3 : Given → Ending
  send_web3 (resolved r) = settle (process spec payload r false false)
  send_web3 (rejected r) =
      if is_json_rpc_response r
      then settle (process spec payload r false false)
      else failed (build_non_json_rpc_error r)

  -- `.then(…).catch(…)`: an error thrown in the first part comes out of the second unchanged.
  unfoldable pub send_promise : Given → Ending
  send_promise (resolved r) = settle (process spec payload r true false)
  send_promise (rejected r) =
      if is_json_rpc_response r
      then settle (process spec payload r true true)
      else failed (build_non_json_rpc_error r)

  unfoldable pub send_legacy_request : Bool → Given → Ending
  send_legacy_request at_once (resolved r) = resolving at_once (process spec payload r true false)
  send_legacy_request at_once (rejected nothing) =
      resolving at_once (process spec payload nothing true false)
  send_legacy_request at_once (rejected r) =
      if is_json_rpc_response r
      then rejecting at_once (process spec payload r true true)
      else failed (build_non_json_rpc_error r)

  -- A legacy `request` that returns a promise; its callback is never called.
  unfoldable pub send_legacy_promise : Given → Ending
  send_legacy_promise (resolved r) = settle (process spec payload r true false)
  send_legacy_promise (rejected r) =
      if is_json_rpc_response r
      then rejecting true (process spec payload r true true)
      else failed (build_non_json_rpc_error r)

  abbrev nullish_response : String
  nullish_response = "Got a \"nullish\" response from provider."

  unfoldable pub send_legacy : Bool → Given → Ending
  send_legacy at_once (resolved nothing) = failed (response_failure nothing nullish_response)
  send_legacy at_once (rejected nothing) = failed (response_failure nothing nullish_response)
  send_legacy at_once (resolved r) = resolving at_once (process spec payload r true false)
  send_legacy at_once (rejected r) =
      if is_json_rpc_response r
      then rejecting at_once (process spec payload r true true)
      else failed (build_non_json_rpc_error r)

  abbrev no_request_method : String
  no_request_method = "Provider does not have a request method to use."

  unfoldable pub send_request : Provider → Ending
  unfolding send_web3 send_promise send_legacy_request send_legacy_promise send_legacy
  send_request no_provider = failed (
      provider_failure
        "Provider not available. Use `.setProvider` or `.provider=` to initialize the provider.")
  send_request (web3 g) = send_web3 g
  send_request (eip1193 g) = send_promise g
  send_request (legacy_request at_once g) = send_legacy_request at_once g
  send_request (legacy_promise g) = send_legacy_promise g
  send_request (legacy_send at_once g) = send_legacy at_once g
  send_request (legacy_send_async g) = send_promise g
  send_request unsupported = failed (provider_failure no_request_method)

-- The `result` that `send` returns.
pub data Result : Type 0 where
  result_of : Field String → Result
  whole : Reply → Result

abbrev answer_result : Answer → Option Result
answer_result (as_is (answer (single r))) =
    if is_response_with_result r then some (result_of r.result) else none
answer_result (as_is r) = none
answer_result (built_result id r) = if is_id id then some (whole r) else none
answer_result (built_error id r) = none

pub data Sent : Type 0 where
  value : Result → Sent
  unusable : Answer → Sent
  refused_by : Ending → Sent

abbrev sent_of : Answer → Option Result → Sent
sent_of a (some r) = value r
sent_of a none = unusable a

unfoldable pub send : Bool → SocketPayload → Provider → Sent
unfolding send_request
send spec payload p = elim (send_request spec payload p) [
  | ended a ↦ sent_of a (answer_result a)
  | e ↦ refused_by e
]
