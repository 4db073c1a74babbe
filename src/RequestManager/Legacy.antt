-- ===== src/RequestManager/Legacy.antt =====
-- Batches, and the providers that call back, in packages/web3-core/src/web3_request_manager.ts.
use web3_js.Common.{not, Option, none, some, List, ◌∷◌, Bool, true, false, ◌≡◌, ◌⊎◌, arith}
use web3_js.JsonRpc.{
  Message, Response, single, batch, is_response_with_result, is_batch_response, Payload,
}
use web3_js.Socket.State.{many}
use web3_js.RequestManager.{
  answer, Answer, as_is, process, process_rest, reply_is_batch, reply_has_error, reply_has_result,
}
use web3_js.RequestManager.Send.{
  resolved, ended, Given, Provider, no_provider, unsupported, eip1193, legacy_send_async,
  legacy_promise, send_web3, legacy_send, legacy_request, send_request, web3,
}

-- A batch that is answered by a web3 provider ends with an error or with the answer itself, which
-- then is a batch of valid responses or one response with a result.
pub batch_answer :
    (spec : Bool) (p : Payload) (ps : List Payload) (r : Response) (a : Answer)
    → send_request spec (many (p ∷ ps)) (web3 (resolved (answer r))) ≡ ended a
    → (a ≡ as_is (answer r))
      × ((is_batch_response r ≡ true)
          ⊎ ((m : Message) × (r ≡ single m) × (is_response_with_result m ≡ true)))
unfolding send_request send_web3 process process_rest reply_is_batch reply_has_error
    reply_has_result
batch_answer spec p ps (single m) a h = ground arith
batch_answer spec p ps (batch rs) a h = ground arith

-- A provider that calls back later, where a throw reaches nobody.
abbrev pub calls_later : Provider → Bool
calls_later (legacy_request at_once g) = not at_once
calls_later (legacy_send at_once g) = not at_once
calls_later p = false

-- The answer of a provider; none when it cannot be asked.
abbrev pub given_by : Provider → Option Given
given_by no_provider = none
given_by unsupported = none
given_by (web3 g) = some g
given_by (eip1193 g) = some g
given_by (legacy_send_async g) = some g
given_by (legacy_promise g) = some g
given_by (legacy_request at_once g) = some g
given_by (legacy_send at_once g) = some g
