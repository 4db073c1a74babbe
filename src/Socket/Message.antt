-- ===== src/Socket/Message.antt =====
-- packages/web3-utils/src/socket_provider.ts: `_onMessage`, `_onConnect` and `_sendPendingRequests`;
-- `_onConnect` of web3_eip1193_provider.ts.
use web3_js.Common.{
  ℕ, Bool, false, not, ◌&&◌, ◌||◌, Option, none, some, List, [], ◌∷◌, String, any, nat_eq,
  if◌then◌else◌, ◌==◌, string_eq_instance,
}
use web3_js.JsMap.{has, set, delete}
use web3_js.JsonRpc.{
  JsonRpcId, missing, Field, present, Response, single, batch, id_eq_instance, Payload,
  is_response_with_result, is_response_with_error, is_response_with_notification, is_batch_response,
}
use web3_js.Fault.{Result, ok, err, response_error}
use web3_js.Socket.State.{
  connected, one, Lifecycle, Options, Provider, World, message, failed, emit,
}
use web3_js.Socket.Settle.{resolving, rejecting, settle_request}
use web3_js.Socket.Connection.{reconnect}
use web3_js.Socket.Request.{RequestOptions, request, send_or_settle}

unfoldable pub ends_with : String → String → Bool
ends_with String.[] t = String.[] == t
ends_with (String.◌∷◌ c s) t = String.◌∷◌ c s == t || ends_with s t

abbrev method_ends_with : Field String → String → Bool
method_ends_with (present m) t = ends_with m t
method_ends_with _ t = false

-- `isResponseWithNotification(response) && response.method.endsWith('_subscription')`
unfoldable pub is_subscription_message : Response → Bool
unfolding is_response_with_notification ends_with
is_subscription_message (single r) =
    is_response_with_notification r && method_ends_with r.method "_subscription"
is_subscription_message (batch rs) = false

-- The id that a response is for: an array that is no batch response has none.
unfoldable pub response_id : Response → JsonRpcId
unfolding is_batch_response
response_id (single r) = r.id
response_id (batch []) = missing
response_id (batch (r ∷ rs)) = if is_batch_response (batch (r ∷ rs)) then r.id else missing

unfoldable pub is_well_formed : Response → Bool
unfolding is_batch_response is_response_with_result is_response_with_error
is_well_formed (single r) = is_response_with_result r || is_response_with_error r
is_well_formed (batch rs) = is_batch_response (batch rs)

abbrev pub invalid_response : String
invalid_response = "Invalid JSON-RPC response received from the node"

abbrev pub owned_ids : JsonRpcId → Option Lifecycle → List JsonRpcId
owned_ids id none = id ∷ []
owned_ids id (some lc) = lc.ids

-- The inner loop: an id that is pending goes to the sent queue.
unfoldable pub move_ids : List JsonRpcId → ℕ → Provider → Provider
move_ids [] h s = s
move_ids (id ∷ ids) h s = move_ids ids h (
    if has s.pending_queue id
    then record s { pending_queue = delete s.pending_queue id; sent_queue = set s.sent_queue id h }
    else s)

abbrev pub no_options : RequestOptions
no_options = record { request_timeout = none; signal = none }

abbrev pub own_outcome : Result ℕ × Provider → Provider
own_outcome (ok h, s) = s
own_outcome (err e, s) = emit (failed e) s

module _ (o : Options) (w : World) where
  -- One round of the loop of `_onMessage`.
  unfoldable pub on_response : Response → Provider → Provider
  on_response r s =
      if is_subscription_message r
      then emit (message r) s
      else if not (has s.sent_queue (response_id r))
      then s
      else if is_well_formed r
      then (settle_request o (response_id r) (resolving r) (emit (message r) s)).0
      else (settle_request o (response_id r) (rejecting (response_error r invalid_response)) s).0

  unfoldable pub on_responses : List Response → Provider → Provider
  on_responses [] s = s
  on_responses (r ∷ rs) s = on_responses rs (on_response r s)

  -- `responses` is what `_parseResponses` returned.
  unfoldable pub on_message : List Response → Provider → Provider
  on_message [] s = if o.auto_reconnect then reconnect o w s else s
  on_message (r ∷ rs) s = on_responses (r ∷ rs) s

  -- The loop over the snapshot of the pending queue; `sent` holds the items that were sent.
  unfoldable pub send_entries : List (JsonRpcId × ℕ) → List ℕ → Provider → Provider
  send_entries [] sent s = s
  send_entries ((id, h) ∷ entries) sent s =
      let moved = move_ids (owned_ids id (s.items h).lifecycle) h s in
      let next = send_or_settle o w id (s.items h).payload moved in
      let go = if any (λ j. nat_eq j h) sent then s else next in
      send_entries entries (if any (λ j. nat_eq j h) sent then sent else h ∷ sent) go

  unfoldable pub send_pending_requests : Provider → Provider
  send_pending_requests s = send_entries s.pending_queue [] s

  -- `_getChainId` and `_getAccounts` call `request` at once; a throw ends in `_emitError`.
  abbrev pub own_request : Payload → Provider → Provider
  own_request p s = own_outcome (request o w (one p) no_options s)

  -- `chain_id` and `accounts` are the payloads that `toPayload` built.
  unfoldable pub on_connect : Payload → Payload → Provider → Provider
  on_connect chain_id accounts s = send_pending_requests (
      own_request accounts (
        own_request chain_id (record s {
          connection_timer = false;
          connection_status = connected;
          reconnect_attempts = 0;
        })))
