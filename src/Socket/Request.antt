-- ===== src/Socket/Request.antt =====
-- packages/web3-utils/src/socket_provider.ts: `request` with its guards, `_extractRequestIds`,
-- the composed abort signal of abort_helpers.ts and the timeouts of provider_bounds.ts.
use web3_js.Common.{
  ℕ, suc, ◌+◌, Bool, true, false, ◌||◌, Option, none, some, List, [], ◌∷◌, String, ltb, leb,
  if◌then◌else◌, any, length, ◌==◌, string_eq_instance,
}
use web3_js.JsMap.{has, set_all, among, is_some}
use web3_js.JsonRpc.{JsonRpcId, num, str, missing, id_eq_instance, Payload}
use web3_js.Fault.{
  Fault, Result, ok, err, ◌>>=◌, connection_not_open, plain_error, provider_error,
  web3_ws_provider_error, request_already_sent, request_queue_full,
}
use web3_js.Deferred.{create_default}
use web3_js.Socket.State.{
  SocketPayload, one, many, Abort, Item, Options, Provider, World, sent_payload, emit, put_item,
  get_status,
}
use web3_js.Socket.Settle.{dispose, rejecting, in_flight_count, notify_diagnostics, settle_request}
use web3_js.Socket.Connection.{is_disconnected, is_connecting, connect}

-- A value given as a timeout: a finite number above 0, or anything else.
pub data TimeoutValue : Type 0 where
  finite : ℕ → TimeoutValue
  not_finite : TimeoutValue

unfoldable pub validate_timeout : TimeoutValue → String → Result ℕ
validate_timeout (finite n) name = if ltb 0 n then ok n else err (provider_error name)
validate_timeout not_finite name = err (provider_error name)

-- A caller's signal: not aborted yet, or aborted with a reason.
pub data Signal : Type 0 where
  live : Signal
  aborted_with : Fault → Signal

unfoldable pub compose_abort_signal : ℕ → Option Signal → Abort
unfolding dispose
compose_abort_signal t signal =
    let base : Abort = record {
      aborted = none;
      timed_out = false;
      disposed = false;
      timer = true;
      listening = false;
      timeout = t;
    } in
    elim signal [
      | none ↦ base
      | some s ↦ elim s [
        | live ↦ record base { listening = true }
        | aborted_with e ↦ dispose (record base { aborted = some e })
      ]
    ]

pub record RequestOptions : Type 0 where
  pub request_timeout : Option TimeoutValue
  pub signal : Option Signal

-- `!id`
abbrev is_falsy : JsonRpcId → Bool
is_falsy (num n) = leb n 0
is_falsy (str s) = s == ""
is_falsy _ = true

-- `new Set(ids).size !== ids.length`
unfoldable pub has_duplicates : List JsonRpcId → Bool
has_duplicates [] = false
has_duplicates (id ∷ ids) = among id ids || has_duplicates ids

abbrev ids_of : List Payload → List JsonRpcId
ids_of [] = []
ids_of (p ∷ ps) = p.id ∷ ids_of ps

-- An empty batch is no batch request, and has no id.
unfoldable pub extract_request_ids : SocketPayload → Result (List JsonRpcId)
unfolding has_duplicates
extract_request_ids (one p) =
    if is_falsy p.id then err (web3_ws_provider_error "Request Id not defined") else ok (p.id ∷ [])
extract_request_ids (many []) = err (web3_ws_provider_error "Request Id not defined")
extract_request_ids (many (p ∷ ps)) =
    if any is_falsy (ids_of (p ∷ ps))
    then err (web3_ws_provider_error "Request Id not defined")
    else if has_duplicates (ids_of (p ∷ ps))
    then err (web3_ws_provider_error "Batch request contains duplicate ids")
    else ok (ids_of (p ∷ ps))

-- The loop over `requestIds` that looks for a request in flight.
unfoldable pub check_not_sent : List JsonRpcId → Provider → Result (Unit {0})
check_not_sent [] s = ok tt
check_not_sent (id ∷ ids) s =
    if has s.sent_queue id || has s.pending_queue id
    then err (request_already_sent id)
    else check_not_sent ids s

abbrev check_bound : Options → List JsonRpcId → Provider → Result (Unit {0})
check_bound o ids s =
    if ltb o.max_in_flight (in_flight_count s + length ids)
    then err (request_queue_full o.max_in_flight)
    else ok tt

abbrev pub check_signal : Option Signal → Result (Unit {0})
check_signal (some (aborted_with e)) = err e
check_signal _ = ok tt

abbrev resolve_timeout : Options → Option TimeoutValue → Result ℕ
resolve_timeout o none = ok o.default_request_timeout
resolve_timeout o (some t) = validate_timeout t "requestTimeout"

-- The guards behind the connection: the ids and the timeout of an admitted request.
unfoldable pub admit :
    Options → SocketPayload → RequestOptions → Provider → Result (List JsonRpcId × ℕ)
admit o payload options s = extract_request_ids payload >>= λ ids. check_not_sent ids s >>= λ _.
    check_bound o ids s >>= λ _. check_signal options.signal >>= λ _.
    resolve_timeout o options.request_timeout >>= λ t. ok (ids, t)

abbrev pub new_item : SocketPayload → List JsonRpcId → Abort → Item
new_item payload ids abort = record {
  payload = payload;
  deferred = create_default;
  abort = abort;
  on_abort = true;
  lifecycle = some (record { ids = ids; settled = false });
}

abbrev pub enqueue : List JsonRpcId → ℕ → Provider → Provider
enqueue ids h s =
    if is_connecting (get_status s)
    then record s { pending_queue = set_all s.pending_queue ids h }
    else record s { sent_queue = set_all s.sent_queue ids h }

abbrev pub primary : List JsonRpcId → JsonRpcId
primary [] = missing
primary (id ∷ ids) = id

module _ (o : Options) where
  -- The item is created, armed and queued; the diagnostics are notified.
  unfoldable pub register : SocketPayload → List JsonRpcId → Abort → Provider → Provider
  unfolding create_default
  register payload ids abort s =
      let h = s.next_item in
      notify_diagnostics o
        (enqueue ids h (put_item h (new_item payload ids abort) (record s { next_item = suc h })))

module _ (o : Options) (w : World) where
  -- `_sendToSocket` of the WebSocket provider, and the `catch` around it.
  unfoldable pub send_or_settle : JsonRpcId → SocketPayload → Provider → Provider
  send_or_settle id payload s =
      if is_disconnected (get_status s)
      then (settle_request o id (rejecting connection_not_open) s).0
      else elim (w.sending payload) [
        | none ↦ emit (sent_payload payload) s
        | some e ↦ (settle_request o id (rejecting e) s).0
      ]

  unfoldable pub accept : SocketPayload → List JsonRpcId → Abort → Provider → Provider
  unfolding register send_or_settle
  accept payload ids abort s =
      let s' = register o payload ids abort s in
      if is_connecting (get_status s) then s' else send_or_settle (primary ids) payload s'

  abbrev pub admitted :
      SocketPayload → RequestOptions → Result (List JsonRpcId × ℕ) → Provider → Result ℕ × Provider
  admitted payload options (err e) s = (err e, s)
  admitted payload options (ok (ids, t)) s =
      (ok s.next_item, accept payload ids (compose_abort_signal t options.signal) s)

  abbrev pub after_connect :
      SocketPayload → RequestOptions → Result (Unit {0}) × Provider → Result ℕ × Provider
  after_connect payload options (err e, s) = (err e, s)
  after_connect payload options (ok u, s) = admitted payload options (admit o payload options s) s

  -- The promise that `request` returns is that of the item whose number is the result.
  unfoldable pub request : SocketPayload → RequestOptions → Provider → Result ℕ × Provider
  request payload options s =
      if is_some s.socket
      then (if is_disconnected (get_status s)
          then after_connect payload options (connect o w s)
          else after_connect payload options (ok tt, s))
      else (err (plain_error "Connection is undefined"), s)
