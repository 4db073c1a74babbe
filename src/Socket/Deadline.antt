-- ===== src/Socket/Deadline.antt =====
-- A request's own deadline and the caller's signal: `onAbort` of packages/web3-utils/src/
-- socket_provider.ts, called from the timer and the listener of abort_helpers.ts.
use web3_js.Common.{ℕ, Bool, true, false, Option, none, some, [], ◌∷◌, String, if◌then◌else◌}
use web3_js.JsonRpc.{JsonRpcId, missing}
use web3_js.Fault.{Fault, request_timeout}
use web3_js.Socket.State.{SocketPayload, one, many, Abort, Options, Provider, put_item}
use web3_js.Socket.Settle.{dispose, rejecting, settle_request}

-- `requestIds[0]`, as `request` read it from the payload.
abbrev pub primary_id : SocketPayload → JsonRpcId
primary_id (one p) = p.id
primary_id (many []) = missing
primary_id (many (p ∷ ps)) = p.id

-- A batch has no method.
abbrev pub method_of : SocketPayload → Option String
method_of (one p) = some p.method
method_of (many ps) = none

abbrev pub dispose_item : ℕ → Provider → Provider
dispose_item h s = put_item h (record (s.items h) { abort = dispose (s.items h).abort }) s

module _ (o : Options) where
  -- The listener `onAbort`, if it is attached.
  abbrev pub run_on_abort : Bool → JsonRpcId → Fault → Provider → Provider
  run_on_abort true id reason s = (settle_request o id (rejecting reason) s).0
  run_on_abort false id reason s = s

  -- `controller.abort(reason)` runs `onAbort`, and `dispose` runs after it.
  unfoldable pub abort_item : ℕ → Fault → Abort → Provider → Provider
  abort_item h reason a s = dispose_item h (
      run_on_abort (s.items h).on_abort (primary_id (s.items h).payload) reason
        (put_item h (record (s.items h) { abort = a }) s))

  -- The deadline's timer fires, if it still runs.
  unfoldable pub on_deadline : ℕ → Provider → Provider
  on_deadline h s =
      let a = (s.items h).abort in
      let reason = request_timeout a.timeout (method_of (s.items h).payload) in
      if a.timer
      then abort_item h reason (record a { timed_out = true; aborted = some reason }) s
      else s

  -- The caller's signal aborts, if it is still listened to.
  unfoldable pub on_signal : ℕ → Fault → Provider → Provider
  on_signal h reason s =
      let a = (s.items h).abort in
      if a.listening then abort_item h reason (record a { aborted = some reason }) s else s
