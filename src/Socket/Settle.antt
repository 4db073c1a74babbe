-- ===== src/Socket/Settle.antt =====
-- packages/web3-utils/src/socket_provider.ts: `_settleRequest`, the one place where a request ends,
-- with `_rejectAllRequests` and the diagnostics; and `dispose` of abort_helpers.ts.
use web3_js.Common.{
  ℕ, ◌+◌, Bool, true, false, Option, none, some, List, [], ◌∷◌, ◌++◌, ltb, if◌then◌else◌,
}
use web3_js.JsMap.{get, delete_all, keys, size}
use web3_js.JsonRpc.{JsonRpcId, Response, id_eq_instance}
use web3_js.Fault.{Fault}
use web3_js.Deferred.{Deferred, resolve, reject}
use web3_js.Socket.State.{
  Abort, Lifecycle, Item, Diagnostics, Options, Provider, reported, failed, emit, put_item,
}

unfoldable pub dispose : Abort → Abort
dispose a = if a.disposed then a else record a { disposed = true; timer = false; listening = false }

-- `{ resolve: … } | { reject: … }`
pub data Ending : Type 0 where
  resolving : Response → Ending
  rejecting : Fault → Ending

abbrev pub in_flight_count : Provider → ℕ
in_flight_count s = size s.pending_queue + size s.sent_queue

module _ (o : Options) where
  unfoldable pub get_diagnostics : Provider → Diagnostics
  get_diagnostics s = record {
    in_flight = in_flight_count s;
    pending_requests = size s.pending_queue;
    sent_requests = size s.sent_queue;
    peak_in_flight = s.peak_in_flight;
    max_in_flight_requests = o.max_in_flight;
  }

  unfoldable pub notify_diagnostics : Provider → Provider
  notify_diagnostics s =
      let peak =
        if ltb s.peak_in_flight (in_flight_count s) then in_flight_count s else s.peak_in_flight in
      let s' = record s { peak_in_flight = peak } in
      if o.on_diagnostics then emit (reported (get_diagnostics s')) s' else s'

-- `this._sentRequestsQueue.get(id) ?? this._pendingRequestsQueue.get(id)`
abbrev pub or_else : {A : Type 0} → Option A → Option A → Option A
or_else (some a) b = some a
or_else none b = b

unfoldable pub find_item : Provider → JsonRpcId → Option ℕ
find_item s id = or_else (get s.sent_queue id) (get s.pending_queue id)

abbrev pub forget_ids : List JsonRpcId → Provider → Provider
forget_ids ids s = record s {
  pending_queue = delete_all s.pending_queue ids;
  sent_queue = delete_all s.sent_queue ids;
}

abbrev pub finish : Ending → Deferred Response → Deferred Response
finish (resolving r) d = resolve r d
finish (rejecting e) d = reject e d

-- A rejected promise runs the handler that `request` attached to it.
abbrev pub announce : Ending → Provider → Provider
announce (resolving r) s = s
announce (rejecting e) s = emit (failed e) s

module _ (o : Options) where
  -- The item has a lifecycle: its listener, its timer and the lifecycle itself go first.
  abbrev end_owned : Ending → ℕ → Item → Lifecycle → Provider → Provider × Bool
  end_owned ending h item lc s =
      let cleared = record item {
        on_abort = false;
        abort = dispose item.abort;
        lifecycle = none;
      } in
      if lc.settled then (notify_diagnostics o (put_item h cleared s), false) else (
        notify_diagnostics o (
            announce ending
              (put_item h (record cleared { deferred = finish ending item.deferred }) s)),
        true,
      )

  abbrev end_item : JsonRpcId → Ending → ℕ → Item → Option Lifecycle → Provider → Provider × Bool
  end_item id ending h item (some lc) s = end_owned ending h item lc (forget_ids lc.ids s)
  end_item id ending h item none s = (
    notify_diagnostics o (
        announce ending (
          put_item h (record item { deferred = finish ending item.deferred })
            (forget_ids (id ∷ []) s))),
    true,
  )

  abbrev settle_found : JsonRpcId → Ending → Option ℕ → Provider → Provider × Bool
  settle_found id ending none s = (s, false)
  settle_found id ending (some h) s = end_item id ending h (s.items h) (s.items h).lifecycle s

  unfoldable pub settle_request : JsonRpcId → Ending → Provider → Provider × Bool
  unfolding find_item
  settle_request id ending s = settle_found id ending (find_item s id) s

  -- The loop of `_rejectAllRequests`, and that of `_reconnect`.
  unfoldable pub reject_each : List JsonRpcId → Fault → Provider → Provider
  unfolding settle_request
  reject_each [] e s = s
  reject_each (id ∷ ids) e s = reject_each ids e (settle_request id (rejecting e) s).0

  unfoldable pub reject_all_requests : Fault → Provider → Provider
  unfolding reject_each
  reject_all_requests e s = reject_each (keys s.pending_queue ++ keys s.sent_queue) e s
