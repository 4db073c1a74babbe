-- ===== src/Socket/Run.antt =====
-- The provider as a state machine: the constructor of packages/web3-utils/src/socket_provider.ts, the
-- events that reach a provider, and any sequence of them.
use web3_js.Common.{
  ℕ, ◌≤◌, ◌<◌, ◌≡◌, ◌≢◌, refl, Bool, true, false, Option, none, some, List, [], ◌∷◌, arith,
  if◌then◌else◌, inl, inr, Bool-cases,
}
use web3_js.JsMap.{get, is_some}
use web3_js.JsonRpc.{Response, Payload}
use web3_js.Fault.{Fault, Result}
use web3_js.Deferred.{create_default, pending}
use web3_js.Socket.State.{
  ReadyState, connecting, SocketPayload, many, Item, Options, Provider, World,
}
use web3_js.Socket.Settle.{in_flight_count, find_item}
use web3_js.Socket.Connection.{
  connect, on_connection_timeout, disconnect, reset, on_reconnect_timer, on_error, on_close_event,
  reconnect, clear_queues,
}
use web3_js.Socket.Request.{RequestOptions, request}
use web3_js.Socket.Message.{on_message, on_connect}
use web3_js.Socket.Deadline.{on_deadline, on_signal}
use web3_js.Socket.Consistent.{IsConsistent}
use web3_js.Socket.Advance.{Advances, Advances-refl, Advances-trans, Advances-SameCore}
use web3_js.Socket.Closing.{
  Advances-connect, Advances-on_connection_timeout, disconnect-IsDrained, reset-IsDrained,
  clear_queues-IsDrained,
}
use web3_js.Socket.Reconnecting.{Advances-reconnect}
use web3_js.Socket.Requesting.{Advances-request}
use web3_js.Socket.Handling.{
  Advances-on_message, on_connect-Advances, Advances-on_error, Advances-on_reconnect_timer,
  Advances-on_close_event,
}
use web3_js.Socket.Expiring.{Advances-on_deadline, Advances-on_signal}

-- No item yet.
abbrev blank_item : Item
blank_item = record {
  payload = many [];
  deferred = create_default;
  abort = record {
    aborted = none;
    timed_out = false;
    disposed = true;
    timer = false;
    listening = false;
    timeout = 0;
  };
  on_abort = false;
  lifecycle = none;
}

-- The fields as the constructor sets them, before it calls `connect`.
unfoldable pub initial : Provider
initial = record {
  socket = none;
  connection_status = connecting;
  is_reconnecting = false;
  reconnect_attempts = 0;
  connection_timer = false;
  listening = false;
  pending_queue = [];
  sent_queue = [];
  items = λ j. blank_item;
  next_item = 0;
  peak_in_flight = 0;
  log = [];
}

-- The constructor behind the check of the path; it throws what `connect` throws.
unfoldable pub create : Options → World → Result (Unit {0}) × Provider
unfolding initial
create o w = connect o w initial

-- What reaches a provider. `readiness` is the socket changing its ready state by itself.
pub data Event : Type 0 where
  requesting : SocketPayload → RequestOptions → Event
  receiving : List Response → Event
  connecting_done : Payload → Payload → Event
  closing_event : ℕ → Bool → Event
  erring : Fault → Event
  readiness : ReadyState → Event
  connection_deadline reconnect_due reconnect_now resetting chunk_failure : Event
  request_deadline : ℕ → Event
  signal_aborted : ℕ → Fault → Event
  disconnecting : Option ℕ → Event

abbrev set_ready : ReadyState → Provider → Provider
set_ready r s = if is_some s.socket then record s { socket = some r } else s

unfoldable pub step : Options → World → Event → Provider → Provider
step o w (requesting payload options) s = (request o w payload options s).1
step o w (receiving rs) s = on_message o w rs s
step o w (connecting_done chain_id accounts) s = on_connect o w chain_id accounts s
step o w (closing_event code clean) s = on_close_event o w code clean s
step o w (erring e) s = on_error o w e s
step o w (readiness r) s = set_ready r s
step o w connection_deadline s = on_connection_timeout o s
step o w reconnect_due s = on_reconnect_timer o w s
step o w reconnect_now s = reconnect o w s
step o w resetting s = reset o s
step o w chunk_failure s = clear_queues o s
step o w (request_deadline h) s = on_deadline o h s
step o w (signal_aborted h e) s = on_signal o h e s
step o w (disconnecting code) s = disconnect o w code s

unfoldable pub run : Options → List (World × Event) → Provider → Provider
unfolding step
run o [] s = s
run o ((w, e) ∷ es) s = run o es (step o w e s)

module _ (o : Options) where
  Advances-set_ready :
      (r : ReadyState) (s : Provider) → IsConsistent s → Advances o s (set_ready r s)
  Advances-set_ready r s v = elim (Bool-cases (is_some s.socket)) [
    | inr absent ↦ simp absent (Advances-refl v)
    | inl there ↦ simp there (
        Advances-SameCore v (record { sent = refl; pending = refl; items = refl; next = refl })
          (λ p. p))
  ]

  Advances-step :
      (w : World) (e : Event) (s : Provider) → IsConsistent s → Advances o s (step o w e s)
  unfolding step
  Advances-step w (requesting payload options) s v = Advances-request o w payload options s v
  Advances-step w (receiving rs) s v = Advances-on_message o w rs s v
  Advances-step w (connecting_done c a) s v = (on_connect-Advances o w c a s v).0
  Advances-step w (closing_event code clean) s v = Advances-on_close_event o w code clean s v
  Advances-step w (erring e) s v = Advances-on_error o w e s v
  Advances-step w (readiness r) s v = Advances-set_ready r s v
  Advances-step w connection_deadline s v = Advances-on_connection_timeout o s v
  Advances-step w reconnect_due s v = Advances-on_reconnect_timer o w s v
  Advances-step w reconnect_now s v = Advances-reconnect o w s v
  Advances-step w resetting s v = (reset-IsDrained o s v).0
  Advances-step w chunk_failure s v = (clear_queues-IsDrained o s v).0
  Advances-step w (request_deadline h) s v = Advances-on_deadline o s h v
  Advances-step w (signal_aborted h e) s v = Advances-on_signal o s h v e
  Advances-step w (disconnecting code) s v = (disconnect-IsDrained o w code s v).0

  Advances-run :
      (es : List (World × Event)) (s : Provider) → IsConsistent s → Advances o s (run o es s)
  unfolding run
  Advances-run [] s v = Advances-refl v
  Advances-run ((w, e) ∷ es) s v =
      let a = Advances-step w e s v in Advances-trans a (Advances-run es _ a.consistent)

  initial-IsConsistent : IsConsistent initial
  unfolding initial find_item get create_default
  initial-IsConsistent = record {
    one_entry = tt;
    queue_owned = λ id h p. absurd (ground arith);
    pending_owned = λ id h p. absurd (ground arith);
    queued = λ h lc id p m. absurd (ground arith);
    opened = λ h lc p. absurd (ground arith);
    quiet = λ h p. record { no_listener = refl; no_timer = refl; no_caller = refl };
    answered = λ h p q. absurd (omega arith);
    fresh = λ h p. refl;
  }

  abbrev pub after : World → List (World × Event) → Provider
  after w es = run o es (create o w).1

  Advances-after : (w : World) (es : List (World × Event)) → Advances o initial (after w es)
  unfolding create
  Advances-after w es =
      let a = Advances-connect o w initial initial-IsConsistent in
      Advances-trans a (Advances-run es _ a.consistent)

  -- A provider, whatever happens to it: its queues hold exactly the unsettled requests, at most
  -- `maxInFlightRequests` ids are in flight, and at most `maxAttempts` reconnections are counted.
  pub after-IsConsistent :
      (w : World) (es : List (World × Event))
      → IsConsistent (after w es)
        × (in_flight_count (after w es) ≤ o.max_in_flight)
        × ((after w es).reconnect_attempts ≤ o.max_attempts)
  unfolding initial
  after-IsConsistent w es =
      let a = Advances-after w es in
      (a.consistent, a.bounded (omega arith), a.attempts (omega arith))

  -- From a consistent state, a request that has ended is answered and keeps its outcome through any
  -- further events.
  pub run_keeps_ended :
      (es : List (World × Event)) (s : Provider) (h : ℕ)
      → IsConsistent s
      → h < s.next_item
      → (s.items h).lifecycle ≡ none
      → ((run o es s).items h ≡ s.items h) × ((s.items h).deferred.promise ≢ pending)
  run_keeps_ended es s h v p q = ((Advances-run es s v).history h p q, v.answered h q p)
