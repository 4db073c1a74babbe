-- ===== src/Socket/Tests.antt =====
-- Runs of the provider of packages/web3-utils/src/socket_provider.ts, and the theorems at them.
use web3_js.Common.{
  ℕ, ◌+◌, ◌*◌, ◌^◌, ◌≤◌, ◌<◌, ◌≡◌, ◌≢◌, refl, min, true, false, none, some, List, [], ◌∷◌, arith,
}
use web3_js.JsMap.{get, has, set, delete, delete_all, set_all, keys, among}
use web3_js.JsonRpc.{
  JsonRpcId, num, absent, present, Response, single, Payload, id_eq_instance,
  is_response_with_result, is_response_with_error, is_response_with_notification,
}
use web3_js.Fault.{pending_requests_on_reconnecting, request_timeout}
use web3_js.Deferred.{pending, fulfilled, rejected, create_default, resolve, reject}
use web3_js.Socket.State.{
  socket_connecting, socket_open, socket_closing, one, Options, World, opened, Lifecycle,
  get_status,
}
use web3_js.Socket.Settle.{settle_request, find_item, notify_diagnostics, dispose, in_flight_count}
use web3_js.Socket.Connection.{connect, reconnect, reconnect_wait, backoff_cap}
use web3_js.Socket.Request.{
  compose_abort_signal, extract_request_ids, has_duplicates, check_not_sent, admit, register,
  accept, request, send_or_settle, validate_timeout,
}
use web3_js.Socket.Message.{
  on_message, on_response, on_responses, on_connect, is_subscription_message, response_id,
  is_well_formed, no_options,
}
use web3_js.Socket.Deadline.{on_deadline}
use web3_js.Socket.Consistent.{IsConsistent}
use web3_js.Socket.Teardown.{IsDrained}
use web3_js.Socket.Responding.{Ended, answer, on_response_lem}
use web3_js.Socket.Reconnecting.{reconnect_lem}
use web3_js.Socket.Backoff.{reconnect_wait_bounds}
use web3_js.Socket.Expiring.{on_deadline_lem}
use web3_js.Socket.Handling.{on_connect-Advances}
use web3_js.Socket.Advance.{Advances}
use web3_js.Socket.Admission.{IsAdmitted, admit-IsAdmitted}
use web3_js.Socket.Run.{
  initial, create, Event, requesting, receiving, readiness, step, run, after, after-IsConsistent,
  run_keeps_ended,
}

socket_code : Unit {0}
unfolding initial create step run connect request extract_request_ids has_duplicates check_not_sent
    admit accept register send_or_settle compose_abort_signal create_default get_status
    notify_diagnostics get has set delete delete_all set_all keys on_message on_response
    on_responses is_subscription_message response_id is_well_formed is_response_with_result
    is_response_with_error is_response_with_notification settle_request find_item dispose resolve
    reject
socket_code = tt

abbrev options : Options
options = record {
  socket_path = "ws://localhost:8545";
  auto_reconnect = true;
  delay = 5000;
  max_attempts = 5;
  connection_timeout = 30_000;
  default_request_timeout = 120_000;
  max_in_flight = 4;
  on_diagnostics = true;
}

abbrev world : World
world = record {
  opening = opened socket_connecting;
  closing = socket_closing;
  sending = λ p. none;
  random_part = 1;
  random_whole = 2;
}

abbrev call : ℕ → Payload
call n = record { version = "2.0"; id = num n; method = "qrl_blockNumber"; params = none }

abbrev reply : ℕ → Response
reply n = single (record {
  version_2 = true;
  id = num n;
  result = present "0x10";
  error = absent;
  method = absent;
  params = absent;
})

abbrev ask : ℕ → World × Event
ask n = (world, requesting (one (call n)) no_options)

-- Two requests on an open socket, of which one is answered.
abbrev before_reply : List (World × Event)
before_reply = (world, readiness socket_open) ∷ ask 7 ∷ ask 8 ∷ []

abbrev after_reply : List (World × Event)
after_reply =
    (world, readiness socket_open) ∷ ask 7 ∷ ask 8 ∷ (world, receiving (reply 7 ∷ [])) ∷ []

two_sent : (after options world before_reply).sent_queue ≡ (num 7, 0) ∷ (num 8, 1) ∷ []
unfolding socket_code
two_sent = refl

one_answered :
    ((after options world after_reply).sent_queue ≡ (num 8, 1) ∷ [])
    × (((after options world after_reply).items 0).deferred.promise ≡ fulfilled (reply 7))
unfolding socket_code
one_answered = (refl, refl)

after-IsConsistent_example :
    IsConsistent (after options world after_reply)
    × (in_flight_count (after options world after_reply) ≤ 4)
    × ((after options world after_reply).reconnect_attempts ≤ 5)
after-IsConsistent_example = after-IsConsistent options world after_reply

run_keeps_ended_example :
    ((run options before_reply (after options world after_reply)).items 0
      ≡ (after options world after_reply).items 0)
    × (((after options world after_reply).items 0).deferred.promise ≢ pending)
unfolding socket_code
run_keeps_ended_example =
    run_keeps_ended options before_reply (after options world after_reply) 0
      (after-IsConsistent options world after_reply).0 (omega arith) refl

on_response_lem_example :
    ((h : ℕ)
      → get (after options world before_reply).sent_queue (response_id (reply 7)) ≡ some h
      → Ended
          (after options world before_reply).items
          h
          (answer (reply 7))
          (on_response options world (reply 7) (after options world before_reply)))
    × (get (after options world before_reply).sent_queue (response_id (reply 7)) ≡ none
        → on_response options world (reply 7) (after options world before_reply)
          ≡ after options world before_reply)
unfolding socket_code
on_response_lem_example =
    on_response_lem options world (reply 7) (after options world before_reply)
      (after-IsConsistent options world before_reply).0 refl

on_deadline_lem_example :
    ((lc : Lifecycle)
      → ((after options world before_reply).items 0).lifecycle ≡ some lc
      → (((on_deadline options 0 (after options world before_reply)).items 0).deferred.promise
          ≡ rejected (request_timeout 120_000 (some "qrl_blockNumber")))
        × ((id : JsonRpcId)
            → among id lc.ids ≡ true
            → find_item (on_deadline options 0 (after options world before_reply)) id ≡ none)
        × ((j : ℕ)
            → 0 ≢ j
            → (on_deadline options 0 (after options world before_reply)).items j
              ≡ (after options world before_reply).items j))
    × (((after options world before_reply).items 0).lifecycle ≡ none
        → on_deadline options 0 (after options world before_reply)
          ≡ after options world before_reply)
unfolding socket_code
on_deadline_lem_example =
    on_deadline_lem options (after options world before_reply) 0
      (after-IsConsistent options world before_reply).0

reconnect_lem_example :
    ((after options world before_reply).reconnect_attempts < 5
      → ((reconnect options world (after options world before_reply)).sent_queue ≡ [])
        × ((reconnect options world (after options world before_reply)).is_reconnecting ≡ true)
        × ((reconnect options world (after options world before_reply)).reconnect_attempts
            ≡ (after options world before_reply).reconnect_attempts + 1)
        × ((j : JsonRpcId) (h : ℕ)
            → get (after options world before_reply).sent_queue j ≡ some h
            → ((reconnect options world (after options world before_reply)).items
                h).deferred.promise
              ≡ rejected pending_requests_on_reconnecting)
        × ((h : ℕ)
            → ((j : JsonRpcId) → get (after options world before_reply).sent_queue j ≢ some h)
            → (reconnect options world (after options world before_reply)).items h
              ≡ (after options world before_reply).items h))
    × (5 ≤ (after options world before_reply).reconnect_attempts
        → IsDrained (reconnect options world (after options world before_reply))
          × ((reconnect options world (after options world before_reply)).is_reconnecting ≡ false))
unfolding socket_code
reconnect_lem_example =
    reconnect_lem options world (after options world before_reply)
      (after-IsConsistent options world before_reply).0 refl

reconnect_wait_bounds_example :
    (min (5000 * 2 ^ 3) backoff_cap * 8 ≤ 10 * reconnect_wait options world 3 + 9)
    × (10 * reconnect_wait options world 3 ≤ min (5000 * 2 ^ 3) backoff_cap * 12)
reconnect_wait_bounds_example = reconnect_wait_bounds options world 3 (omega arith)

on_connect-Advances_example :
    Advances options
      (after options world (ask 7 ∷ []))
      (on_connect options world (call 1) (call 2) (after options world (ask 7 ∷ [])))
    × ((on_connect options world (call 1) (call 2) (after options world (ask 7 ∷ []))).pending_queue
        ≡ [])
on_connect-Advances_example =
    on_connect-Advances options world (call 1) (call 2) (after options world (ask 7 ∷ []))
      (after-IsConsistent options world (ask 7 ∷ [])).0

admit-IsAdmitted_example :
    IsAdmitted options
      (one (call 9))
      no_options
      (after options world before_reply)
      (num 9 ∷ [])
      120_000
unfolding socket_code admit validate_timeout
admit-IsAdmitted_example =
    admit-IsAdmitted options (one (call 9)) no_options (after options world before_reply)
      (num 9 ∷ []) 120_000 refl
