-- ===== src/Socket/Handling.antt =====
-- The event handlers of packages/web3-utils/src/socket_provider.ts: messages, the connection events
-- and the timers.
use web3_js.Common.{ℕ, ◌≡◌, refl, Bool, false, ◌&&◌, List, [], ◌∷◌, arith, inl, inr, Bool-cases}
use web3_js.JsMap.{has}
use web3_js.JsonRpc.{Response, id_eq_instance, Payload}
use web3_js.Fault.{Fault, Result, ok, err, response_error}
use web3_js.Socket.State.{one, connected, Options, Provider, World, message, emit}
use web3_js.Socket.Settle.{resolving, rejecting}
use web3_js.Socket.Connection.{on_error, on_close_event, on_reconnect_timer, abnormal}
use web3_js.Socket.Request.{request}
use web3_js.Socket.Message.{
  on_response, on_responses, on_message, on_connect, own_request, own_outcome, no_options,
  is_subscription_message, response_id, is_well_formed, invalid_response,
}
use web3_js.Socket.Consistent.{IsConsistent}
use web3_js.Socket.Advance.{
  Advances, Advances-refl, Advances-trans, Advances-SameCore, Advances-settle_request,
}
use web3_js.Socket.Closing.{Advances-connect, clear_queues-IsDrained}
use web3_js.Socket.Reconnecting.{Advances-reconnect}
use web3_js.Socket.Requesting.{Advances-request}
use web3_js.Socket.Sending.{send_pending_requests-Advances}

module _ (o : Options) (w : World) where
  pub Advances-on_response :
      (r : Response) (s : Provider) → IsConsistent s → Advances o s (on_response o w r s)
  unfolding on_response
  Advances-on_response r s v =
      let logged : Advances o s (emit (message r) s) =
        Advances-SameCore v (record { sent = refl; pending = refl; items = refl; next = refl })
          (λ p. p) in
      elim (Bool-cases (is_subscription_message r)) [
        | inl note ↦ simp note logged
        | inr answer ↦ elim (Bool-cases (has s.sent_queue (response_id r))) [
          | inr unknown ↦ simp (answer, unknown) (Advances-refl v)
          | inl known ↦ elim (Bool-cases (is_well_formed r)) [
            | inl good ↦
                simp (answer, known, good)
                  (Advances-trans logged (
                    Advances-settle_request (emit (message r) s) (response_id r) (resolving r)
                      logged.consistent))
            | inr bad ↦
                simp (answer, known, bad)
                  (Advances-settle_request s (response_id r)
                    (rejecting (response_error r invalid_response)) v)
          ]
        ]
      ]

  Advances-on_responses :
      (rs : List Response) (s : Provider) → IsConsistent s → Advances o s (on_responses o w rs s)
  unfolding on_responses
  Advances-on_responses [] s v = Advances-refl v
  Advances-on_responses (r ∷ rs) s v =
      let a = Advances-on_response r s v in
      Advances-trans a (Advances-on_responses rs (on_response o w r s) a.consistent)

  pub Advances-on_message :
      (rs : List Response) (s : Provider) → IsConsistent s → Advances o s (on_message o w rs s)
  unfolding on_message
  Advances-on_message [] s v = elim (Bool-cases o.auto_reconnect) [
    | inl again ↦ simp again (Advances-reconnect o w s v)
    | inr stay ↦ simp stay (Advances-refl v)
  ]
  Advances-on_message (r ∷ rs) s v = Advances-on_responses (r ∷ rs) s v

  Advances-own_request :
      (p : Payload) (s : Provider) → IsConsistent s → Advances o s (own_request o w p s)
  Advances-own_request p s v =
      let a = Advances-request o w (one p) no_options s v in
      own (request o w (one p) no_options s).0 (request o w (one p) no_options s).1 a
    where
      own : (r : Result ℕ) (t : Provider) → Advances o s t → Advances o s (own_outcome (r, t))
      own (ok h) t a = a
      own (err e) t a = Advances-trans a (
          Advances-SameCore a.consistent
            (record { sent = refl; pending = refl; items = refl; next = refl }) (λ p. p))

  -- A new connection, from a consistent state: nothing stays in the pending queue, the state stays
  -- consistent and bounded, and requests that have ended keep their outcome.
  pub on_connect-Advances :
      (chain_id accounts : Payload) (s : Provider)
      → IsConsistent s
      → Advances o s (on_connect o w chain_id accounts s)
        × ((on_connect o w chain_id accounts s).pending_queue ≡ [])
  unfolding on_connect
  on_connect-Advances chain_id accounts s v =
      let up =
        Advances-SameCore {o = o}
          {t = record s {
            connection_timer = false;
            connection_status = connected;
            reconnect_attempts = 0;
          }}
          v (record { sent = refl; pending = refl; items = refl; next = refl })
          (λ p. omega arith) in
      let first = Advances-own_request chain_id _ up.consistent in
      let second = Advances-own_request accounts _ first.consistent in
      let (a, empty) = send_pending_requests-Advances o w _ second.consistent in
      (Advances-trans up (Advances-trans first (Advances-trans second a)), empty)

  pub Advances-on_error :
      (e : Fault) (s : Provider) → IsConsistent s → Advances o s (on_error o w e s)
  unfolding on_error
  Advances-on_error e s v = elim (Bool-cases s.is_reconnecting) [
    | inl busy ↦ simp busy (Advances-reconnect o w s v)
    | inr idle ↦ simp idle (
        Advances-SameCore v (record { sent = refl; pending = refl; items = refl; next = refl })
          (λ p. p))
  ]

  pub Advances-on_reconnect_timer :
      (s : Provider) → IsConsistent s → Advances o s (on_reconnect_timer o w s)
  unfolding on_reconnect_timer
  Advances-on_reconnect_timer s v =
      let pre =
        Advances-SameCore {o = o} {t = record s { listening = false }} v
          (record { sent = refl; pending = refl; items = refl; next = refl }) (λ p. p) in
      let c = Advances-connect o w (record s { listening = false }) pre.consistent in
      Advances-trans pre (
        Advances-trans c (
          Advances-SameCore c.consistent
            (record { sent = refl; pending = refl; items = refl; next = refl }) (λ p. p)))

  pub Advances-on_close_event :
      (code : ℕ) (clean : Bool) (s : Provider)
      → IsConsistent s
      → Advances o s (on_close_event o w code clean s)
  unfolding on_close_event
  Advances-on_close_event code clean s v =
      elim (Bool-cases (o.auto_reconnect && abnormal code clean)) [
        | inl again ↦ simp again (Advances-reconnect o w s v)
        | inr ended ↦
            let (a, d) = clear_queues-IsDrained o s v in
            simp ended (
              Advances-trans a (
                Advances-SameCore a.consistent
                  (record { sent = refl; pending = refl; items = refl; next = refl }) (λ p. p)))
      ]
