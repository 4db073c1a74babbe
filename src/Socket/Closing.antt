-- ===== src/Socket/Closing.antt =====
-- The handlers of packages/web3-utils/src/socket_provider.ts that end requests without a response.
use web3_js.Common.{ℕ, ◌≤◌, ◌≡◌, refl, false, Option, arith, inl, inr, Bool-cases, ◌∙◌}
use web3_js.JsonRpc.{id_eq_instance}
use web3_js.Fault.{Fault}
use web3_js.Socket.State.{Options, Provider, World, disconnected, get_status}
use web3_js.Socket.Settle.{reject_all_requests}
use web3_js.Socket.Effects.{SameCore}
use web3_js.Socket.Connection.{
  connect, close_code, close_if_open, is_connected, on_connection_timeout, disconnect, reset,
  clear_queues,
}
use web3_js.Socket.Consistent.{IsConsistent, IsConsistent-SameCore}
use web3_js.Socket.Teardown.{IsDrained, reject_all_requests-IsDrained}
use web3_js.Socket.Advance.{Advances, Advances-trans, Advances-OnlyEnds, Advances-SameCore}

same : (s : Provider) → SameCore s s
same s = record { sent = refl; pending = refl; items = refl; next = refl }

pub IsDrained-SameCore : {s t : Provider} → SameCore s t → IsDrained s → IsDrained t
IsDrained-SameCore {s} {t} c d = record {
  no_pending = c.pending ∙ d.no_pending;
  no_sent = c.sent ∙ d.no_sent;
  all_answered = λ h. rw (c.items, c.next) (d.all_answered h);
  all_quiet = λ h. rw c.items (d.all_quiet h);
}

module _ (o : Options) where
  pub Advances-reject_all_requests :
      (e : Fault) (s : Provider) → IsConsistent s → Advances o s (reject_all_requests o e s)
  Advances-reject_all_requests e s v =
      let r = reject_all_requests-IsDrained o e s v in Advances-OnlyEnds r.0 r.2

  connect-SameCore : (w : World) (s : Provider) → SameCore s (connect o w s).1
  unfolding connect
  connect-SameCore w s = ground arith

  attempts-connect :
      (w : World) (s : Provider) → (connect o w s).1.reconnect_attempts ≡ s.reconnect_attempts
  unfolding connect
  attempts-connect w s = ground arith

  pub Advances-connect :
      (w : World) (s : Provider) → IsConsistent s → Advances o s (connect o w s).1
  Advances-connect w s v =
      Advances-SameCore v (connect-SameCore w s) (λ p. omega (arith, attempts-connect w s))

  -- Before and after the rejections only the connection and the log change.
  module _ (e : Fault) (s s1 t : Provider) (v : IsConsistent s) (before : SameCore s s1)
      (fewer : s.reconnect_attempts ≤ o.max_attempts → s1.reconnect_attempts ≤ o.max_attempts)
      (after : SameCore (reject_all_requests o e s1) t)
      (fewer' : (reject_all_requests o e s1).reconnect_attempts ≤ o.max_attempts
        → t.reconnect_attempts ≤ o.max_attempts) where
    around_reject_all : Advances o s t × IsDrained t
    around_reject_all =
        let v1 = IsConsistent-SameCore before v in
        let r = reject_all_requests-IsDrained o e s1 v1 in
        (
          Advances-trans (Advances-SameCore v before fewer) (
              Advances-trans (Advances-reject_all_requests e s1 v1)
                (Advances-SameCore r.0 after fewer')),
          IsDrained-SameCore after r.1,
        )

  pub clear_queues-IsDrained :
      (s : Provider)
      → IsConsistent s
      → Advances o s (clear_queues o s) × IsDrained (clear_queues o s)
  unfolding clear_queues
  clear_queues-IsDrained s v =
      around_reject_all _ s (record s { connection_timer = false }) _ v
        (record { sent = refl; pending = refl; items = refl; next = refl }) (λ p. p)
        (record { sent = refl; pending = refl; items = refl; next = refl }) (λ p. p)

  pub reset-IsDrained :
      (s : Provider) → IsConsistent s → Advances o s (reset o s) × IsDrained (reset o s)
  unfolding reset
  reset-IsDrained s v =
      around_reject_all _ s (record s { connection_timer = false }) _ v
        (record { sent = refl; pending = refl; items = refl; next = refl }) (λ p. p)
        (record { sent = refl; pending = refl; items = refl; next = refl }) (λ p. omega arith)

  close_if_open-SameCore :
      (w : World) (code : ℕ) (s : Provider) → SameCore s (close_if_open w code s)
  unfolding close_if_open
  close_if_open-SameCore w code s = ground arith

  attempts-close_if_open :
      (w : World) (code : ℕ) (s : Provider)
      → (close_if_open w code s).reconnect_attempts ≡ s.reconnect_attempts
  unfolding close_if_open
  attempts-close_if_open w code s = ground arith

  pub disconnect-IsDrained :
      (w : World) (code : Option ℕ) (s : Provider)
      → IsConsistent s
      → Advances o s (disconnect o w code s) × IsDrained (disconnect o w code s)
  unfolding disconnect
  disconnect-IsDrained w code s v =
      let s0 = record s { connection_timer = false; listening = false } in
      let c = close_if_open-SameCore w (close_code code) s0 in
      around_reject_all _ s (close_if_open w (close_code code) s0) _ v
        (record { sent = c.sent; pending = c.pending; items = c.items; next = c.next })
        (λ p. omega (arith, attempts-close_if_open w (close_code code) s0))
        (record { sent = refl; pending = refl; items = refl; next = refl }) (λ p. p)

  pub on_connection_timeout-IsDrained :
      (s : Provider)
      → IsConsistent s
      → is_connected (get_status s) ≡ false
      → Advances o s (on_connection_timeout o s) × IsDrained (on_connection_timeout o s)
  unfolding on_connection_timeout get_status
  on_connection_timeout-IsDrained s v h = rw h (
      around_reject_all _ s
        (record s { connection_timer = false; connection_status = disconnected }) _ v
        (record { sent = refl; pending = refl; items = refl; next = refl }) (λ p. p)
        (record { sent = refl; pending = refl; items = refl; next = refl }) (λ p. p))

  pub Advances-on_connection_timeout :
      (s : Provider) → IsConsistent s → Advances o s (on_connection_timeout o s)
  unfolding on_connection_timeout get_status
  Advances-on_connection_timeout s v = elim (Bool-cases (is_connected (get_status s))) [
    | inl up ↦ rw up (
        Advances-SameCore v (record { sent = refl; pending = refl; items = refl; next = refl })
          (λ p. p))
    | inr down ↦ (on_connection_timeout-IsDrained s v down).0
  ]

  pub is_reconnecting-clear_queues :
      (s : Provider) → IsConsistent s → (clear_queues o s).is_reconnecting ≡ s.is_reconnecting
  unfolding clear_queues
  is_reconnecting-clear_queues s v =
      (reject_all_requests-IsDrained o _ (record s { connection_timer = false })
        (IsConsistent-SameCore {s = s}
          (record { sent = refl; pending = refl; items = refl; next = refl }) v)).2.reconnecting
