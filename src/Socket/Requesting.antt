-- ===== src/Socket/Requesting.antt =====
-- `request` of packages/web3-utils/src/socket_provider.ts, on each outcome.
use web3_js.Common.{
  ℕ, ◌≡◌, refl, true, false, Option, none, some, List, arith, inl, inr, Bool-cases, Option-cases,
  ap,
}
use web3_js.JsonRpc.{JsonRpcId, id_eq_instance}
use web3_js.JsMap.{is_some}
use web3_js.Fault.{Result, ok, err, connection_not_open}
use web3_js.Socket.State.{SocketPayload, Abort, Item, Options, Provider, World, get_status}
use web3_js.Socket.Settle.{rejecting, notify_diagnostics}
use web3_js.Socket.Connection.{connect, is_disconnected, is_connecting}
use web3_js.Socket.Request.{
  Signal, live, aborted_with, RequestOptions, compose_abort_signal, register, send_or_settle,
  accept, admit, request, primary, admitted, after_connect,
}
use web3_js.Socket.Consistent.{IsConsistent}
use web3_js.Socket.Admission.{IsAdmitted, admit-IsAdmitted, IsLive}
use web3_js.Socket.Registration.{
  register-Registered, register-IsConsistent, in_flight_count-register,
}
use web3_js.Socket.Advance.{
  Advances, Advances-refl, Advances-trans, Advances-SameCore, Advances-settle_request,
}
use web3_js.Socket.Closing.{Advances-connect}

compose_armed :
    (t : ℕ) (signal : Option Signal)
    → IsLive signal
    → ((compose_abort_signal t signal).timer ≡ true)
      × ((compose_abort_signal t signal).disposed ≡ false)
unfolding compose_abort_signal
compose_armed t none h = (refl, refl)
compose_armed t (some live) h = (refl, refl)
compose_armed t (some (aborted_with e)) h = absurd h

module _ (o : Options) (w : World) where
  pub Advances-send_or_settle :
      (id : JsonRpcId) (payload : SocketPayload) (s : Provider)
      → IsConsistent s
      → Advances o s (send_or_settle o w id payload s)
  unfolding send_or_settle
  Advances-send_or_settle id payload s v = elim (Bool-cases (is_disconnected (get_status s))) [
    | inl gone ↦ rw gone (Advances-settle_request s id (rejecting connection_not_open) v)
    | inr up ↦ elim (Option-cases (w.sending payload)) [
      | inl sent ↦
          rw (up, sent)
            (Advances-SameCore v (record { sent = refl; pending = refl; items = refl; next = refl })
              (λ p. p))
      | inr (e, thrown) ↦ rw (up, thrown) (Advances-settle_request s id (rejecting e) v)
    ]
  ]

  attempts-register :
      (payload : SocketPayload) (ids : List JsonRpcId) (abort : Abort) (s : Provider)
      → (register o payload ids abort s).reconnect_attempts ≡ s.reconnect_attempts
  unfolding register notify_diagnostics
  attempts-register payload ids abort s = ground arith

  Advances-register :
      (payload : SocketPayload) (options : RequestOptions) (s : Provider) (ids : List JsonRpcId)
      (t : ℕ)
      → IsConsistent s
      → IsAdmitted o payload options s ids t
      → Advances o s (register o payload ids (compose_abort_signal t options.signal) s)
  Advances-register payload options s ids t v a =
      let abort = compose_abort_signal t options.signal in
      let c = register-Registered o payload ids abort s in
      let (armed, undisposed) = compose_armed t options.signal a.is_live in
      record {
        consistent =
            register-IsConsistent o payload ids abort s v a.absent a.has_primary armed undisposed;
        history = λ h p q. ground (arith, ap (λ (f : ℕ → Item). f h) c.items);
        grows = omega (arith, c.next);
        bounded = λ p. omega (arith, in_flight_count-register o payload ids abort s, a.fits);
        attempts = λ p. omega (arith, attempts-register payload ids abort s);
      }

  Advances-accept :
      (payload : SocketPayload) (options : RequestOptions) (s : Provider) (ids : List JsonRpcId)
      (t : ℕ)
      → IsConsistent s
      → IsAdmitted o payload options s ids t
      → Advances o s (accept o w payload ids (compose_abort_signal t options.signal) s)
  unfolding accept
  Advances-accept payload options s ids t v a =
      let r = Advances-register payload options s ids t v a in
      elim (Bool-cases (is_connecting (get_status s))) [
        | inl waits ↦ rw waits r
        | inr goes ↦
            rw goes
              (Advances-trans r (Advances-send_or_settle (primary ids) payload _ r.consistent))
      ]

  Advances-admitted :
      (payload : SocketPayload) (options : RequestOptions) (s : Provider)
      (r : Result (List JsonRpcId × ℕ))
      → IsConsistent s
      → admit o payload options s ≡ r
      → Advances o s (admitted o w payload options r s).1
  Advances-admitted payload options s (err e) v p = Advances-refl v
  Advances-admitted payload options s (ok (ids, t)) v p =
      Advances-accept payload options s ids t v (admit-IsAdmitted o payload options s ids t p)

  Advances-after_connect :
      (payload : SocketPayload) (options : RequestOptions) (r : Result (Unit {0})) (s : Provider)
      → IsConsistent s
      → Advances o s (after_connect o w payload options (r, s)).1
  Advances-after_connect payload options (err e) s v = Advances-refl v
  Advances-after_connect payload options (ok u) s v = Advances-admitted payload options s _ v refl

  pub Advances-request :
      (payload : SocketPayload) (options : RequestOptions) (s : Provider)
      → IsConsistent s
      → Advances o s (request o w payload options s).1
  unfolding request
  Advances-request payload options s v = elim (Bool-cases (is_some s.socket)) [
    | inr none_yet ↦ simp none_yet (Advances-refl v)
    | inl there ↦ elim (Bool-cases (is_disconnected (get_status s))) [
      | inl down ↦
          let c = Advances-connect o w s v in
          simp (there, down)
            (Advances-trans c (
              Advances-after_connect payload options (connect o w s).0 (connect o w s).1
                c.consistent))
      | inr up ↦ simp (there, up) (Advances-after_connect payload options (ok tt) s v)
    ]
  ]
