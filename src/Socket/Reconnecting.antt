-- ===== src/Socket/Reconnecting.antt =====
-- `_reconnect` of packages/web3-utils/src/socket_provider.ts.
use web3_js.Common.{
  ℕ, ◌≢◌, sym, ◌∙◌, some, ◌+◌, ◌≤◌, ◌<◌, ◌≡◌, refl, true, false, none, List, [], ◌∷◌, arith, ltb,
  ltb→lt, inl, inr, Bool-cases, Option-cases,
}
use web3_js.JsMap.{JsMap, keys, size, get}
use web3_js.JsMap.Laws.{among-keys_absent, among-keys, nil_of_absent, get-delete_all}
use web3_js.JsonRpc.{JsonRpcId, id_eq_instance}
use web3_js.Fault.{Fault, pending_requests_on_reconnecting}
use web3_js.Socket.State.{Options, Provider, World}
use web3_js.Socket.Settle.{Ending, find_item, rejecting, reject_each, settle_request}
use web3_js.Socket.Effects.{settle_request-none, settle_request-some}
use web3_js.Socket.Connection.{reconnect, reject_sent, retry, give_up}
use web3_js.Socket.Consistent.{IsConsistent, IsConsistent-SameCore, settle_request-IsConsistent}
use web3_js.Socket.Teardown.{
  OnlyEnds, OnlyEnds-refl, IsDrained, reject_each-IsConsistent, find_item-reject_each,
}
use web3_js.Deferred.{rejected}
use web3_js.Socket.Rejecting.{reject_each-rejects, reject_each-others}
use web3_js.Socket.Advance.{
  Advances, Advances-refl, Advances-trans, Advances-OnlyEnds, Advances-SameCore,
}
use web3_js.Socket.Closing.{
  clear_queues-IsDrained, is_reconnecting-clear_queues, IsDrained-SameCore,
}

module _ (o : Options) where
  sent_none-settle_request :
      (s : Provider) (id j : JsonRpcId) (e : Ending)
      → IsConsistent s
      → get s.sent_queue j ≡ none
      → get (settle_request o id e s).0.sent_queue j ≡ none
  sent_none-settle_request s id j e v out = elim (Option-cases (find_item s id)) [
    | inl nothing ↦ rw (settle_request-none o s id e nothing) out
    | inr (h, found) ↦
        let w = v.queue_owned id h found in
        let c =
          (settle_request-some o s id e h w.lifecycle found w.live
            (v.opened h w.lifecycle w.live).unsettled).0 in
        rw c.sent (ground (arith, get-delete_all w.lifecycle.ids s.sent_queue j))
  ]

  sent_none-reject_each :
      (ids : List JsonRpcId) (e : Fault) (s : Provider) (j : JsonRpcId)
      → IsConsistent s
      → get s.sent_queue j ≡ none
      → get (reject_each o ids e s).sent_queue j ≡ none
  unfolding reject_each
  sent_none-reject_each [] e s j v out = out
  sent_none-reject_each (id ∷ ids) e s j v out =
      sent_none-reject_each ids e (settle_request o id (rejecting e) s).0 j
        (settle_request-IsConsistent o s id (rejecting e) v)
        (sent_none-settle_request s id j (rejecting e) v out)

  sent_of_find_item :
      (s : Provider) (j : JsonRpcId) → find_item s j ≡ none → get s.sent_queue j ≡ none
  unfolding find_item
  sent_of_find_item s j p = ground arith

  reject_sent-sent_queue : (s : Provider) → IsConsistent s → (reject_sent o s).sent_queue ≡ []
  unfolding reject_sent
  reject_sent-sent_queue s v = elim (Bool-cases (ltb 0 (size s.sent_queue))) [
    | inl some_sent ↦ rw some_sent (nil_of_absent _ gone)
    | inr none_sent ↦ rw none_sent (grind arith)
  ]
    where
      gone :
          (j : JsonRpcId)
          → get (reject_each o (keys s.sent_queue) pending_requests_on_reconnecting s).sent_queue j
            ≡ none
      gone j = elim (Option-cases (get s.sent_queue j)) [
        | inl out ↦ sent_none-reject_each (keys s.sent_queue) _ s j v out
        | inr (h, here) ↦
            sent_of_find_item _ j
              (find_item-reject_each o (keys s.sent_queue) _ s j v (among-keys s.sent_queue j here))
      ]

  reject_sent-OnlyEnds :
      (s : Provider)
      → IsConsistent s
      → IsConsistent (reject_sent o s) × OnlyEnds s (reject_sent o s)
  unfolding reject_sent
  reject_sent-OnlyEnds s v = elim (Bool-cases (ltb 0 (size s.sent_queue))) [
    | inl some_sent ↦ rw some_sent (reject_each-IsConsistent o (keys s.sent_queue) _ s v)
    | inr none_sent ↦ rw none_sent (v, OnlyEnds-refl s)
  ]

  sent_found :
      (s : Provider) (j : JsonRpcId) (h : ℕ) → get s.sent_queue j ≡ some h → find_item s j ≡ some h
  unfolding find_item
  sent_found s j h p = ground arith

  reject_sent-rejects :
      (s : Provider) (j : JsonRpcId) (h : ℕ)
      → IsConsistent s
      → get s.sent_queue j ≡ some h
      → ((reject_sent o s).items h).deferred.promise ≡ rejected pending_requests_on_reconnecting
  unfolding reject_sent get
  reject_sent-rejects s j h v here = elim (Bool-cases (ltb 0 (size s.sent_queue))) [
    | inl some_sent ↦ rw some_sent (
        reject_each-rejects o (keys s.sent_queue) _ s j h v (among-keys s.sent_queue j here)
          (sent_found s j h here))
    | inr none_sent ↦ absurd (ground (arith, get-empty s.sent_queue none_sent))
  ]
    where
      get-empty : (m : JsMap JsonRpcId ℕ) → ltb 0 (size m) ≡ false → get m j ≡ none
      get-empty [] p = refl
      get-empty (e ∷ m) p = absurd (ground arith)

  reject_sent-others :
      (s : Provider) (h : ℕ)
      → IsConsistent s
      → ((j : JsonRpcId) → get s.sent_queue j ≢ some h)
      → (reject_sent o s).items h ≡ s.items h
  unfolding reject_sent
  reject_sent-others s h v apart = elim (Bool-cases (ltb 0 (size s.sent_queue))) [
    | inl some_sent ↦ rw some_sent (
        reject_each-others o (keys s.sent_queue) _ s h v (λ j m found.
          elim (Option-cases (get s.sent_queue j)) [
            | inl out ↦ absurd (ground (arith, among-keys_absent s.sent_queue j out))
            | inr (k, here) ↦ apart j (here ∙ sym (sent_found s j k here) ∙ found)
          ]))
    | inr none_sent ↦ rw none_sent refl
  ]

  started : Provider → Provider
  started s = reject_sent o (record s { is_reconnecting = true })

  module _ (s : Provider) (v : IsConsistent s) where
    started-OnlyEnds :
        IsConsistent (started s) × OnlyEnds (record s { is_reconnecting = true }) (started s)
    unfolding started
    started-OnlyEnds =
        reject_sent-OnlyEnds (record s { is_reconnecting = true })
          (IsConsistent-SameCore {s = s}
            (record { sent = refl; pending = refl; items = refl; next = refl }) v)

    started-sent_queue : (started s).sent_queue ≡ []
    unfolding started
    started-sent_queue =
        reject_sent-sent_queue (record s { is_reconnecting = true })
          (IsConsistent-SameCore {s = s}
            (record { sent = refl; pending = refl; items = refl; next = refl }) v)

    started-rejects :
        (j : JsonRpcId) (h : ℕ)
        → get s.sent_queue j ≡ some h
        → ((started s).items h).deferred.promise ≡ rejected pending_requests_on_reconnecting
    unfolding started
    started-rejects j h =
        reject_sent-rejects (record s { is_reconnecting = true }) j h
          (IsConsistent-SameCore {s = s}
            (record { sent = refl; pending = refl; items = refl; next = refl }) v)

    started-others :
        (h : ℕ) → ((j : JsonRpcId) → get s.sent_queue j ≢ some h) → (started s).items h ≡ s.items h
    unfolding started
    started-others h =
        reject_sent-others (record s { is_reconnecting = true }) h
          (IsConsistent-SameCore {s = s}
            (record { sent = refl; pending = refl; items = refl; next = refl }) v)

    Advances-started : Advances o s (started s)
    Advances-started =
        Advances-trans
          (Advances-SameCore {t = record s { is_reconnecting = true }} v
            (record { sent = refl; pending = refl; items = refl; next = refl }) (λ p. p))
          (Advances-OnlyEnds started-OnlyEnds.0 started-OnlyEnds.1)

  Advances-retry :
      (w : World) (s : Provider)
      → IsConsistent s
      → s.reconnect_attempts < o.max_attempts
      → Advances o s (retry o w s)
  unfolding retry
  Advances-retry w s v less =
      Advances-SameCore v (record { sent = refl; pending = refl; items = refl; next = refl })
        (λ p. omega arith)

  give_up-IsDrained :
      (s : Provider)
      → IsConsistent s
      → Advances o s (give_up o s)
        × IsDrained (give_up o s)
        × ((give_up o s).is_reconnecting ≡ false)
  unfolding give_up
  give_up-IsDrained s v =
      let s' = record s { is_reconnecting = false } in
      let pre =
        Advances-SameCore {o = o} {t = s'} v
          (record { sent = refl; pending = refl; items = refl; next = refl }) (λ p. p) in
      let (a, d) = clear_queues-IsDrained o s' pre.consistent in
      (
        Advances-trans pre (
            Advances-trans a (
              Advances-SameCore a.consistent
                (record { sent = refl; pending = refl; items = refl; next = refl }) (λ p. p))),
        IsDrained-SameCore (record { sent = refl; pending = refl; items = refl; next = refl }) d,
        is_reconnecting-clear_queues o s' pre.consistent,
      )

  pub Advances-reconnect :
      (w : World) (s : Provider) → IsConsistent s → Advances o s (reconnect o w s)
  unfolding reconnect started
  Advances-reconnect w s v =
      let first = Advances-started s v in
      elim (Bool-cases s.is_reconnecting) [
        | inl busy ↦ simp busy (Advances-refl v)
        | inr free ↦ elim (Bool-cases (ltb (started s).reconnect_attempts o.max_attempts)) [
          | inl more ↦
              simp (free, more)
                (Advances-trans first
                  (Advances-retry w (started s) first.consistent (ltb→lt _ _ more)))
          | inr last ↦
              simp (free, last)
                (Advances-trans first (give_up-IsDrained (started s) first.consistent).0)
        ]
      ]

  -- When no reconnection runs and the state is consistent: while attempts are left, every request
  -- that was sent is rejected with the error for reconnecting, every other request is as it was,
  -- nothing stays in the sent queue, one more attempt is counted and a reconnection is under way;
  -- at the bound nothing stays in flight and no reconnection is under way.
  pub reconnect_lem :
      (w : World) (s : Provider)
      → IsConsistent s
      → s.is_reconnecting ≡ false
      → (s.reconnect_attempts < o.max_attempts
          → ((reconnect o w s).sent_queue ≡ [])
            × ((reconnect o w s).is_reconnecting ≡ true)
            × ((reconnect o w s).reconnect_attempts ≡ s.reconnect_attempts + 1)
            × ((j : JsonRpcId) (h : ℕ)
                → get s.sent_queue j ≡ some h
                → ((reconnect o w s).items h).deferred.promise
                  ≡ rejected pending_requests_on_reconnecting)
            × ((h : ℕ)
                → ((j : JsonRpcId) → get s.sent_queue j ≢ some h)
                → (reconnect o w s).items h ≡ s.items h))
        × (o.max_attempts ≤ s.reconnect_attempts
            → IsDrained (reconnect o w s) × ((reconnect o w s).is_reconnecting ≡ false))
  unfolding reconnect started
  reconnect_lem w s v free =
      let c = (started-OnlyEnds s v).1 in
      let first = Advances-started s v in
      (
        λ less.
            let more : ltb (started s).reconnect_attempts o.max_attempts ≡ true =
              ground (arith, c.attempts) in
            rw free (
              rw more (
                unfold retry in
                (
                  started-sent_queue s v,
                  c.reconnecting,
                  ground (arith, c.attempts),
                  started-rejects s v,
                  started-others s v,
                ))),
        λ most.
            let last : ltb (started s).reconnect_attempts o.max_attempts ≡ false =
              ground (arith, c.attempts) in
            let g = give_up-IsDrained (started s) first.consistent in rw free (rw last (g.1, g.2)),
      )
