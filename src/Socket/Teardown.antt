-- ===== src/Socket/Teardown.antt =====
-- Rejecting every request in flight: `_rejectAllRequests` and what stands on it (`disconnect`,
-- `reset`, `_clearQueues`, the connection timeout, giving up on reconnecting).
use web3_js.Common.{
  ℕ, ◌≤◌, ◌<◌, ◌≡◌, ◌≢◌, refl, true, none, some, List, [], ◌∷◌, ◌++◌, arith, ◌==◌, ◌||◌, inl, inr,
  Bool-cases, Option-cases, ap, ◌∙◌, subst,
}
use web3_js.JsMap.{get, among, keys}
use web3_js.JsMap.Laws.{among-keys, nil_of_absent, size-delete_all}
use web3_js.JsonRpc.{JsonRpcId, id_eq_instance}
use web3_js.Fault.{Fault}
use web3_js.Deferred.{pending}
use web3_js.Socket.State.{Item, Lifecycle, Options, Provider}
use web3_js.Socket.Settle.{
  Ending, rejecting, settle_request, find_item, reject_each, reject_all_requests, in_flight_count,
}
use web3_js.Socket.Deadline.{primary_id}
use web3_js.Socket.Effects.{settle_request-none, settle_request-some, Settled}
use web3_js.Socket.Consistent.{
  IsConsistent, IsQuiet, settle_request-IsConsistent, find_item-Settled,
}

-- From `s` to `t` requests only end: no id comes into a queue, and an item that has ended stays as
-- it is.
pub record OnlyEnds (s t : Provider) : Type 0 where
  pub none_new : (id : JsonRpcId) → find_item s id ≡ none → find_item t id ≡ none
  pub ended_kept : (h : ℕ) → (s.items h).lifecycle ≡ none → t.items h ≡ s.items h
  pub next : t.next_item ≡ s.next_item
  pub socket : t.socket ≡ s.socket
  pub attempts : t.reconnect_attempts ≡ s.reconnect_attempts
  pub reconnecting : t.is_reconnecting ≡ s.is_reconnecting
  pub count : in_flight_count t ≤ in_flight_count s

pub OnlyEnds-refl : (s : Provider) → OnlyEnds s s
OnlyEnds-refl s = record {
  none_new = λ id p. p;
  ended_kept = λ h p. refl;
  next = refl;
  socket = refl;
  attempts = refl;
  reconnecting = refl;
  count = omega arith;
}

pub OnlyEnds-trans : {s t u : Provider} → OnlyEnds s t → OnlyEnds t u → OnlyEnds s u
OnlyEnds-trans a b = record {
  none_new = λ id p. b.none_new id (a.none_new id p);
  ended_kept = λ h p. b.ended_kept h (rw (a.ended_kept h p) p) ∙ a.ended_kept h p;
  next = b.next ∙ a.next;
  socket = b.socket ∙ a.socket;
  attempts = b.attempts ∙ a.attempts;
  reconnecting = b.reconnecting ∙ a.reconnecting;
  count = omega (arith, a.count, b.count);
}

in_flight_count-Settled :
    {s t : Provider} {h : ℕ} {lc : Lifecycle} {e : Ending}
    → Settled s h lc e t
    → in_flight_count t ≤ in_flight_count s
in_flight_count-Settled {s} {t} {lc} c =
    rw (c.sent, c.pending)
      (omega (arith, size-delete_all lc.ids s.pending_queue, size-delete_all lc.ids s.sent_queue))

module _ (o : Options) where
  pub settle_request-OnlyEnds :
      (s : Provider) (id : JsonRpcId) (e : Ending)
      → IsConsistent s
      → OnlyEnds s (settle_request o id e s).0
  settle_request-OnlyEnds s id e v = elim (Option-cases (find_item s id)) [
    | inl out ↦ rw (settle_request-none o s id e out) (OnlyEnds-refl s)
    | inr (h, found) ↦
        let w = v.queue_owned id h found in
        let c =
          (settle_request-some o s id e h w.lifecycle found w.live
            (v.opened h w.lifecycle w.live).unsettled).0 in
        record {
          none_new = λ j p. ground (arith, find_item-Settled c j);
          ended_kept = λ j p. ground (arith, ap (λ (f : ℕ → Item). f j) c.items, w.live);
          next = c.next;
          socket = c.socket;
          attempts = c.attempts;
          reconnecting = c.reconnecting;
          count = in_flight_count-Settled c;
        }
  ]

  -- After a call for an id, the id stands in no queue.
  pub find_item-settle_request :
      (s : Provider) (id : JsonRpcId) (e : Ending)
      → IsConsistent s
      → find_item (settle_request o id e s).0 id ≡ none
  find_item-settle_request s id e v = elim (Option-cases (find_item s id)) [
    | inl out ↦ rw (settle_request-none o s id e out) out
    | inr (h, found) ↦
        let w = v.queue_owned id h found in
        let c =
          (settle_request-some o s id e h w.lifecycle found w.live
            (v.opened h w.lifecycle w.live).unsettled).0 in
        ground (arith, find_item-Settled c id, w.has_id)
  ]

  pub reject_each-IsConsistent :
      (ids : List JsonRpcId) (e : Fault) (s : Provider)
      → IsConsistent s
      → IsConsistent (reject_each o ids e s) × OnlyEnds s (reject_each o ids e s)
  unfolding reject_each
  reject_each-IsConsistent [] e s v = (v, OnlyEnds-refl s)
  reject_each-IsConsistent (id ∷ ids) e s v =
      let s' = (settle_request o id (rejecting e) s).0 in
      let (v', k) =
        reject_each-IsConsistent ids e s' (settle_request-IsConsistent o s id (rejecting e) v) in
      (v', OnlyEnds-trans (settle_request-OnlyEnds s id (rejecting e) v) k)

  pub find_item-reject_each :
      (ids : List JsonRpcId) (e : Fault) (s : Provider) (j : JsonRpcId)
      → IsConsistent s
      → among j ids ≡ true
      → find_item (reject_each o ids e s) j ≡ none
  unfolding reject_each
  find_item-reject_each [] e s j v p = absurd (ground arith)
  find_item-reject_each (id ∷ ids) e s j v p =
      let s' = (settle_request o id (rejecting e) s).0 in
      let v' = settle_request-IsConsistent o s id (rejecting e) v in
      elim (Bool-cases (id == j)) [
        | inl same ↦ (reject_each-IsConsistent ids e s' v').1.none_new j (
            subst (λ (i : JsonRpcId). find_item s' i ≡ none) ((id_eq_instance.same_iff id j).0 same)
              (find_item-settle_request s id (rejecting e) v))
        | inr other ↦ find_item-reject_each ids e s' j v' (ground arith)
      ]

among-append :
    (j : JsonRpcId) (xs ys : List JsonRpcId) → among j (xs ++ ys) ≡ (among j xs || among j ys)
among-append j [] ys = refl
among-append j (x ∷ xs) ys = ground (arith, among-append j xs ys)

-- Nothing is in flight: the queues are empty, every request made so far has its outcome, and no
-- deadline, no listener is left.
pub record IsDrained (s : Provider) : Type 0 where
  pub no_pending : s.pending_queue ≡ []
  pub no_sent : s.sent_queue ≡ []
  pub all_answered : (h : ℕ) → h < s.next_item → (s.items h).deferred.promise ≢ pending
  pub all_quiet : (h : ℕ) → IsQuiet (s.items h)

pub IsDrained-of_absent :
    (s : Provider) → IsConsistent s → ((id : JsonRpcId) → find_item s id ≡ none) → IsDrained s
unfolding find_item
IsDrained-of_absent s v out = record {
  no_pending = nil_of_absent s.pending_queue (λ id. ground (arith, out id));
  no_sent = nil_of_absent s.sent_queue (λ id. ground (arith, out id));
  all_answered = λ h p. v.answered h (ended h) p;
  all_quiet = λ h. v.quiet h (ended h);
}
  where
    ended : (h : ℕ) → (s.items h).lifecycle ≡ none
    ended h = elim (Option-cases (s.items h).lifecycle) [
      | inl p ↦ p
      | inr (lc, p) ↦ absurd (
          ground (
            arith,
            v.queued h lc (primary_id (s.items h).payload) p (v.opened h lc p).owns_primary,
            out (primary_id (s.items h).payload),
          ))
    ]

abbrev in_flight_ids : Provider → List JsonRpcId
in_flight_ids s = keys s.pending_queue ++ keys s.sent_queue

among-in_flight_ids :
    (s : Provider) (j : JsonRpcId) {h : ℕ}
    → find_item s j ≡ some h
    → among j (in_flight_ids s) ≡ true
unfolding find_item
among-in_flight_ids s j {h} p = elim (Option-cases (get s.sent_queue j)) [
  | inl out ↦ ground (
    arith,
    among-append j (keys s.pending_queue) (keys s.sent_queue),
    among-keys s.pending_queue j {v = h},
  )
  | inr (k, here) ↦ ground (
    arith,
    among-append j (keys s.pending_queue) (keys s.sent_queue),
    among-keys s.sent_queue j {v = k},
  )
]

-- After `_rejectAllRequests` nothing is in flight, and what had ended before keeps its outcome.
pub reject_all_requests-IsDrained :
    (o : Options) (e : Fault) (s : Provider)
    → IsConsistent s
    → IsConsistent (reject_all_requests o e s)
      × IsDrained (reject_all_requests o e s)
      × OnlyEnds s (reject_all_requests o e s)
unfolding reject_all_requests
reject_all_requests-IsDrained o e s v =
    let ids = in_flight_ids s in
    let (v', k) = reject_each-IsConsistent o ids e s v in
    (v', IsDrained-of_absent (reject_each o ids e s) v' gone, k)
  where
    gone : (j : JsonRpcId) → find_item (reject_each o (in_flight_ids s) e s) j ≡ none
    gone j = elim (Option-cases (find_item s j)) [
      | inl out ↦ (reject_each-IsConsistent o (in_flight_ids s) e s v).1.none_new j out
      | inr (h, found) ↦
          find_item-reject_each o (in_flight_ids s) e s j v (among-in_flight_ids s j found)
    ]
