-- ===== src/Socket/Expiring.antt =====
-- The deadline and the caller's signal of a request: `onAbort` of
-- packages/web3-utils/src/socket_provider.ts.
use mathlib.Core.Path.{fun_ext}
use web3_js.Common.{
  ℕ, ◌≡◌, ◌≢◌, refl, Bool, true, false, none, some, arith, nat_eq, nat_eq_iff, if◌then◌else◌, inl,
  inr, Bool-cases, Option-cases, ap, sym, ◌∙◌, subst,
}
use web3_js.JsMap.{among}
use web3_js.JsonRpc.{JsonRpcId, Response, id_eq_instance}
use web3_js.Fault.{Fault, request_timeout}
use web3_js.Deferred.{Deferred, pending, rejected, reject}
use web3_js.Socket.State.{Abort, Item, Lifecycle, Options, Provider, put_item}
use web3_js.Socket.Settle.{dispose, find_item, settle_request, rejecting}
use web3_js.Socket.Effects.{Settled, closed, settle_request-some}
use web3_js.Socket.Deadline.{
  primary_id, method_of, dispose_item, run_on_abort, abort_item, on_deadline, on_signal,
}
use web3_js.Socket.Consistent.{IsConsistent, IsOpen, Owns, find_item-Settled}
use web3_js.Socket.Advance.{Advances, Advances-refl, Advances-trans, Advances-settle_request}

promise-reject :
    (e : Fault) (d : Deferred Response) → d.promise ≡ pending → (reject e d).promise ≡ rejected e
unfolding reject
promise-reject e d p = ground arith

-- The abort reason changes, and no cleanup has run.
pub record SameAbort (a b : Abort) : Type 0 where
  pub timer : b.timer ≡ a.timer
  pub listening : b.listening ≡ a.listening
  pub disposed : b.disposed ≡ a.disposed

abbrev mark : ℕ → Abort → Provider → Provider
mark h b s = put_item h (record (s.items h) { abort = b }) s

put_item_self : (h : ℕ) (item : Item) (s : Provider) → item ≡ s.items h → put_item h item s ≡ s
put_item_self h item s p =
    ap (λ (f : ℕ → Item). record s { items = f }) (fun_ext λ j. ground (arith, nat_eq_iff h j))

dispose_item_self :
    (h : ℕ) (s : Provider) → (s.items h).abort.disposed ≡ true → dispose_item h s ≡ s
unfolding dispose
dispose_item_self h s p = put_item_self h _ s (
    ap (λ (a : Abort). record (s.items h) { abort = a })
      (ap (λ (d : Bool). if d then (s.items h).abort else stopped) p))
  where
    stopped : Abort
    stopped = record (s.items h).abort { disposed = true; timer = false; listening = false }

module _ (s : Provider) (h : ℕ) (b : Abort) (lc : Lifecycle) (v : IsConsistent s)
    (live : (s.items h).lifecycle ≡ some lc) (same : SameAbort (s.items h).abort b) where
  at : (j : ℕ) → ((mark h b s).items j).lifecycle ≡ (s.items j).lifecycle
  at j = ground (arith, nat_eq_iff h j)

  mark-owner : (id : JsonRpcId) (j : ℕ) → Owns s.items j id → Owns (mark h b s).items j id
  mark-owner id j w = record { lifecycle = w.lifecycle; live = at j ∙ w.live; has_id = w.has_id }

  marked : Item
  marked = record (s.items h) { abort = b }

  marked-IsOpen :
      (l : Lifecycle) → IsOpen (s.items h) l → IsOpen (record (s.items h) { abort = b }) l
  marked-IsOpen l w = record {
    unsettled = w.unsettled;
    owns_primary = w.owns_primary;
    promise_pending = w.promise_pending;
    attached = w.attached;
    armed = same.timer ∙ w.armed;
    undisposed = same.disposed ∙ w.undisposed;
  }

  mark-opened :
      (j : ℕ) (l : Lifecycle)
      → ((mark h b s).items j).lifecycle ≡ some l
      → IsOpen ((mark h b s).items j) l
  mark-opened j l p = elim (Bool-cases (nat_eq h j)) [
    | inl here ↦ rw here (marked-IsOpen l (v.opened h l (ground (arith, at j, nat_eq_iff h j))))
    | inr other ↦ rw other (v.opened j l (sym (at j) ∙ p))
  ]

  -- An item without a lifecycle is another item.
  other_of : (j : ℕ) → ((mark h b s).items j).lifecycle ≡ none → nat_eq h j ≡ false
  other_of j p = ground (arith, at j, nat_eq_iff h j)

  mark-IsConsistent : IsConsistent (mark h b s)
  unfolding find_item
  mark-IsConsistent = record {
    one_entry = v.one_entry;
    queue_owned = λ id j p. mark-owner id j (v.queue_owned id j p);
    pending_owned = λ id j p. mark-owner id j (v.pending_owned id j p);
    queued = λ j l id p. v.queued j l id (sym (at j) ∙ p);
    opened = mark-opened;
    quiet = λ j p. rw (other_of j p) (v.quiet j (sym (at j) ∙ p));
    answered = λ j p q. rw (other_of j p) (v.answered j (sym (at j) ∙ p) q);
    fresh = λ j p. at j ∙ v.fresh j p;
  }

  Advances-mark : (o : Options) → Advances o s (mark h b s)
  Advances-mark o = record {
    consistent = mark-IsConsistent;
    history = λ j p q. rw (other_of j (at j ∙ q)) refl;
    grows = omega arith;
    bounded = λ p. p;
    attempts = λ p. p;
  }

  -- The whole of `controller.abort` for an item in flight.
  module _ (o : Options) (reason : Fault) where
    aborted-Settled :
        Settled
          (mark h b s)
          h
          lc
          (rejecting reason)
          (settle_request o (primary_id (s.items h).payload) (rejecting reason) (mark h b s)).0
    unfolding find_item
    aborted-Settled =
        let w = v.opened h lc live in
        (settle_request-some o (mark h b s) (primary_id (s.items h).payload) (rejecting reason) h lc
          (v.queued h lc (primary_id (s.items h).payload) live w.owns_primary) (at h ∙ live)
          w.unsettled).0

    settled_state : Provider
    settled_state =
        (settle_request o (primary_id (s.items h).payload) (rejecting reason) (mark h b s)).0

    ended_item :
        settled_state.items h ≡ closed (rejecting reason) (record (s.items h) { abort = b })
    unfolding settled_state
    ended_item =
        ap (λ (f : ℕ → Item). f h) aborted-Settled.items ∙ rw ((nat_eq_iff h h).1 refl) refl

    dispose_disposed : (dispose b).disposed ≡ true
    unfolding dispose
    dispose_disposed = ground arith

    abort_item-eq : abort_item o h reason b s ≡ settled_state
    unfolding abort_item settled_state
    abort_item-eq =
        let id = primary_id (s.items h).payload in
        ap (λ (on : Bool). dispose_item h (run_on_abort o on id reason (mark h b s)))
          (v.opened h lc live).attached
        ∙ dispose_item_self h settled_state
            (subst (λ (i : Item). i.abort.disposed ≡ true) (sym ended_item) dispose_disposed)

    Advances-abort_item : Advances o s (abort_item o h reason b s)
    unfolding settled_state
    Advances-abort_item = rw abort_item-eq (
        Advances-trans (Advances-mark o) (
          Advances-settle_request (mark h b s) (primary_id (s.items h).payload) (rejecting reason)
            mark-IsConsistent))

    -- The request is rejected with the reason, and its ids are free.
    abort_item-outcome :
        (((abort_item o h reason b s).items h).deferred.promise ≡ rejected reason)
        × ((id : JsonRpcId)
            → among id lc.ids ≡ true
            → find_item (abort_item o h reason b s) id ≡ none)
        × ((j : ℕ) → h ≢ j → (abort_item o h reason b s).items j ≡ s.items j)
    abort_item-outcome = rw abort_item-eq (
      ap (λ (i : Item). i.deferred.promise) ended_item
          ∙ promise-reject reason (s.items h).deferred (v.opened h lc live).promise_pending,
      λ id m. unfold settled_state in ground (arith, find_item-Settled aborted-Settled id),
      λ j other.
          unfold settled_state in
          ap (λ (f : ℕ → Item). f j) aborted-Settled.items ∙ ground (arith, nat_eq_iff h j),
    )

module _ (o : Options) (s : Provider) (h : ℕ) (v : IsConsistent s) where
  -- A timer that still runs belongs to an unsettled request.
  live_of_timer :
      (s.items h).abort.timer ≡ true → (lc : Lifecycle) × ((s.items h).lifecycle ≡ some lc)
  live_of_timer p = elim (Option-cases (s.items h).lifecycle) [
    | inl ended ↦ absurd (ground (arith, (v.quiet h ended).no_timer))
    | inr there ↦ there
  ]

  live_of_listening :
      (s.items h).abort.listening ≡ true → (lc : Lifecycle) × ((s.items h).lifecycle ≡ some lc)
  live_of_listening p = elim (Option-cases (s.items h).lifecycle) [
    | inl ended ↦ absurd (ground (arith, (v.quiet h ended).no_caller))
    | inr there ↦ there
  ]

  expired : Abort
  expired = record (s.items h).abort {
    timed_out = true;
    aborted = some (request_timeout (s.items h).abort.timeout (method_of (s.items h).payload));
  }

  signalled : Fault → Abort
  signalled reason = record (s.items h).abort { aborted = some reason }

  deadline_fault : Fault
  deadline_fault = request_timeout (s.items h).abort.timeout (method_of (s.items h).payload)

  on_deadline-eq :
      (b : Bool)
      → (s.items h).abort.timer ≡ b
      → on_deadline o h s ≡ (if b then abort_item o h deadline_fault expired s else s)
  unfolding on_deadline expired deadline_fault
  on_deadline-eq b p = ap (λ (c : Bool). if c then abort_item o h deadline_fault expired s else s) p

  on_signal-eq :
      (reason : Fault) (b : Bool)
      → (s.items h).abort.listening ≡ b
      → on_signal o h reason s ≡ (if b then abort_item o h reason (signalled reason) s else s)
  unfolding on_signal signalled
  on_signal-eq reason b p =
      ap (λ (c : Bool). if c then abort_item o h reason (signalled reason) s else s) p

  expired-SameAbort : SameAbort (s.items h).abort expired
  unfolding expired
  expired-SameAbort = record { timer = refl; listening = refl; disposed = refl }

  signalled-SameAbort : (reason : Fault) → SameAbort (s.items h).abort (signalled reason)
  unfolding signalled
  signalled-SameAbort reason = record { timer = refl; listening = refl; disposed = refl }

  pub Advances-on_deadline : Advances o s (on_deadline o h s)
  Advances-on_deadline = elim (Bool-cases (s.items h).abort.timer) [
    | inr stopped ↦ rw (on_deadline-eq false stopped) (Advances-refl v)
    | inl runs ↦
        let (lc, live) = live_of_timer runs in
        rw (on_deadline-eq true runs)
          (Advances-abort_item s h expired lc v live expired-SameAbort o deadline_fault)
  ]

  pub Advances-on_signal : (reason : Fault) → Advances o s (on_signal o h reason s)
  Advances-on_signal reason = elim (Bool-cases (s.items h).abort.listening) [
    | inr gone ↦ rw (on_signal-eq reason false gone) (Advances-refl v)
    | inl listens ↦
        let (lc, live) = live_of_listening listens in
        rw (on_signal-eq reason true listens) (
          Advances-abort_item s h (signalled reason) lc v live (signalled-SameAbort reason) o
            reason)
  ]

  -- In a consistent state, the deadline of an unsettled request rejects it with a timeout that
  -- names its method, frees its ids and touches no other request; the deadline of a request that
  -- has ended does nothing.
  pub on_deadline_lem :
      ((lc : Lifecycle)
        → (s.items h).lifecycle ≡ some lc
        → (((on_deadline o h s).items h).deferred.promise
            ≡ rejected (request_timeout (s.items h).abort.timeout (method_of (s.items h).payload)))
          × ((id : JsonRpcId) → among id lc.ids ≡ true → find_item (on_deadline o h s) id ≡ none)
          × ((j : ℕ) → h ≢ j → (on_deadline o h s).items j ≡ s.items j))
      × ((s.items h).lifecycle ≡ none → on_deadline o h s ≡ s)
  unfolding deadline_fault
  on_deadline_lem = (
    λ lc live.
        rw (on_deadline-eq true (v.opened h lc live).armed)
          (abort_item-outcome s h expired lc v live expired-SameAbort o deadline_fault),
    λ ended. on_deadline-eq false (v.quiet h ended).no_timer,
  )
