-- ===== src/Socket/Registration.antt =====
-- Queueing a new request, in `request` of packages/web3-utils/src/socket_provider.ts.
use web3_js.Common.{
  ℕ, suc, ◌+◌, ◌≤◌, ◌<◌, ◌≡◌, ◌≢◌, ◌⊎◌, refl, true, false, none, some, List, arith, nat_eq,
  if◌then◌else◌, length, inl, inr, Bool-cases, ap, subst,
}
use web3_js.JsMap.{JsMap, get, among, set_all}
use web3_js.JsMap.Laws.{get-set_all, size-set_all, IsMap-set_all}
use web3_js.JsonRpc.{JsonRpcId, id_eq_instance}
use web3_js.Deferred.{pending, create_default}
use web3_js.Socket.State.{SocketPayload, Abort, Lifecycle, Item, Options, Provider}
use web3_js.Socket.Settle.{find_item, notify_diagnostics, in_flight_count}
use web3_js.Socket.Deadline.{primary_id}
use web3_js.Socket.Consistent.{IsConsistent, IsOpen, IsQuiet, Owns}
use web3_js.Socket.Request.{register, new_item}
use web3_js.Socket.Admission.{AreAbsent}

-- `t` is `s` with the item `item` for the ids `ids`, in one of the queues.
pub record Registered (s : Provider) (ids : List JsonRpcId) (item : Item) (t : Provider)
    : Type 0 where
  pub queue :
      ((t.pending_queue ≡ set_all s.pending_queue ids s.next_item) × (t.sent_queue ≡ s.sent_queue))
      ⊎ ((t.pending_queue ≡ s.pending_queue)
          × (t.sent_queue ≡ set_all s.sent_queue ids s.next_item))
  pub items : t.items ≡ (λ j. if nat_eq s.next_item j then item else s.items j)
  pub next : t.next_item ≡ suc s.next_item
  pub socket : t.socket ≡ s.socket

pub register-Registered :
    (o : Options) (payload : SocketPayload) (ids : List JsonRpcId) (abort : Abort) (s : Provider)
    → Registered s ids (new_item payload ids abort) (register o payload ids abort s)
unfolding register notify_diagnostics
register-Registered o payload ids abort s = ground arith

find_item-Registered :
    {s t : Provider} {ids : List JsonRpcId} {item : Item}
    → Registered s ids item t
    → AreAbsent s ids
    → (id : JsonRpcId)
    → find_item t id ≡ (if among id ids then some s.next_item else find_item s id)
unfolding find_item
find_item-Registered {s} {t} {ids} c free id =
    let law_p = get-set_all ids s.pending_queue id s.next_item in
    let law_s = get-set_all ids s.sent_queue id s.next_item in
    elim c.queue [
      | inl (p, q) ↦ rw (p, q) (ground (arith, law_p, free id))
      | inr (p, q) ↦ rw (p, q) (ground (arith, law_s, free id))
    ]

get_pending-Registered :
    {s t : Provider} {ids : List JsonRpcId} {item : Item}
    → Registered s ids item t
    → (id : JsonRpcId) (j : ℕ) → get t.pending_queue id ≡ some j
    → among id ids ≡ false
    → get s.pending_queue id ≡ some j
get_pending-Registered {s} {t} {ids} c id j h out =
    let law = get-set_all ids s.pending_queue id s.next_item in
    elim c.queue [
      | inl (p, q) ↦
          let h' : get (set_all s.pending_queue ids s.next_item) id ≡ some j =
            subst (λ (m : JsMap JsonRpcId ℕ). get m id ≡ some j) p h in
          ground arith
      | inr (p, q) ↦ subst (λ (m : JsMap JsonRpcId ℕ). get m id ≡ some j) p h
    ]

get_pending_new :
    {s t : Provider} {ids : List JsonRpcId} {item : Item}
    → Registered s ids item t
    → AreAbsent s ids
    → (id : JsonRpcId) (j : ℕ) → get t.pending_queue id ≡ some j
    → among id ids ≡ true
    → s.next_item ≡ j
unfolding find_item
get_pending_new {s} {t} {ids} c free id j h m =
    let law = get-set_all ids s.pending_queue id s.next_item in
    let gone = free id m in
    elim c.queue [
      | inl (p, q) ↦
          let h' : get (set_all s.pending_queue ids s.next_item) id ≡ some j =
            subst (λ (m : JsMap JsonRpcId ℕ). get m id ≡ some j) p h in
          ground arith
      | inr (p, q) ↦
          let h' : get s.pending_queue id ≡ some j =
            subst (λ (m : JsMap JsonRpcId ℕ). get m id ≡ some j) p h in
          ground arith
    ]

module _ {s t : Provider} {ids : List JsonRpcId} {item : Item} {lc : Lifecycle} (v : IsConsistent s)
    (c : Registered s ids item t) (free : AreAbsent s ids) (own : item.lifecycle ≡ some lc)
    (same : lc.ids ≡ ids) (open_item : IsOpen item lc) where
  items_at : (j : ℕ) → t.items j ≡ (if nat_eq s.next_item j then item else s.items j)
  items_at j = ap (λ (f : ℕ → Item). f j) c.items

  new_owner : (id : JsonRpcId) → among id ids ≡ true → Owns t.items s.next_item id
  new_owner id m = record {
    lifecycle = lc;
    live = ground (arith, items_at s.next_item, own);
    has_id = rw same m;
  }

  old_owner : (id : JsonRpcId) (j : ℕ) → Owns s.items j id → Owns t.items j id
  old_owner id j w = record {
    lifecycle = w.lifecycle;
    live = ground (arith, items_at j, w.live, v.fresh j);
    has_id = w.has_id;
  }

  Registered-queue_owned : (id : JsonRpcId) (j : ℕ) → find_item t id ≡ some j → Owns t.items j id
  Registered-queue_owned id j p = elim (Bool-cases (among id ids)) [
    | inl m ↦
        subst (λ k. Owns t.items k id) (ground (arith, find_item-Registered c free id))
          (new_owner id m)
    | inr out ↦ old_owner id j (v.queue_owned id j (ground (arith, find_item-Registered c free id)))
  ]

  Registered-pending_owned :
      (id : JsonRpcId) (j : ℕ) → get t.pending_queue id ≡ some j → Owns t.items j id
  Registered-pending_owned id j p = elim (Bool-cases (among id ids)) [
    | inl m ↦ subst (λ k. Owns t.items k id) (get_pending_new c free id j p m) (new_owner id m)
    | inr out ↦ old_owner id j (v.pending_owned id j (get_pending-Registered c id j p out))
  ]

  Registered-queued :
      (j : ℕ) (lc' : Lifecycle) (id : JsonRpcId)
      → (t.items j).lifecycle ≡ some lc'
      → among id lc'.ids ≡ true
      → find_item t id ≡ some j
  Registered-queued j lc' id p m =
      ground
        (arith, items_at j, own, same, find_item-Registered c free id, v.queued j lc' id, free id)

  pub IsConsistent-Registered : IsConsistent t
  IsConsistent-Registered = record {
    one_entry = elim c.queue [
      | inl (p, q) ↦ rw p (IsMap-set_all ids s.pending_queue s.next_item v.one_entry)
      | inr (p, q) ↦ rw p v.one_entry
    ];
    queue_owned = Registered-queue_owned;
    pending_owned = Registered-pending_owned;
    queued = Registered-queued;
    opened = λ j lc' p. rw (items_at j) (opened_at j lc' p);
    quiet = λ j p. rw (items_at j) (quiet_at j p);
    answered = λ j p q. rw (items_at j) (answered_at j p q);
    fresh = λ j p. ground (arith, items_at j, v.fresh j, c.next);
  }
    where
      opened_at :
          (j : ℕ) (lc' : Lifecycle)
          → (t.items j).lifecycle ≡ some lc'
          → IsOpen (if nat_eq s.next_item j then item else s.items j) lc'
      opened_at j lc' p = elim (Bool-cases (nat_eq s.next_item j)) [
        | inl new ↦ rw new (subst (λ l. IsOpen item l) (ground (arith, items_at j, own)) open_item)
        | inr old ↦ rw old (v.opened j lc' (ground (arith, items_at j)))
      ]

      quiet_at :
          (j : ℕ)
          → (t.items j).lifecycle ≡ none
          → IsQuiet (if nat_eq s.next_item j then item else s.items j)
      quiet_at j p = elim (Bool-cases (nat_eq s.next_item j)) [
        | inl new ↦ absurd (ground (arith, items_at j, own))
        | inr old ↦ rw old (v.quiet j (ground (arith, items_at j)))
      ]

      answered_at :
          (j : ℕ)
          → (t.items j).lifecycle ≡ none
          → j < t.next_item
          → (if nat_eq s.next_item j then item else s.items j).deferred.promise ≢ pending
      answered_at j p q = elim (Bool-cases (nat_eq s.next_item j)) [
        | inl new ↦ absurd (ground (arith, items_at j, own))
        | inr old ↦ rw old (v.answered j (ground (arith, items_at j)) (ground (arith, c.next)))
      ]

-- Queueing a request whose ids are free keeps the invariant.
pub register-IsConsistent :
    (o : Options) (payload : SocketPayload) (ids : List JsonRpcId) (abort : Abort) (s : Provider)
    → IsConsistent s
    → AreAbsent s ids
    → among (primary_id payload) ids ≡ true
    → abort.timer ≡ true
    → abort.disposed ≡ false
    → IsConsistent (register o payload ids abort s)
unfolding create_default
register-IsConsistent o payload ids abort s v free prim armed undisposed =
    IsConsistent-Registered {lc = record { ids = ids; settled = false }} v
      (register-Registered o payload ids abort s) free refl refl
      (record {
        unsettled = refl;
        owns_primary = prim;
        promise_pending = refl;
        attached = refl;
        armed = armed;
        undisposed = undisposed;
      })

-- The bound counts every id once.
pub in_flight_count-register :
    (o : Options) (payload : SocketPayload) (ids : List JsonRpcId) (abort : Abort) (s : Provider)
    → in_flight_count (register o payload ids abort s) ≤ in_flight_count s + length ids
in_flight_count-register o payload ids abort s =
    let c = register-Registered o payload ids abort s in
    let bound_p = size-set_all ids s.pending_queue s.next_item in
    let bound_s = size-set_all ids s.sent_queue s.next_item in
    elim c.queue [ inl (p, q) ↦ rw (p, q) (omega arith) | inr (p, q) ↦ rw (p, q) (omega arith) ]
