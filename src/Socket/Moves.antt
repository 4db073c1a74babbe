-- ===== src/Socket/Moves.antt =====
-- Moving ids from the pending queue to the sent queue, in `_sendPendingRequests` of
-- packages/web3-utils/src/socket_provider.ts.
use web3_js.Common.{
  ℕ, ◌≤◌, ◌≡◌, ◌⊎◌, refl, true, none, some, List, [], ◌∷◌, arith, ◌==◌, if◌then◌else◌, ==_refl, inl,
  inr, Bool-cases, Option-cases, ap, sym, ◌∙◌,
}
use web3_js.JsMap.{get, has, among, set, delete}
use web3_js.JsMap.Laws.{get-set, get-delete, size-set, size-delete-lt, IsMap, IsMap-delete}
use web3_js.JsonRpc.{JsonRpcId, id_eq_instance}
use web3_js.Socket.State.{Item, Provider}
use web3_js.Socket.Settle.{find_item, in_flight_count}
use web3_js.Socket.Consistent.{IsConsistent}
use web3_js.Socket.Teardown.{OnlyEnds}
use web3_js.Socket.Message.{move_ids}

-- `t` has the owners of `s`, and no new pending id.
pub record SameOwners (s t : Provider) : Type 0 where
  pub find : (id : JsonRpcId) → find_item t id ≡ find_item s id
  pub pending :
      (id : JsonRpcId) (h : ℕ) → get t.pending_queue id ≡ some h → get s.pending_queue id ≡ some h
  pub one_entry : IsMap s.pending_queue → IsMap t.pending_queue
  pub items : t.items ≡ s.items
  pub next : t.next_item ≡ s.next_item
  pub socket : t.socket ≡ s.socket
  pub attempts : t.reconnect_attempts ≡ s.reconnect_attempts
  pub reconnecting : t.is_reconnecting ≡ s.is_reconnecting
  pub count : in_flight_count t ≤ in_flight_count s

pub SameOwners-refl : (s : Provider) → SameOwners s s
SameOwners-refl s = record {
  find = λ id. refl;
  pending = λ id h p. p;
  one_entry = λ p. p;
  items = refl;
  next = refl;
  socket = refl;
  attempts = refl;
  reconnecting = refl;
  count = omega arith;
}

pub SameOwners-trans : {s t u : Provider} → SameOwners s t → SameOwners t u → SameOwners s u
SameOwners-trans a b = record {
  find = λ id. b.find id ∙ a.find id;
  pending = λ id h p. a.pending id h (b.pending id h p);
  one_entry = λ p. b.one_entry (a.one_entry p);
  items = b.items ∙ a.items;
  next = b.next ∙ a.next;
  socket = b.socket ∙ a.socket;
  attempts = b.attempts ∙ a.attempts;
  reconnecting = b.reconnecting ∙ a.reconnecting;
  count = omega (arith, a.count, b.count);
}

pub IsConsistent-SameOwners : {s t : Provider} → SameOwners s t → IsConsistent s → IsConsistent t
unfolding find_item
IsConsistent-SameOwners {s} {t} c v = record {
  one_entry = c.one_entry v.one_entry;
  queue_owned = λ id h p. rw c.items (v.queue_owned id h (sym (c.find id) ∙ p));
  pending_owned = λ id h p. rw c.items (v.pending_owned id h (c.pending id h p));
  queued = λ h lc id. rw (c.items, c.find id) (v.queued h lc id);
  opened = λ h lc. rw c.items (v.opened h lc);
  quiet = λ h. rw c.items (v.quiet h);
  answered = λ h. rw (c.items, c.next) (v.answered h);
  fresh = λ h. rw (c.items, c.next) (v.fresh h);
}

-- A pending id is found, with its item.
pub find_item-pending :
    {s : Provider}
    → IsConsistent s
    → (id : JsonRpcId) (h : ℕ) → get s.pending_queue id ≡ some h
    → find_item s id ≡ some h
find_item-pending v id h p =
    let w = v.pending_owned id h p in v.queued h w.lifecycle id w.live w.has_id

abbrev move_one : JsonRpcId → ℕ → Provider → Provider
move_one id h s = record s {
  pending_queue = delete s.pending_queue id;
  sent_queue = set s.sent_queue id h;
}

move_one-SameOwners :
    (s : Provider) (id : JsonRpcId) (h : ℕ)
    → IsConsistent s
    → get s.pending_queue id ≡ some h
    → SameOwners s (move_one id h s)
unfolding find_item
move_one-SameOwners s id h v p = record {
  find = λ j. ground (
    arith,
    id_eq_instance.same_iff id j,
    find_item-pending v id h p,
    get-set s.sent_queue id j h,
    get-delete s.pending_queue id j,
  );
  pending = λ j k q. ground (arith, get-delete s.pending_queue id j);
  one_entry = IsMap-delete s.pending_queue id;
  items = refl;
  next = refl;
  socket = refl;
  attempts = refl;
  reconnecting = refl;
  count = omega (arith, size-delete-lt s.pending_queue id p, size-set s.sent_queue id h);
}

-- Every listed id that is pending belongs to `h`.
abbrev pub BelongTo : ℕ → List JsonRpcId → Provider → Type 0
BelongTo h ids s =
    (id : JsonRpcId) (k : ℕ) → among id ids ≡ true → get s.pending_queue id ≡ some k → k ≡ h

pub move_ids-SameOwners :
    (ids : List JsonRpcId) (h : ℕ) (s : Provider)
    → IsConsistent s
    → BelongTo h ids s
    → SameOwners s (move_ids ids h s)
unfolding move_ids has
move_ids-SameOwners [] h s v b = SameOwners-refl s
move_ids-SameOwners (id ∷ ids) h s v b = elim (Option-cases (get s.pending_queue id)) [
  | inl out ↦ rw out (move_ids-SameOwners ids h s v (λ j k m p. b j k (ground arith) p))
  | inr (k, here) ↦
      let same : k ≡ h = b id k (ground (arith, ==_refl id)) here in
      let step = move_one-SameOwners s id h v (rw (← same) here) in
      let later =
        move_ids-SameOwners ids h (move_one id h s) (IsConsistent-SameOwners step v)
          (λ j l m p. b j l (ground arith) (step.pending j l p)) in
      rw here (SameOwners-trans step later)
]

pub OnlyEnds-SameOwners : {s t : Provider} → SameOwners s t → OnlyEnds s t
OnlyEnds-SameOwners c = record {
  none_new = λ id p. c.find id ∙ p;
  ended_kept = λ h p. ap (λ (f : ℕ → Item). f h) c.items;
  next = c.next;
  socket = c.socket;
  attempts = c.attempts;
  reconnecting = c.reconnecting;
  count = c.count;
}

-- One round of the loop over the owned ids.
abbrev step_of : JsonRpcId → ℕ → Provider → Provider
step_of id h s = if has s.pending_queue id then move_one id h s else s

pending-step_of :
    (j : JsonRpcId) (h : ℕ) (s : Provider) (id : JsonRpcId)
    → (j == id ≡ true) ⊎ (get s.pending_queue id ≡ none)
    → get (step_of j h s).pending_queue id ≡ none
unfolding has
pending-step_of j h s id m =
    ground (arith, id_eq_instance.same_iff j id, get-delete s.pending_queue j id)

-- A listed id is not pending after the move.
pub move_ids-absent :
    (ids : List JsonRpcId) (h : ℕ) (s : Provider) (id : JsonRpcId)
    → (among id ids ≡ true) ⊎ (get s.pending_queue id ≡ none)
    → get (move_ids ids h s).pending_queue id ≡ none
unfolding move_ids
move_ids-absent [] h s id (inl m) = absurd (ground arith)
move_ids-absent [] h s id (inr out) = out
move_ids-absent (j ∷ ids) h s id m = move_ids-absent ids h (step_of j h s) id (next m)
  where
    next :
        (among id (j ∷ ids) ≡ true) ⊎ (get s.pending_queue id ≡ none)
        → (among id ids ≡ true) ⊎ (get (step_of j h s).pending_queue id ≡ none)
    next (inr out) = inr (pending-step_of j h s id (inr out))
    next (inl m) = elim (Bool-cases (j == id)) [
      | inl same ↦ inr (pending-step_of j h s id (inl same))
      | inr other ↦ inl (ground arith)
    ]
