-- ===== src/Socket/Consistent.antt =====
-- The invariant of the two queues of packages/web3-utils/src/socket_provider.ts, and `_settleRequest`.
use web3_js.Common.{
  ℕ, ◌≤◌, ◌<◌, ◌≡◌, ◌≢◌, true, false, none, some, arith, nat_eq, if◌then◌else◌, inl, inr,
  Bool-cases, Option-cases, ap, subst,
}
use web3_js.JsMap.{JsMap, get, among, delete_all}
use web3_js.JsMap.Laws.{get-delete_all, IsMap, IsMap-delete_all}
use web3_js.JsonRpc.{JsonRpcId, id_eq_instance}
use web3_js.Deferred.{pending}
use web3_js.Socket.State.{Lifecycle, Item, Options, Provider}
use web3_js.Socket.Settle.{Ending, resolving, rejecting, settle_request, find_item, dispose}
use web3_js.Socket.Deadline.{primary_id}
use web3_js.Socket.Effects.{SameCore, Settled, closed, settle_request-none, settle_request-some}
use web3_js.Deferred.{resolve, reject}

-- An unsettled item: its promise is pending, and its deadline and its listener are armed.
pub record IsOpen (item : Item) (lc : Lifecycle) : Type 0 where
  pub unsettled : lc.settled ≡ false
  pub owns_primary : among (primary_id item.payload) lc.ids ≡ true
  pub promise_pending : item.deferred.promise ≡ pending
  pub attached : item.on_abort ≡ true
  pub armed : item.abort.timer ≡ true
  pub undisposed : item.abort.disposed ≡ false

-- An item without a lifecycle holds no resource.
pub record IsQuiet (item : Item) : Type 0 where
  pub no_listener : item.on_abort ≡ false
  pub no_timer : item.abort.timer ≡ false
  pub no_caller : item.abort.listening ≡ false

-- The item `h` is unsettled and `id` is one of its ids.
pub record Owns (items : ℕ → Item) (h : ℕ) (id : JsonRpcId) : Type 0 where
  pub lifecycle : Lifecycle
  pub live : (items h).lifecycle ≡ some lifecycle
  pub has_id : among id lifecycle.ids ≡ true

pub record IsConsistent (s : Provider) : Type 0 where
  pub one_entry : IsMap s.pending_queue
  pub queue_owned : (id : JsonRpcId) (h : ℕ) → find_item s id ≡ some h → Owns s.items h id
  pub pending_owned : (id : JsonRpcId) (h : ℕ) → get s.pending_queue id ≡ some h → Owns s.items h id
  pub queued :
      (h : ℕ) (lc : Lifecycle) (id : JsonRpcId)
      → (s.items h).lifecycle ≡ some lc
      → among id lc.ids ≡ true
      → find_item s id ≡ some h
  pub opened : (h : ℕ) (lc : Lifecycle) → (s.items h).lifecycle ≡ some lc → IsOpen (s.items h) lc
  pub quiet : (h : ℕ) → (s.items h).lifecycle ≡ none → IsQuiet (s.items h)
  pub answered :
      (h : ℕ)
      → (s.items h).lifecycle ≡ none
      → h < s.next_item
      → (s.items h).deferred.promise ≢ pending
  pub fresh : (h : ℕ) → s.next_item ≤ h → (s.items h).lifecycle ≡ none

closed-IsQuiet :
    (e : Ending) (item : Item) {lc : Lifecycle} → IsOpen item lc → IsQuiet (closed e item)
unfolding dispose
closed-IsQuiet e item p = ground arith

closed_promise :
    (e : Ending) (item : Item) {lc : Lifecycle}
    → IsOpen item lc
    → (closed e item).deferred.promise ≢ pending
unfolding resolve reject
closed_promise (resolving r) item p = ground arith
closed_promise (rejecting f) item p = ground arith

-- The effects on the log, the diagnostics and the connection do not matter to the invariant.
pub IsConsistent-SameCore : {s t : Provider} → SameCore s t → IsConsistent s → IsConsistent t
unfolding find_item
IsConsistent-SameCore {s} {t} c v = record {
  one_entry = rw c.pending v.one_entry;
  queue_owned = λ id h. rw (c.items, c.sent, c.pending) (v.queue_owned id h);
  pending_owned = λ id h. rw (c.items, c.pending) (v.pending_owned id h);
  queued = λ h lc id. rw (c.items, c.sent, c.pending) (v.queued h lc id);
  opened = λ h lc. rw c.items (v.opened h lc);
  quiet = λ h. rw c.items (v.quiet h);
  answered = λ h. rw (c.items, c.next) (v.answered h);
  fresh = λ h. rw (c.items, c.next) (v.fresh h);
}

pub find_item-Settled :
    {s t : Provider} {h : ℕ} {lc : Lifecycle} {e : Ending}
    → Settled s h lc e t
    → (id : JsonRpcId) → find_item t id ≡ (if among id lc.ids then none else find_item s id)
unfolding find_item
find_item-Settled {s} {t} {lc} c id =
    rw (c.sent, c.pending)
      (ground
        (arith, get-delete_all lc.ids s.sent_queue id, get-delete_all lc.ids s.pending_queue id))

module _ {s t : Provider} {h : ℕ} {lc : Lifecycle} {e : Ending} (v : IsConsistent s)
    (live : (s.items h).lifecycle ≡ some lc) (c : Settled s h lc e t) where
  items_at : (j : ℕ) → t.items j ≡ (if nat_eq h j then closed e (s.items h) else s.items j)
  items_at j = ap (λ (f : ℕ → Item). f j) c.items

  -- Another id's owner is another item, which the call leaves alone.
  kept : (id : JsonRpcId) (j : ℕ) → among id lc.ids ≡ false → Owns s.items j id → Owns t.items j id
  kept id j out w = record {
    lifecycle = w.lifecycle;
    live = ground (arith, items_at j, w.live, w.has_id);
    has_id = w.has_id;
  }

  Settled-queue_owned : (id : JsonRpcId) (j : ℕ) → find_item t id ≡ some j → Owns t.items j id
  Settled-queue_owned id j p = elim (Bool-cases (among id lc.ids)) [
    | inl here ↦ ground (arith, find_item-Settled c id)
    | inr out ↦ kept id j out (v.queue_owned id j (ground (arith, find_item-Settled c id)))
  ]

  Settled-pending_owned :
      (id : JsonRpcId) (j : ℕ) → get t.pending_queue id ≡ some j → Owns t.items j id
  Settled-pending_owned id j p =
      let p' : get (delete_all s.pending_queue lc.ids) id ≡ some j =
        subst (λ (m : JsMap JsonRpcId ℕ). get m id ≡ some j) c.pending p in
      elim (Bool-cases (among id lc.ids)) [
        | inl here ↦ ground (arith, get-delete_all lc.ids s.pending_queue id)
        | inr out ↦
            kept id j out
              (v.pending_owned id j (ground (arith, get-delete_all lc.ids s.pending_queue id)))
      ]

  Settled-queued :
      (j : ℕ) (lc' : Lifecycle) (id : JsonRpcId)
      → (t.items j).lifecycle ≡ some lc'
      → among id lc'.ids ≡ true
      → find_item t id ≡ some j
  Settled-queued j lc' id p m =
      ground (arith, items_at j, find_item-Settled c id, v.queued j lc' id, v.queued h lc id live)

  pub IsConsistent-Settled : IsConsistent t
  IsConsistent-Settled = record {
    one_entry = rw c.pending (IsMap-delete_all lc.ids s.pending_queue v.one_entry);
    queue_owned = Settled-queue_owned;
    pending_owned = Settled-pending_owned;
    queued = Settled-queued;
    opened = λ j lc' p. rw (items_at j) (opened_at j lc' p);
    quiet = λ j p. rw (items_at j) (quiet_at j p);
    answered = λ j p q. rw (items_at j) (answered_at j p q);
    fresh = λ j p. ground (arith, items_at j, v.fresh j, v.fresh h, live, c.next);
  }
    where
      opened_at :
          (j : ℕ) (lc' : Lifecycle)
          → (t.items j).lifecycle ≡ some lc'
          → IsOpen (if nat_eq h j then closed e (s.items h) else s.items j) lc'
      opened_at j lc' p = elim (Bool-cases (nat_eq h j)) [
        | inl same ↦ absurd (ground (arith, items_at j))
        | inr other ↦ rw other (v.opened j lc' (ground (arith, items_at j)))
      ]

      quiet_at :
          (j : ℕ)
          → (t.items j).lifecycle ≡ none
          → IsQuiet (if nat_eq h j then closed e (s.items h) else s.items j)
      quiet_at j p = elim (Bool-cases (nat_eq h j)) [
        | inl same ↦ rw same (closed-IsQuiet e (s.items h) (v.opened h lc live))
        | inr other ↦ rw other (v.quiet j (ground (arith, items_at j)))
      ]

      answered_at :
          (j : ℕ)
          → (t.items j).lifecycle ≡ none
          → j < t.next_item
          → (if nat_eq h j then closed e (s.items h) else s.items j).deferred.promise ≢ pending
      answered_at j p q = elim (Bool-cases (nat_eq h j)) [
        | inl same ↦ rw same (closed_promise e (s.items h) (v.opened h lc live))
        | inr other ↦
            rw other (v.answered j (ground (arith, items_at j)) (subst (λ n. j < n) c.next q))
      ]

-- Settling any id, whether it is in flight or not, keeps the invariant.
pub settle_request-IsConsistent :
    (o : Options) (s : Provider) (id : JsonRpcId) (e : Ending)
    → IsConsistent s
    → IsConsistent (settle_request o id e s).0
settle_request-IsConsistent o s id e v = elim (Option-cases (find_item s id)) [
  | inl out ↦ rw (settle_request-none o s id e out) v
  | inr (h, found) ↦
      let w = v.queue_owned id h found in
      IsConsistent-Settled v w.live
        (settle_request-some o s id e h w.lifecycle found w.live
          (v.opened h w.lifecycle w.live).unsettled).0
]
