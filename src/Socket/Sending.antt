-- ===== src/Socket/Sending.antt =====
-- `_sendPendingRequests` of packages/web3-utils/src/socket_provider.ts: the loop over the snapshot of
-- the pending queue.
use web3_js.Common.{
  ℕ, ◌≡◌, ◌≢◌, refl, Bool, true, false, none, some, List, [], ◌∷◌, arith, any, nat_eq, nat_eq_iff,
  ==_refl, inl, inr, Bool-cases, Option-cases, sym, subst,
}
use web3_js.JsMap.{get, among}
use web3_js.JsMap.Laws.{get-delete_all, nil_of_absent, IsMap}
use web3_js.JsonRpc.{JsonRpcId, id_eq_instance}
use web3_js.Fault.{connection_not_open}
use web3_js.Socket.State.{Lifecycle, SocketPayload, Options, Provider, World, get_status}
use web3_js.Socket.Settle.{Ending, find_item, settle_request, rejecting}
use web3_js.Socket.Effects.{settle_request-none, settle_request-some}
use web3_js.Socket.Connection.{is_disconnected}
use web3_js.Socket.Request.{send_or_settle}
use web3_js.Socket.Message.{owned_ids, move_ids, send_entries, send_pending_requests}
use web3_js.Socket.Consistent.{IsConsistent}
use web3_js.Socket.Moves.{
  SameOwners, BelongTo, find_item-pending, move_ids-SameOwners, move_ids-absent,
  IsConsistent-SameOwners, OnlyEnds-SameOwners,
}
use web3_js.Socket.Advance.{Advances, Advances-refl, Advances-trans, Advances-OnlyEnds}
use web3_js.Socket.Requesting.{Advances-send_or_settle}

-- No id becomes pending.
abbrev pub PendingShrinks : Provider → Provider → Type 0
PendingShrinks s t =
    (id : JsonRpcId) (k : ℕ) → get t.pending_queue id ≡ some k → get s.pending_queue id ≡ some k

module _ (o : Options) where
  pending-settle_request :
      (id : JsonRpcId) (e : Ending) (s : Provider)
      → IsConsistent s
      → PendingShrinks s (settle_request o id e s).0
  pending-settle_request id e s v j k p = elim (Option-cases (find_item s id)) [
    | inl out ↦ rw (settle_request-none o s id e out) at p
    | inr (h, found) ↦
        let w = v.queue_owned id h found in
        let c =
          (settle_request-some o s id e h w.lifecycle found w.live
            (v.opened h w.lifecycle w.live).unsettled).0 in
        let p' = rw c.pending at p in
        ground (arith, get-delete_all w.lifecycle.ids s.pending_queue j)
  ]

  pending-send_or_settle :
      (w : World) (id : JsonRpcId) (payload : SocketPayload) (s : Provider)
      → IsConsistent s
      → PendingShrinks s (send_or_settle o w id payload s)
  unfolding send_or_settle
  pending-send_or_settle w id payload s v = elim (Bool-cases (is_disconnected (get_status s))) [
    | inl gone ↦ simp gone (pending-settle_request id (rejecting connection_not_open) s v)
    | inr up ↦ elim (Option-cases (w.sending payload)) [
      | inl sent ↦ rw (up, sent) (λ j k p. p)
      | inr (e, thrown) ↦ rw (up, thrown) (pending-settle_request id (rejecting e) s v)
    ]
  ]

module _ (o : Options) (w : World) where
  -- Every entry left in the snapshot belongs to its item, if it is still pending.
  abbrev Snapshot : List (JsonRpcId × ℕ) → Provider → Type 0
  Snapshot [] s = Unit
  Snapshot ((id, h) ∷ entries) s =
      ((k : ℕ) → get s.pending_queue id ≡ some k → k ≡ h) × Snapshot entries s

  owned_ids-BelongTo :
      (id : JsonRpcId) (h : ℕ) (s : Provider)
      → IsConsistent s
      → ((k : ℕ) → get s.pending_queue id ≡ some k → k ≡ h)
      → BelongTo h (owned_ids id (s.items h).lifecycle) s
  owned_ids-BelongTo id h s v own j k m p = elim (Option-cases (s.items h).lifecycle) [
    | inl ended ↦ own k (
        subst (λ (i : JsonRpcId). get s.pending_queue i ≡ some k)
          (sym ((id_eq_instance.same_iff id j).0 (ground arith))) p)
    | inr (lc, there) ↦ ground (arith, find_item-pending v j k p, v.queued h lc j there)
  ]

  abbrev round : JsonRpcId → ℕ → Provider → Provider
  round id h s =
      send_or_settle o w id (s.items h).payload (move_ids (owned_ids id (s.items h).lifecycle) h s)

  -- What the loop gives: the guarantees, no new pending id, and nothing pending for an item sent.
  record Sent (s : Provider) (h : ℕ) (t : Provider) : Type 0 where
    advances : Advances o s t
    shrinks : PendingShrinks s t
    gone : (j : JsonRpcId) → get t.pending_queue j ≢ some h

  round-Sent :
      (id : JsonRpcId) (h : ℕ) (s : Provider)
      → IsConsistent s
      → ((k : ℕ) → get s.pending_queue id ≡ some k → k ≡ h)
      → Sent s h (round id h s)
  round-Sent id h s v own = record {
    advances =
        Advances-trans (Advances-OnlyEnds v' (OnlyEnds-SameOwners c))
          (Advances-send_or_settle o w id (s.items h).payload moved v');
    shrinks = λ j k p. c.pending j k (back j k p);
    gone = λ j p.
        let q = c.pending j h (back j h p) in
        let owner = v.pending_owned j h q in
        absurd (ground (arith, back j h p, taken j owner.lifecycle owner.live owner.has_id));
  }
    where
      moved : Provider
      moved = move_ids (owned_ids id (s.items h).lifecycle) h s

      c : SameOwners s moved
      c =
          move_ids-SameOwners (owned_ids id (s.items h).lifecycle) h s v
            (owned_ids-BelongTo id h s v own)

      v' : IsConsistent moved
      v' = IsConsistent-SameOwners c v

      back : PendingShrinks moved (round id h s)
      back = pending-send_or_settle o w id (s.items h).payload moved v'

      taken :
          (j : JsonRpcId) (lc : Lifecycle)
          → (s.items h).lifecycle ≡ some lc
          → among j lc.ids ≡ true
          → get moved.pending_queue j ≡ none
      taken j lc live has =
          move_ids-absent (owned_ids id (s.items h).lifecycle) h s j (inl (rw live has))

  abbrev is_in : ℕ → List ℕ → Bool
  is_in h sent = any (λ j. nat_eq j h) sent

  abbrev items_of : List (JsonRpcId × ℕ) → List ℕ
  items_of [] = []
  items_of ((id, h) ∷ entries) = h ∷ items_of entries

  -- Nothing is pending for the items that were sent.
  abbrev NonePending : List ℕ → Provider → Type 0
  NonePending sent s =
      (j : JsonRpcId) (k : ℕ) → get s.pending_queue j ≡ some k → is_in k sent ≡ false

  Snapshot-shrinks :
      (s t : Provider) (entries : List (JsonRpcId × ℕ))
      → PendingShrinks s t
      → Snapshot entries s
      → Snapshot entries t
  Snapshot-shrinks s t [] c h = tt
  Snapshot-shrinks s t ((id, k) ∷ entries) c (own, h) =
      (λ j p. own j (c id j p), Snapshot-shrinks s t entries c h)

  send_entries_lem :
      (entries : List (JsonRpcId × ℕ)) (sent : List ℕ) (s : Provider)
      → IsConsistent s
      → Snapshot entries s
      → NonePending sent s
      → Advances o s (send_entries o w entries sent s)
        × PendingShrinks s (send_entries o w entries sent s)
        × NonePending sent (send_entries o w entries sent s)
        × NonePending (items_of entries) (send_entries o w entries sent s)
  unfolding send_entries
  send_entries_lem [] sent s v snap out = (Advances-refl v, λ j k p. p, out, λ j k p. refl)
  send_entries_lem ((id, h) ∷ entries) sent s v (own, snap) out = elim (Bool-cases (is_in h sent)) [
    | inl again ↦
        let (a, shrink, rest, later) = send_entries_lem entries sent s v snap out in
        simp again
          (a, shrink, rest, λ j k p. ground (arith, later j k p, rest j k p, nat_eq_iff h k))
    | inr new ↦
        let r = round-Sent id h s v own in
        let (a, shrink, rest, later) =
          send_entries_lem entries (h ∷ sent) (round id h s) r.advances.consistent
            (Snapshot-shrinks s (round id h s) entries r.shrinks snap)
            (λ j k p. ground (arith, r.gone j, out j k (r.shrinks j k p), nat_eq_iff h k)) in
        simp new (
          Advances-trans r.advances a,
          λ j k p. r.shrinks j k (shrink j k p),
          λ j k p. ground (arith, rest j k p),
          λ j k p. ground (arith, later j k p, rest j k p),
        )
  ]

  -- The map's own entries are such a snapshot.
  Snapshot-entries :
      (entries : List (JsonRpcId × ℕ)) (s : Provider)
      → IsMap entries
      → ((j : JsonRpcId) (k : ℕ) → get entries j ≡ some k → get s.pending_queue j ≡ some k)
      → Snapshot entries s
  unfolding get
  Snapshot-entries [] s one same = tt
  Snapshot-entries ((id, h) ∷ entries) s (out, one) same = (
    λ k p. ground (arith, same id h, ==_refl id),
    Snapshot-entries entries s one
        (λ j k p. same j k (ground (arith, id_eq_instance.same_iff id j))),
  )

  is_in-items_of :
      (m : List (JsonRpcId × ℕ)) (j : JsonRpcId) (k : ℕ)
      → get m j ≡ some k
      → is_in k (items_of m) ≡ true
  unfolding get
  is_in-items_of [] j k p = absurd (ground arith)
  is_in-items_of ((id, h) ∷ m) j k p = ground (arith, is_in-items_of m j k, nat_eq_iff h k)

  -- Every request that waited for the connection is sent or has ended.
  pub send_pending_requests-Advances :
      (s : Provider)
      → IsConsistent s
      → Advances o s (send_pending_requests o w s)
        × ((send_pending_requests o w s).pending_queue ≡ [])
  unfolding send_pending_requests
  send_pending_requests-Advances s v =
      let (a, shrink, rest, later) =
        send_entries_lem s.pending_queue [] s v
          (Snapshot-entries s.pending_queue s v.one_entry (λ j k p. p)) (λ j k p. refl) in
      (a, nil_of_absent _ (none_left (send_entries o w s.pending_queue [] s) shrink later))
    where
      none_left :
          (t : Provider)
          → PendingShrinks s t
          → NonePending (items_of s.pending_queue) t
          → (j : JsonRpcId) → get t.pending_queue j ≡ none
      none_left t shrink later j = elim (Option-cases (get t.pending_queue j)) [
        | inl out ↦ out
        | inr (k, here) ↦
            absurd
              (ground (arith, later j k here, is_in-items_of s.pending_queue j k (shrink j k here)))
      ]
