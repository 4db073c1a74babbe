-- ===== src/Socket/Rejecting.antt =====
-- `_rejectAllRequests` of packages/web3-utils/src/socket_provider.ts: whose requests it rejects.
use web3_js.Common.{
  some, Bool, Option, sym, ==_refl, ℕ, ◌≢◌, nat_eq, nat_eq_iff, ap, ◌∙◌, subst, ◌≡◌, refl, true,
  false, none, List, [], ◌∷◌, arith, inl, inr, Bool-cases, Option-cases,
}
use web3_js.JsMap.{among}
use web3_js.JsonRpc.{JsonRpcId, id_eq_instance}
use web3_js.Fault.{Fault}
use web3_js.Socket.State.{Item, Options, Provider}
use web3_js.Socket.Settle.{Ending, find_item, rejecting, reject_each, settle_request}
use web3_js.Socket.Effects.{settle_request-none, settle_request-some}
use web3_js.Socket.Consistent.{IsConsistent, settle_request-IsConsistent, find_item-Settled}
use web3_js.Socket.Teardown.{reject_each-IsConsistent}
use web3_js.Deferred.{rejected}
use web3_js.Socket.Responding.{settle_request-Ended}

module _ (o : Options) where
  -- Settling one request keeps the ids of another in their queue, and brings none into it.
  find_item-other :
      (s : Provider) (id j : JsonRpcId) (e : Ending) (k h : ℕ)
      → IsConsistent s
      → find_item s id ≡ some k
      → nat_eq k h ≡ false
      → find_item s j ≡ some h
      → find_item (settle_request o id e s).0 j ≡ some h
  find_item-other s id j e k h v owner other found =
      let w = v.queue_owned id k owner in
      let c =
        (settle_request-some o s id e k w.lifecycle owner w.live
          (v.opened k w.lifecycle w.live).unsettled).0 in
      elim (Bool-cases (among j w.lifecycle.ids)) [
        | inl own ↦ absurd (ground (arith, v.queued k w.lifecycle j w.live own, nat_eq_iff k h))
        | inr out ↦ find_item-Settled c j ∙ rw out found
      ]

  find_item-before :
      (s : Provider) (id j : JsonRpcId) (e : Ending) (h : ℕ)
      → IsConsistent s
      → find_item (settle_request o id e s).0 j ≡ some h
      → find_item s j ≡ some h
  find_item-before s id j e h v found = elim (Option-cases (find_item s id)) [
    | inl out ↦
        subst (λ (t : Provider). find_item t j ≡ some h)
          (ap (λ (r : Provider × Bool). r.0) (settle_request-none o s id e out)) found
    | inr (k, owner) ↦
        let w = v.queue_owned id k owner in
        let c =
          (settle_request-some o s id e k w.lifecycle owner w.live
            (v.opened k w.lifecycle w.live).unsettled).0 in
        ground (arith, find_item-Settled c j)
  ]

  among_rest :
      (id j : JsonRpcId) (ids : List JsonRpcId)
      → among j (id ∷ ids) ≡ true
      → id ≢ j
      → among j ids ≡ true
  among_rest id j ids m other = ground (arith, (id_eq_instance.same_iff id j).0)

  -- A request that owns one of the ids is rejected.
  pub reject_each-rejects :
      (ids : List JsonRpcId) (e : Fault) (s : Provider) (j : JsonRpcId) (h : ℕ)
      → IsConsistent s
      → among j ids ≡ true
      → find_item s j ≡ some h
      → ((reject_each o ids e s).items h).deferred.promise ≡ rejected e
  unfolding reject_each
  reject_each-rejects [] e s j h v m found = absurd (ground arith)
  reject_each-rejects (id ∷ ids) e s j h v m found =
      let t = (settle_request o id (rejecting e) s).0 in
      let t-IsConsistent = settle_request-IsConsistent o s id (rejecting e) v in
      elim (Option-cases (find_item s id)) [
        | inl out ↦
            subst
              (λ (t : Provider). ((reject_each o ids e t).items h).deferred.promise ≡ rejected e)
              (sym
                (ap (λ (r : Provider × Bool). r.0) (settle_request-none o s id (rejecting e) out)))
              (reject_each-rejects ids e s j h v
                (among_rest id j ids m (λ p. none≢some (sym out ∙ ap (find_item s) p ∙ found)))
                found)
        | inr (k, owner) ↦ elim (Bool-cases (nat_eq k h)) [
          | inl same ↦
              let owned =
                subst (λ (n : ℕ). find_item s id ≡ some n) ((nat_eq_iff k h).0 same) owner in
              let c = settle_request-Ended o s id h (rejecting e) v owned in
              let (u, kept) = reject_each-IsConsistent o ids e t t-IsConsistent in
              ap (λ (i : Item). i.deferred.promise) (kept.ended_kept h c.lifecycle) ∙ c.outcome
          | inr other ↦
              reject_each-rejects ids e t j h t-IsConsistent
                (among_rest id j ids m
                  (λ p. some_apart k h other (sym owner ∙ ap (find_item s) p ∙ found)))
                (find_item-other s id j (rejecting e) k h v owner other found)
        ]
      ]
    where
      none≢some : {n : ℕ} → Path (Option ℕ) none (some n) → ⊥
      none≢some p = ground arith

      some_apart : (k h : ℕ) → nat_eq k h ≡ false → some k ≢ some h
      some_apart k h other p = ground (arith, nat_eq_iff k h)

  -- A request that owns none of the ids is left alone.
  pub reject_each-others :
      (ids : List JsonRpcId) (e : Fault) (s : Provider) (h : ℕ)
      → IsConsistent s
      → ((j : JsonRpcId) → among j ids ≡ true → find_item s j ≢ some h)
      → (reject_each o ids e s).items h ≡ s.items h
  unfolding reject_each
  reject_each-others [] e s h v apart = refl
  reject_each-others (id ∷ ids) e s h v apart =
      let t = (settle_request o id (rejecting e) s).0 in
      let t-IsConsistent = settle_request-IsConsistent o s id (rejecting e) v in
      let here : t.items h ≡ s.items h = elim (Option-cases (find_item s id)) [
        | inl out ↦ rw (settle_request-none o s id (rejecting e) out) refl
        | inr (k, owner) ↦
            (settle_request-Ended o s id k (rejecting e) v owner).others h
              (λ p. apart id among_first (subst (λ (n : ℕ). find_item s id ≡ some n) p owner))
      ] in
      reject_each-others ids e t h t-IsConsistent
        (λ j m found. apart j (among_later j m) (find_item-before s id j (rejecting e) h v found))
      ∙ here
    where
      among_first : among id (id ∷ ids) ≡ true
      among_first = ground (arith, ==_refl id)

      among_later : (j : JsonRpcId) → among j ids ≡ true → among j (id ∷ ids) ≡ true
      among_later j m = ground arith
