-- ===== src/Socket/Responding.antt =====
-- `_onMessage` of packages/web3-utils/src/socket_provider.ts: which request a response settles.
use web3_js.Common.{
  ℕ, ◌≡◌, ◌≢◌, refl, true, false, none, some, arith, nat_eq_iff, if◌then◌else◌, inl, inr,
  Bool-cases, ap, ◌∙◌,
}
use web3_js.JsMap.{get, has, among}
use web3_js.JsonRpc.{JsonRpcId, Response, id_eq_instance}
use web3_js.Fault.{response_error}
use web3_js.Deferred.{Outcome, pending, fulfilled, rejected, resolve, reject}
use web3_js.Socket.State.{Item, Lifecycle, Options, Provider, World, message, emit}
use web3_js.Socket.Settle.{find_item, settle_request, resolving, rejecting, Ending}
use web3_js.Socket.Effects.{settle_request-some, closed}
use web3_js.Socket.Message.{
  on_response, is_subscription_message, response_id, is_well_formed, invalid_response,
}
use web3_js.Socket.Consistent.{IsConsistent, IsConsistent-SameCore, find_item-Settled}

-- What a well-formed or a malformed response makes of its request.
abbrev pub answer : Response → Outcome Response
answer r = if is_well_formed r then fulfilled r else rejected (response_error r invalid_response)

-- The request `h` has ended with `out`, its ids are free and every other item is as before.
pub record Ended (items : ℕ → Item) (h : ℕ) (out : Outcome Response) (t : Provider) : Type 0 where
  pub outcome : (t.items h).deferred.promise ≡ out
  pub lifecycle : (t.items h).lifecycle ≡ none
  pub free :
      (lc : Lifecycle) (id : JsonRpcId)
      → (items h).lifecycle ≡ some lc
      → among id lc.ids ≡ true
      → find_item t id ≡ none
  pub others : (j : ℕ) → h ≢ j → t.items j ≡ items j

abbrev pub outcome_of : Ending → Outcome Response
outcome_of (resolving r) = fulfilled r
outcome_of (rejecting e) = rejected e

promise-closed :
    (e : Ending) (item : Item)
    → item.deferred.promise ≡ pending
    → (closed e item).deferred.promise ≡ outcome_of e
unfolding resolve reject
promise-closed (resolving r) item p = ground arith
promise-closed (rejecting f) item p = ground arith

module _ (o : Options) where
  pub settle_request-Ended :
      (s : Provider) (id : JsonRpcId) (h : ℕ) (e : Ending)
      → IsConsistent s
      → find_item s id ≡ some h
      → Ended s.items h (outcome_of e) (settle_request o id e s).0
  settle_request-Ended s id h e v found =
      let w = v.queue_owned id h found in
      let c =
        (settle_request-some o s id e h w.lifecycle found w.live
          (v.opened h w.lifecycle w.live).unsettled).0 in
      let at_h : (settle_request o id e s).0.items h ≡ closed e (s.items h) =
        ap (λ (f : ℕ → Item). f h) c.items ∙ rw ((nat_eq_iff h h).1 refl) refl in
      record {
        outcome =
            ap (λ (i : Item). i.deferred.promise) at_h
            ∙ promise-closed e (s.items h) (v.opened h w.lifecycle w.live).promise_pending;
        lifecycle = ap (λ (i : Item). i.lifecycle) at_h;
        free = λ lc j p m. ground (arith, find_item-Settled c j, w.live);
        others = λ j other. ap (λ (f : ℕ → Item). f j) c.items ∙ ground (arith, nat_eq_iff h j);
      }

  -- A response whose id is in the sent queue ends the request that owns the id, with the response
  -- itself or, if it is malformed, with an error, and changes no other request. A response that is
  -- neither a notification nor for a sent id changes nothing. The state is consistent.
  pub on_response_lem :
      (w : World) (r : Response) (s : Provider)
      → IsConsistent s
      → is_subscription_message r ≡ false
      → ((h : ℕ)
          → get s.sent_queue (response_id r) ≡ some h
          → Ended s.items h (answer r) (on_response o w r s))
        × (get s.sent_queue (response_id r) ≡ none → on_response o w r s ≡ s)
  unfolding on_response has find_item
  on_response_lem w r s v plain = (
    λ h here. elim (Bool-cases (is_well_formed r)) [
      | inl good ↦
          simp (plain, here, good)
            (settle_request-Ended (emit (message r) s) (response_id r) h (resolving r)
              (IsConsistent-SameCore {s = s}
                (record { sent = refl; pending = refl; items = refl; next = refl }) v)
              (found h here))
      | inr bad ↦
          simp (plain, here, bad) (settle_request-Ended s (response_id r) h _ v (found h here))
    ],
    λ out. simp (plain, out) refl,
  )
    where
      found :
          (h : ℕ) → get s.sent_queue (response_id r) ≡ some h → find_item s (response_id r) ≡ some h
      found h here = ground arith
