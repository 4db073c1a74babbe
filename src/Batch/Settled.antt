-- ===== src/Batch/Settled.antt =====
-- packages/web3-core/src/web3_batch_request.ts: which response settles which promise.
use web3_js.Common.{
  true, false, Option, none, some, List, [], ◌∷◌, ◌++◌, String, ◌≡◌, refl, ap, sym, ◌∙◌, All, arith,
  Bool-cases, inl, inr, ◌==◌, ◌≢◌, subst,
}
use web3_js.JsMap.{get}
use web3_js.Fault.{operation_aborted}
use web3_js.JsonRpc.{JsonRpcId, Message, id_eq_instance}
use web3_js.Batch.{
  Entry, Requests, update_at, settle_entry, reject_entry, settle_responses, abort_all_requests,
}

abbrev pub mapped : (Entry → Entry) → Option Entry → Option Entry
mapped f none = none
mapped f (some e) = some (f e)

true≢false : true ≢ false
true≢false e = ground arith

apart : (i j k : JsonRpcId) → (i == k) ≡ true → (j == k) ≡ false → (i == j) ≡ false
apart i j k x h = elim (Bool-cases (i == j)) [
  | inl y ↦
      absurd
        (true≢false (sym (subst (λ l. (l == k) ≡ true) ((id_eq_instance.same_iff i j).0 y) x) ∙ h))
  | inr n ↦ n
]

get-update_at_other :
    (m : Requests) (j k : JsonRpcId) (f : Entry → Entry)
    → (j == k) ≡ false
    → get (update_at m j f) k ≡ get m k
unfolding update_at get
get-update_at_other [] j k f h = refl
get-update_at_other ((i, e) ∷ m) j k f h = elim (Bool-cases (i == k)) [
  | inl x ↦ rw (x, apart i j k x h) refl
  | inr x ↦ rw x (get-update_at_other m j k f h)
]

get-update_at_same :
    (m : Requests) (k : JsonRpcId) (f : Entry → Entry)
    → get (update_at m k f) k ≡ mapped f (get m k)
unfolding update_at get
get-update_at_same [] k f = refl
get-update_at_same ((i, e) ∷ m) k f = elim (Bool-cases (i == k)) [
  | inl x ↦ rw x refl
  | inr x ↦ rw x (get-update_at_same m k f)
]

pub get-abort_all_requests :
    (message : String) (m : Requests) (k : JsonRpcId)
    → get (abort_all_requests message m) k
      ≡ mapped (reject_entry (operation_aborted message)) (get m k)
unfolding abort_all_requests get
get-abort_all_requests message [] k = refl
get-abort_all_requests message ((j, e) ∷ m) k = elim (Bool-cases (j == k)) [
  | inl x ↦ rw x refl
  | inr x ↦ rw x (get-abort_all_requests message m k)
]

settle_responses-other :
    (rs : List Message) (m : Requests) (k : JsonRpcId)
    → All (λ r. (r.id == k) ≡ false) rs
    → get (settle_responses rs m) k ≡ get m k
unfolding settle_responses
settle_responses-other [] m k h = refl
settle_responses-other (r ∷ rs) m k (h, hs) =
    settle_responses-other rs (update_at m r.id (settle_entry r)) k hs
    ∙ get-update_at_other m r.id k (settle_entry r) h

-- A response settles the request with its id, wherever it stands.
pub settle_responses-own :
    (before after : List Message) (r : Message) (m : Requests)
    → All (λ s. (s.id == r.id) ≡ false) before
    → All (λ s. (s.id == r.id) ≡ false) after
    → get (settle_responses (before ++ (r ∷ after)) m) r.id ≡ mapped (settle_entry r) (get m r.id)
unfolding settle_responses
settle_responses-own [] after r m h k =
    settle_responses-other after (update_at m r.id (settle_entry r)) r.id k
    ∙ get-update_at_same m r.id (settle_entry r)
settle_responses-own (s ∷ before) after r m (e, h) k =
    settle_responses-own before after r (update_at m s.id (settle_entry s)) h k
    ∙ ap (mapped (settle_entry r)) (get-update_at_other m s.id r.id (settle_entry s) e)
