-- ===== src/Batch/Executed.antt =====
-- packages/web3-core/src/web3_batch_request.ts: how a batch ends.
use web3_js.Common.{
  ◌⊎◌, inl, inr, Bool-cases, some, ℕ, ◌<◌, ltb, true, false, Option, List, ◌∷◌, ◌++◌, String, ◌≡◌,
  refl, ap, ◌∙◌, All, arith, ◌==◌,
}
use web3_js.JsMap.{get}
use web3_js.Fault.{
  reported_error, Fault, ok, err, operation_aborted, response_error, operation_timeout,
}
use web3_js.JsonRpc.{
  Field, is_response_with_result, is_response_with_error, JsonRpcId, Message, batch, id_eq_instance,
}
use web3_js.Deferred.{
  Deferred, Outcome, pending, fulfilled, rejected, resolve, reject, check_timeout, clear_timeout,
  create, start_timer,
}
use web3_js.Batch.{
  Entry, Requests, Execution, ids_match, settle_entry, abort_all_requests, process_batch_request,
  on_answer, on_batch_timer, on_rejection, reject_whole, handle, reject_entry, is_timeout, execute,
  timeout_or_default, mismatch,
}
use web3_js.Batch.Settled.{mapped, settle_responses-own, get-abort_all_requests}

reject-pending :
    {A : Type 0} (e : Fault) (d : Deferred A)
    → d.promise ≡ pending
    → (reject e d).promise ≡ rejected e
unfolding reject clear_timeout
reject-pending e d h = ground arith

resolve-pending :
    {A : Type 0} (a : A) (d : Deferred A)
    → d.promise ≡ pending
    → (resolve a d).promise ≡ fulfilled a
unfolding resolve clear_timeout
resolve-pending a d h = ground arith

kept_rejection :
    {A : Type 0} (e e' : Fault) (d : Deferred A)
    → d.promise ≡ pending
    → (reject e' (reject e d)).promise ≡ rejected e
unfolding reject clear_timeout
kept_rejection e e' d h = ground arith

handled :
    (e : Fault) (x : Execution)
    → x.whole.promise ≡ pending
    → reject_whole e x ≡ on_rejection e (record x { whole = reject e x.whole })
handled e x h =
    λ i. handle (h i) (reject-pending e x.whole h i) (record x { whole = reject e x.whole })

-- While the batch waits, its rejection with an error leaves the requests alone unless it is a timeout.
reject_whole-plain :
    (e : Fault) (x : Execution)
    → x.whole.promise ≡ pending
    → is_timeout e ≡ false
    → ((reject_whole e x).whole.promise ≡ rejected e) × ((reject_whole e x).requests ≡ x.requests)
unfolding on_rejection
reject_whole-plain e x h n = (
  ap (λ y. y.whole.promise) (handled e x h) ∙ rw n (kept_rejection e e x.whole h),
  ap (λ y. y.requests) (handled e x h) ∙ rw n refl,
)

-- The request with the id has a promise with this outcome.
abbrev pub HasOutcome : Requests → JsonRpcId → Outcome (Field String) → Type 0
HasOutcome m k out = (e : Entry) × (get m k ≡ some e) × (e.promise.promise ≡ out)

-- What a response makes of a promise that waits: by a result, by an error, or by neither.
abbrev pub IsAnswered : Message → Outcome (Field String) → Type 0
IsAnswered r out =
    ((is_response_with_result r ≡ true) × (out ≡ fulfilled r.result))
    ⊎ ((is_response_with_result r ≡ false)
        × (is_response_with_error r ≡ true)
        × (out ≡ rejected (reported_error r.error)))
    ⊎ ((is_response_with_result r ≡ false) × (is_response_with_error r ≡ false) × (out ≡ pending))

settle_entry-IsAnswered :
    (r : Message) (e : Entry)
    → e.promise.promise ≡ pending
    → IsAnswered r (settle_entry r e).promise.promise
settle_entry-IsAnswered r e h = elim (Bool-cases (is_response_with_result r)) [
  | inl good ↦ inl (good, rw good (resolve-pending r.result e.promise h))
  | inr bad ↦ elim (Bool-cases (is_response_with_error r)) [
    | inl failed ↦
        inr (
          inl (bad, failed, rw (bad, failed) (reject-pending (reported_error r.error) e.promise h)))
    | inr neither ↦ inr (inr (bad, neither, rw (bad, neither) h))
  ]
]

module _ (to_number : String → Option ℕ) where
  -- When a batch that waits gets answers that match its requests in number and ids, in any order,
  -- its promise is fulfilled with them, and a request whose id is that of only one answer and whose
  -- promise waits is fulfilled with the result of this answer, or rejected with its error if it has
  -- no result; it keeps waiting if the answer has neither.
  pub on_answer-match :
      (before after : List Message) (r : Message) (x : Execution)
      → ids_match to_number (before ++ (r ∷ after)) x.requests ≡ true
      → x.whole.promise ≡ pending
      → All (λ s. (s.id == r.id) ≡ false) before
      → All (λ s. (s.id == r.id) ≡ false) after
      → HasOutcome x.requests r.id pending
      → let x' = on_answer to_number (ok (before ++ (r ∷ after))) x in
        (x'.whole.promise ≡ fulfilled (before ++ (r ∷ after)))
        × ((out : Outcome (Field String)) × IsAnswered r out × HasOutcome x'.requests r.id out)
  unfolding on_answer process_batch_request
  on_answer-match before after r x m h b a (e, found, waits) = rw m (
    resolve-pending (before ++ (r ∷ after)) x.whole h,
    (
      (settle_entry r e).promise.promise,
      settle_entry-IsAnswered r e waits,
      (
        settle_entry r e,
        settle_responses-own before after r x.requests b a ∙ ap (mapped (settle_entry r)) found,
        refl,
      ),
    ),
  )

  pub on_answer-mismatch :
      (rs : List Message) (x : Execution) (k : JsonRpcId)
      → ids_match to_number rs x.requests ≡ false
      → x.whole.promise ≡ pending
      → let x' = on_answer to_number (ok rs) x in
        (x'.whole.promise ≡ rejected (response_error (batch rs) (mismatch rs x.requests)))
        × (get x'.requests k
            ≡ mapped (reject_entry (operation_aborted "Invalid batch response")) (get x.requests k))
  unfolding on_answer process_batch_request
  on_answer-mismatch rs x k m h = rw m (
      let e = response_error (batch rs) (mismatch rs x.requests) in
      let y : Execution = record x {
        requests = abort_all_requests "Invalid batch response" x.requests;
      } in
      let (whole, requests) = reject_whole-plain e y h refl in
      (
        whole,
        ap (λ m. get m k) requests ∙ get-abort_all_requests "Invalid batch response" x.requests k,
      ))

  -- When sending a batch that waits fails with an error that is no timeout, the batch is rejected
  -- with this error and none of its requests is settled.
  pub failed_batch_stranded :
      (e : Fault) (x : Execution)
      → x.whole.promise ≡ pending
      → is_timeout e ≡ false
      → ((on_answer to_number (err e) x).whole.promise ≡ rejected e)
        × ((on_answer to_number (err e) x).requests ≡ x.requests)
  unfolding on_answer
  failed_batch_stranded e x h n = reject_whole-plain e x h n

ltb-true : (n : ℕ) → 0 < n → ltb 0 n ≡ true
ltb-true n h = ground arith

-- When the timer fires before anything else, a batch with a timeout above 0 ms is rejected, and
-- each of its requests is rejected as aborted.
pub on_batch_timer_lem :
    (timeout : Option ℕ) (e : JsonRpcId × Entry) (m : Requests) (k : JsonRpcId)
    → 0 < timeout_or_default timeout
    → let x = on_batch_timer (execute timeout (e ∷ m)) in
      (x.whole.promise ≡ rejected (operation_timeout "Batch request timeout"))
      × (get x.requests k
          ≡ mapped (reject_entry (operation_aborted "Batch request timeout")) (get (e ∷ m) k))
unfolding on_batch_timer execute on_rejection create reject clear_timeout start_timer check_timeout
on_batch_timer_lem timeout e m k h =
    rw (ltb-true (timeout_or_default timeout) h)
      (refl, get-abort_all_requests "Batch request timeout" (e ∷ m) k)
