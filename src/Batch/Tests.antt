-- ===== src/Batch/Tests.antt =====
-- A batch of two requests (packages/web3-core/src/web3_batch_request.ts).
use web3_js.Common.{ℕ, ◌≡◌, refl, true, false, none, [], ◌∷◌, Option, String, arith}
use web3_js.JsMap.{get, set}
use web3_js.Fault.{ok, err, external, operation_timeout, operation_aborted}
use web3_js.JsonRpc.{Field, Message, num, present, absent, Call, to_payload, id_eq_instance}
use web3_js.Deferred.{Outcome, pending, fulfilled, rejected, create, create_default, start_timer}
use web3_js.Batch.{
  Entry, Requests, add_request, execute, on_answer, on_batch_timer, ids_match, reject_entry,
  Execution,
}
use web3_js.Batch.Settled.{mapped}
use web3_js.Batch.Executed.{
  HasOutcome, IsAnswered, on_answer-match, failed_batch_stranded, on_batch_timer_lem,
}

abbrev call : ℕ → Call
call n = record { version = none; id = num n; method = "qrl_chainId"; params = none }

abbrev entry : ℕ → Entry
entry n = record {
  payload = record { version = "2.0"; id = num n; method = "qrl_chainId"; params = none };
  promise = create 0 false "DeferredPromise timed out";
}

abbrev two : Requests
two = (num 1, entry 1) ∷ (num 2, entry 2) ∷ []

abbrev answer : ℕ → Message
answer n = record {
  version_2 = true;
  id = num n;
  result = present "0x1";
  error = absent;
  method = absent;
  params = absent;
}

abbrev waiting : Execution
waiting = execute none two

batching : Unit {0}
unfolding execute create start_timer add_request to_payload create_default set
batching = tt

added_twice : (add_request (call 2) none "" (add_request (call 1) none "" []).0).0 ≡ two
unfolding batching
added_twice = refl

waits : waiting.whole.promise ≡ pending
unfolding batching
waits = refl

no_number : String → Option ℕ
no_number s = none

answered_in_reverse : ids_match no_number (answer 2 ∷ answer 1 ∷ []) waiting.requests ≡ true
unfolding batching ids_match
answered_in_reverse = refl

one_answer_short : ids_match no_number (answer 2 ∷ []) waiting.requests ≡ false
unfolding batching ids_match
one_answer_short = refl

first_waits : HasOutcome waiting.requests (num 1) pending
unfolding batching get
first_waits = (entry 1, refl, refl)

on_answer-match_example :
    let x = on_answer no_number (ok (answer 2 ∷ answer 1 ∷ [])) waiting in
    (x.whole.promise ≡ fulfilled (answer 2 ∷ answer 1 ∷ []))
    × ((out : Outcome (Field String)) × IsAnswered (answer 1) out
        × HasOutcome x.requests (num 1) out)
on_answer-match_example =
    on_answer-match no_number (answer 2 ∷ []) [] (answer 1) waiting answered_in_reverse waits
      (refl, tt) tt first_waits

failed_batch_stranded_example :
    ((on_answer no_number (err (external "offline")) waiting).whole.promise
      ≡ rejected (external "offline"))
    × ((on_answer no_number (err (external "offline")) waiting).requests ≡ waiting.requests)
failed_batch_stranded_example =
    failed_batch_stranded no_number (external "offline") waiting waits refl

on_batch_timer_lem_example :
    ((on_batch_timer waiting).whole.promise ≡ rejected (operation_timeout "Batch request timeout"))
    × (get (on_batch_timer waiting).requests (num 2)
        ≡ mapped (reject_entry (operation_aborted "Batch request timeout")) (get two (num 2)))
on_batch_timer_lem_example =
    on_batch_timer_lem none (num 1, entry 1) ((num 2, entry 2) ∷ []) (num 2) (omega arith)
