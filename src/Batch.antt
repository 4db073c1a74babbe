-- ===== src/Batch.antt =====
-- packages/web3-core/src/web3_batch_request.ts: requests that are sent together. What `sendBatch`
-- answers, and when the timer fires, is given from outside.
pub mod Settled
pub mod Executed
mod Tests
use web3_js.Common.{
  ℕ, Bool, true, false, ◌&&◌, Option, none, some, List, [], ◌∷◌, String, leb, nat_eq, if◌then◌else◌,
  length, map,
}
use web3_js.JsMap.{JsMap, set, size}
use web3_js.Fault.{
  Fault, Result, ok, err, operation_aborted, reported_error, response_error, operation_timeout,
}
use web3_js.JsonRpc.{
  JsonRpcId, num, str, null, missing, Field, Message, Call, Payload, to_payload, batch,
  id_eq_instance, is_response_with_result, is_response_with_error,
}
use web3_js.Deferred.{
  Deferred, Outcome, pending, rejected, create, create_default, resolve, reject, check_timeout,
}

pub record Entry : Type 0 where
  pub payload : Payload
  pub promise : Deferred (Field String)

abbrev pub Requests : Type 0
Requests = JsMap JsonRpcId Entry

abbrev pub default_batch_timeout : ℕ
default_batch_timeout = 1000

abbrev pub ids_of_requests : Requests → List JsonRpcId
ids_of_requests [] = []
ids_of_requests ((k, e) ∷ m) = e.payload.id ∷ ids_of_requests m

-- A second request with an id takes the place of the first in the map.
unfoldable pub add_request : Call → Option ℕ → String → Requests → Requests × Option ℕ
add_request c seed uuid m =
    let (p, seed') = to_payload c seed uuid in
    (set m p.id (record { payload = p; promise = create_default }), seed')

abbrev pub change : (Entry → Entry) → Bool → Entry → Entry
change f b e = if b then f e else e

-- `this._requests.get(id)?.promise` is settled.
unfoldable pub update_at : Requests → JsonRpcId → (Entry → Entry) → Requests
update_at [] k f = []
update_at ((j, e) ∷ m) k f = (j, change f (id_eq_instance.same j k) e) ∷ update_at m k f

abbrev pub resolve_entry : Field String → Entry → Entry
resolve_entry v e = record e { promise = resolve v e.promise }

abbrev pub reject_entry : Fault → Entry → Entry
reject_entry x e = record e { promise = reject x e.promise }

abbrev pub settle_entry : Message → Entry → Entry
settle_entry r e =
    if is_response_with_result r
    then resolve_entry r.result e
    else if is_response_with_error r
    then reject_entry (reported_error r.error) e
    else e

unfoldable pub settle_responses : List Message → Requests → Requests
unfolding update_at
settle_responses [] m = m
settle_responses (r ∷ rs) m = settle_responses rs (update_at m r.id (settle_entry r))

unfoldable pub abort_all_requests : String → Requests → Requests
abort_all_requests message [] = []
abort_all_requests message ((k, e) ∷ m) =
    (k, reject_entry (operation_aborted message) e) ∷ abort_all_requests message m

-- `Number(id)`: none is NaN.
abbrev pub number_of_id : (String → Option ℕ) → JsonRpcId → Option ℕ
number_of_id to_number (num n) = some n
number_of_id to_number (str s) = to_number s
number_of_id to_number null = some 0
number_of_id to_number missing = none

-- `.sort((a, b) => a - b)`: NaN counts as equal to all.
abbrev goes_before : Option ℕ → Option ℕ → Bool
goes_before (some a) (some b) = leb a b
goes_before _ _ = true

abbrev insert : Option ℕ → List (Option ℕ) → List (Option ℕ)
insert a [] = a ∷ []
insert a (b ∷ bs) = let rest = insert a bs in if goes_before a b then a ∷ b ∷ bs else b ∷ rest

unfoldable pub sort_ids : List (Option ℕ) → List (Option ℕ)
sort_ids [] = []
sort_ids (a ∷ as') = insert a (sort_ids as')

-- The texts of `JSON.stringify`, in which NaN is `null`.
abbrev same_number : Option ℕ → Option ℕ → Bool
same_number none none = true
same_number (some a) (some b) = nat_eq a b
same_number _ _ = false

unfoldable pub same_ids : List (Option ℕ) → List (Option ℕ) → Bool
same_ids [] [] = true
same_ids (a ∷ as') (b ∷ bs) = same_number a b && same_ids as' bs
same_ids _ _ = false

pub record Execution : Type 0 where
  pub requests : Requests
  pub whole : Deferred (List Message)

-- `err instanceof OperationTimeoutError`
abbrev pub is_timeout : Fault → Bool
is_timeout (operation_timeout message) = true
is_timeout _ = false

-- `request.catch`: only a timeout aborts the requests.
unfoldable pub on_rejection : Fault → Execution → Execution
unfolding abort_all_requests
on_rejection e x =
    if is_timeout e
    then record x {
      requests = abort_all_requests "Batch request timeout" x.requests;
      whole = reject e x.whole;
    }
    else record x { whole = reject e x.whole }

-- The handler runs once, when the promise is rejected, and gets the error that it has kept.
abbrev pub handle : Outcome (List Message) → Outcome (List Message) → Execution → Execution
handle pending (rejected e) x = on_rejection e x
handle before after x = x

abbrev pub reject_whole : Fault → Execution → Execution
reject_whole e x =
    let r = reject e x.whole in handle x.whole.promise r.promise (record x { whole = r })

abbrev pub processed : Option Fault × Execution → Execution
processed (none, x) = x
processed (some e, x) = reject_whole e x

-- The timer's callback, if it still runs.
unfoldable pub on_batch_timer : Execution → Execution
unfolding on_rejection
on_batch_timer x =
    let r = check_timeout x.whole in
    if x.whole.running then handle x.whole.promise r.promise (record x { whole = r }) else x

-- A mismatch of the number or of the ids aborts all and throws; the numbers in the messages are
-- left out.
abbrev pub mismatch : List Message → Requests → String
mismatch rs m =
    if nat_eq (length rs) (size m)
    then "Batch request mismatch the results"
    else "Batch request size mismatch the results size"

module _ (to_number : String → Option ℕ) where
  unfoldable pub ids_match : List Message → Requests → Bool
  unfolding sort_ids same_ids
  ids_match rs m =
      nat_eq (length rs) (size m)
      && same_ids (sort_ids (map (number_of_id to_number) (ids_of_requests m)))
          (sort_ids (map (λ r. number_of_id to_number r.id) rs))

  unfoldable pub process_batch_request : List Message → Execution → Option Fault × Execution
  unfolding ids_match settle_responses abort_all_requests
  process_batch_request rs x =
      if ids_match rs x.requests
      then (
        none,
        record x { requests = settle_responses rs x.requests; whole = resolve rs x.whole },
      )
      else (
        some (response_error (batch rs) (mismatch rs x.requests)),
        record x { requests = abort_all_requests "Invalid batch response" x.requests },
      )

  unfoldable pub on_answer : Result (List Message) → Execution → Execution
  unfolding process_batch_request on_rejection
  on_answer (ok rs) x = processed (process_batch_request rs x)
  on_answer (err e) x = reject_whole e x

abbrev pub timeout_or_default : Option ℕ → ℕ
timeout_or_default none = default_batch_timeout
timeout_or_default (some t) = t

-- An empty batch is answered at once; the answer of `sendBatch` comes later, as does the timer.
unfoldable pub execute : Option ℕ → Requests → Execution
execute timeout [] = record { requests = []; whole = resolve [] create_default }
execute timeout (e ∷ m) = record {
  requests = e ∷ m;
  whole = create (timeout_or_default timeout) true "Batch request timeout";
}
