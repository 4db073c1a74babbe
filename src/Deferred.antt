-- ===== src/Deferred.antt =====
-- packages/web3-utils/src/web3_deferred_promise.ts: a promise settled from outside.
pub mod Laws
mod Tests
use web3_js.Common.{ℕ, Bool, true, false, ◌&&◌, Option, none, some, String, ltb, if◌then◌else◌}
use web3_js.Fault.{Fault, operation_timeout}

pub data Outcome (A : Type 0) : Type 0 where
  pending : Outcome A
  fulfilled : A → Outcome A
  rejected : Fault → Outcome A

pub data PromiseState : Type 0 where
  is_pending is_fulfilled is_rejected : PromiseState

-- `promise` is the native promise, `state` the field `_state`; `timeout_id` says that `_timeoutId`
-- was assigned, `running` that this timer can still fire.
pub record Deferred (A : Type 0) : Type 0 where
  pub promise : Outcome A
  pub state : PromiseState
  pub timeout_id : Bool
  pub running : Bool
  pub timeout_interval : ℕ
  pub timeout_message : String

abbrev is_pending_state : PromiseState → Bool
is_pending_state is_pending = true
is_pending_state _ = false

module _ {A : Type 0} where
  unfoldable pub start_timer : Deferred A → Deferred A
  start_timer d =
      if ltb 0 d.timeout_interval then record d { timeout_id = true; running = true } else d

  unfoldable pub create : ℕ → Bool → String → Deferred A
  unfolding start_timer
  create timeout eager_start message =
      let d : Deferred A = record {
        promise = pending;
        state = is_pending;
        timeout_id = false;
        running = false;
        timeout_interval = timeout;
        timeout_message = message;
      } in
      if eager_start then start_timer d else d

  -- The constructor's default argument.
  unfoldable pub create_default : Deferred A
  unfolding create
  create_default = create 0 false "DeferredPromise timed out"

  -- A native promise keeps its first outcome.
  abbrev pub settle_once : Outcome A → Outcome A → Outcome A
  settle_once pending o = o
  settle_once done o = done

  unfoldable pub clear_timeout : Deferred A → Deferred A
  clear_timeout d = if d.timeout_id then record d { running = false } else d

  unfoldable pub resolve : A → Deferred A → Deferred A
  unfolding clear_timeout
  resolve a d =
      clear_timeout
        (record d { promise = settle_once d.promise (fulfilled a); state = is_fulfilled })

  unfoldable pub reject : Fault → Deferred A → Deferred A
  unfolding clear_timeout
  reject e d =
      clear_timeout (record d { promise = settle_once d.promise (rejected e); state = is_rejected })

  -- The timer's callback: it runs when a running timer fires.
  unfoldable pub check_timeout : Deferred A → Deferred A
  unfolding reject
  check_timeout d =
      if is_pending_state d.state && d.timeout_id
      then reject (operation_timeout d.timeout_message) d
      else d
