-- ===== src/Subscriptions.antt =====
-- packages/web3-core/src/web3_subscription_manager.ts and web3_subscriptions.ts: the subscriptions
-- that are registered by their ids. Subscription objects are numbered; `ids` is the field `_id` of
-- each. What the node answers to a request is a parameter, and an operation ends before the next
-- one starts, but the removals of one `unsubscribe` all start before the first answer.
pub mod Linked
pub mod Ending
mod Tests
use web3_js.Common.{
  ℕ, Bool, true, false, not, ◌&&◌, ◌||◌, Option, none, some, List, [], ◌∷◌, String, Text,
  text_same_instance, nat_eq, if◌then◌else◌,
}
use web3_js.JsMap.{JsMap, get, has, set, delete}
use web3_js.Fault.{Fault, Result, ok, err, provider_error, subscription_error, ◌>>=◌}

pub data Emitted : Type 0 where
  connected : ℕ → Text → Emitted
  connected_null : ℕ → Emitted
  data_for : ℕ → String → Emitted

pub record Manager : Type 0 where
  pub subscriptions : JsMap Text ℕ
  pub ids : ℕ → Option Text
  pub has_provider : Bool
  pub can_subscribe : Bool
  pub log : List Emitted

abbrev pub set_id : ℕ → Option Text → Manager → Manager
set_id h id m = record m { ids = λ j. if nat_eq h j then id else m.ids j }

-- `sub.id && this._subscriptions.has(sub.id)`
abbrev already : Option Text → Manager → Bool
already none m = false
already (some []) m = false
already (some (c ∷ s)) m = has m.subscriptions (c ∷ s)

abbrev pub supports_subscriptions : Manager → Bool
supports_subscriptions m = m.has_provider && m.can_subscribe

-- The guards of `addSubscription`.
unfoldable pub check_add : ℕ → Manager → Result (Unit {0})
check_add h m =
    if not m.has_provider
    then err (provider_error "Provider not available")
    else if not (supports_subscriptions m)
    then err (subscription_error "The current provider does not support subscriptions")
    else if already (m.ids h) m
    then err (subscription_error "Subscription with this id already exists")
    else ok tt

-- `sendSubscriptionRequest` and what follows it; the node may answer null.
unfoldable pub finish_add : ℕ → Result (Option Text) → Manager → Result Text × Manager
finish_add h (err e) m = (err e, m)
finish_add h (ok none) m =
    let m' = set_id h none m in
    (
      err (subscription_error "Subscription is not subscribed yet."),
      record m' { log = connected_null h ∷ m.log },
    )
finish_add h (ok (some id)) m =
    let m' = set_id h (some id) m in
    (ok id, record m' { subscriptions = set m.subscriptions id h; log = connected h id ∷ m.log })

abbrev pub after_check :
    ℕ → Result (Unit {0}) → Result (Option Text) → Manager → Result Text × Manager
after_check h (err e) reply m = (err e, m)
after_check h (ok u) reply m = finish_add h reply m

unfoldable pub add_subscription : ℕ → Result (Option Text) → Manager → Result Text × Manager
add_subscription h reply m = after_check h (check_add h m) reply m

abbrev registered : Text → Manager → Result Text
registered id m =
    if has m.subscriptions id
    then ok id
    else err (subscription_error "Subscription with this id does not exists")

-- The guards of `removeSubscription`: the id that is to be removed.
abbrev check_id : Option Text → Manager → Result Text
check_id none m = err (subscription_error "Subscription is not subscribed yet.")
check_id (some id) m = registered id m

unfoldable pub check_remove : ℕ → Manager → Result Text
check_remove h m = check_id (m.ids h) m

-- `sendUnsubscribeRequest` and what follows it.
unfoldable pub finish_remove : ℕ → Result Text → Result (Unit {0}) → Manager → Result Text × Manager
finish_remove h (err e) reply m = (err e, m)
finish_remove h (ok id) (err e) m = (err e, m)
finish_remove h (ok id) (ok u) m =
    let m' = set_id h none m in (ok id, record m' { subscriptions = delete m.subscriptions id })

unfoldable pub remove_subscription : ℕ → Result (Unit {0}) → Manager → Result Text × Manager
remove_subscription h reply m = finish_remove h (check_remove h m) reply m

-- The loop of `unsubscribe`: the selected subscriptions with what their guards gave.
unfoldable pub start_removals : (Text → ℕ → Bool) → JsMap Text ℕ → Manager → List (ℕ × Result Text)
start_removals selects [] m = []
start_removals selects ((id, h) ∷ entries) m =
    let rest = start_removals selects entries m in
    if selects id h then (h, check_remove h m) ∷ rest else rest

unfoldable pub finish_removals :
    List (ℕ × Result Text) → (ℕ → Result (Unit {0})) → Manager → Manager
finish_removals [] replies m = m
finish_removals ((h, checked) ∷ rest) replies m =
    finish_removals rest replies (finish_remove h checked (replies h) m).1

unfoldable pub unsubscribe : (Text → ℕ → Bool) → (ℕ → Result (Unit {0})) → Manager → Manager
unsubscribe selects replies m = finish_removals (start_removals selects m.subscriptions m) replies m

unfoldable pub clear_subscriptions : Manager → Manager
clear_subscriptions m = record m { subscriptions = [] }

-- The handlers of the two events of `setProvider`: the answers come after the new provider is set.
unfoldable pub change_provider : Bool → Bool → (ℕ → Result (Unit {0})) → Manager → Manager
change_provider available can replies m =
    let started = start_removals (λ id h. true) m.subscriptions m in
    finish_removals started replies
      (clear_subscriptions (record m { has_provider = available; can_subscribe = can }))

-- `messageListener`: the first id of the three that is there and not empty.
abbrev first_id : Option Text → Option Text → Option Text
first_id (some (c ∷ s)) b = some (c ∷ s)
first_id _ b = b

abbrev deliver : Option ℕ → String → Manager → Manager
deliver none text m = m
deliver (some h) text m = record m { log = data_for h text ∷ m.log }

abbrev dispatch : Option Text → String → Manager → Manager
dispatch none text m = m
dispatch (some []) text m = m
dispatch (some (c ∷ s)) text m = deliver (get m.subscriptions (c ∷ s)) text m

-- `params_id`, `data_id` and `own_id` are `params.subscription`, `data.subscription` and
-- `id.toString(16)`; the subscription passes the data on.
unfoldable pub message_listener :
    Option Text → Option Text → Option Text → String → Manager → Manager
message_listener params_id data_id own_id text m =
    dispatch (first_id params_id (first_id data_id own_id)) text m
