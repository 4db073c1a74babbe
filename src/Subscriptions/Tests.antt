-- ===== src/Subscriptions/Tests.antt =====
-- A manager with two subscriptions (packages/web3-core/src/web3_subscription_manager.ts).
use web3_js.Common.{
  ℕ, ◌≡◌, refl, none, some, [], ◌∷◌, codes, true, false, Text, text_same_instance, nat_eq, arith,
  if◌then◌else◌,
}
use web3_js.JsMap.{get, has, set}
use web3_js.Fault.{Result, ok, err, external}
use web3_js.Subscriptions.{
  Manager, add_subscription, unsubscribe, change_provider, check_add, finish_add, message_listener,
  data_for,
}
use web3_js.Subscriptions.Linked.{IsLinked, AddOutcome, add_subscription_lem}
use web3_js.Subscriptions.Ending.{kept, unsubscribe_lem, change_provider_lem}

abbrev fresh : Manager
fresh = record {
  subscriptions = [];
  ids = λ h. none;
  has_provider = true;
  can_subscribe = true;
  log = [];
}

fresh-IsLinked : IsLinked fresh
unfolding get
fresh-IsLinked = record {
  one_entry = tt;
  linked = λ id h p. absurd (ground arith);
  no_empty = refl;
}

abbrev first : Manager
first = (add_subscription 0 (ok (some (codes "0xa"))) fresh).1

abbrev both : Manager
both = (add_subscription 1 (ok (some (codes "0xb"))) first).1

first-IsLinked : IsLinked first
first-IsLinked = (add_subscription_lem 0 (ok (some (codes "0xa"))) fresh fresh-IsLinked tt).0

both-IsLinked : IsLinked both
both-IsLinked = (add_subscription_lem 1 (ok (some (codes "0xb"))) first first-IsLinked tt).0

subscription_code : Unit {0}
unfolding add_subscription check_add finish_add message_listener get has set
subscription_code = tt

dispatched :
    (message_listener none (some (codes "0xb")) none "head" both).log ≡ data_for 1 "head" ∷ both.log
unfolding subscription_code
dispatched = refl

add_subscription_lem_example :
    AddOutcome 1 first (add_subscription 1 (ok (some (codes "0xb"))) first)
add_subscription_lem_example =
    add_subscription_lem 1 (ok (some (codes "0xb"))) first first-IsLinked tt

abbrev replies : ℕ → Result (Unit {0})
replies h = if nat_eq h 0 then ok tt else err (external "no such filter")

unsubscribe_lem_example :
    IsLinked (unsubscribe (λ id h. true) replies both)
    × ((k : Text)
        → get (unsubscribe (λ id h. true) replies both).subscriptions k
          ≡ kept (λ id h. true) replies k (get both.subscriptions k))
unsubscribe_lem_example = unsubscribe_lem (λ id h. true) replies both both-IsLinked

change_provider_lem_example : (change_provider true false replies both).subscriptions ≡ []
change_provider_lem_example = change_provider_lem true false replies both
