-- ===== src/Subscriptions/Linked.antt =====
-- Adding and removing one subscription, in packages/web3-core/src/web3_subscription_manager.ts.
use web3_js.Common.{
  ℕ, ◌≡◌, ◌≢◌, refl, ◌∙◌, arith, Option, none, some, [], ◌∷◌, Text, text_same_instance,
  text_same_iff, nat_eq_iff,
}
use web3_js.JsMap.{get, has}
use web3_js.JsMap.Laws.{IsMap, IsMap-set, IsMap-delete, get-set, get-delete}
use web3_js.Fault.{Fault, Result, ok, err}
use web3_js.Subscriptions.{
  Manager, check_add, finish_add, add_subscription, after_check, check_remove, finish_remove,
  remove_subscription,
}

pub record IsLinked (m : Manager) : Type 0 where
  pub one_entry : IsMap m.subscriptions
  pub linked : (id : Text) (h : ℕ) → get m.subscriptions id ≡ some h → m.ids h ≡ some id
  pub no_empty : get m.subscriptions [] ≡ none

-- The node names a subscription by a text that is not empty.
abbrev pub IsNamed : Result (Option Text) → Type 0
IsNamed (ok (some [])) = ⊥
IsNamed _ = Unit

-- A subscription that passes the guards of `addSubscription` is not registered.
free_of_check :
    (h : ℕ) (m : Manager) (u : Unit {0})
    → IsLinked m
    → check_add h m ≡ ok u
    → (id : Text) → get m.subscriptions id ≢ some h
unfolding check_add has
free_of_check h m u v p [] q = ground (arith, v.no_empty)
free_of_check h m u v p (c ∷ s) q = let named = v.linked (c ∷ s) h q in ground arith

abbrev pub AddOutcome : ℕ → Manager → Result Text × Manager → Type 0
AddOutcome h m (r, m') =
    IsLinked m'
    × ((id : Text)
        → r ≡ ok id
        → (get m'.subscriptions id ≡ some h)
          × ((j : Text) → id ≢ j → get m'.subscriptions j ≡ get m.subscriptions j))

finish_add-AddOutcome :
    (h : ℕ) (reply : Result (Option Text)) (m : Manager)
    → IsLinked m
    → IsNamed reply
    → ((id : Text) → get m.subscriptions id ≢ some h)
    → AddOutcome h m (finish_add h reply m)
unfolding finish_add
finish_add-AddOutcome h (err e) m v named free = (v, λ id p. absurd (ground arith))
finish_add-AddOutcome h (ok none) m v named free = (
  record {
    one_entry = v.one_entry;
    linked = λ id j q. ground (arith, nat_eq_iff h j, v.linked id j q, free id);
    no_empty = v.no_empty;
  },
  λ id p. absurd (ground arith),
)
finish_add-AddOutcome h (ok (some [])) m v named free = absurd named
finish_add-AddOutcome h (ok (some (c ∷ s))) m v named free = (
  record {
    one_entry = IsMap-set m.subscriptions (c ∷ s) h v.one_entry;
    linked = λ id j q. ground (
      arith,
      get-set m.subscriptions (c ∷ s) id h,
      text_same_iff (c ∷ s) id,
      nat_eq_iff h j,
      v.linked id j,
      free id,
    );
    no_empty = get-set m.subscriptions (c ∷ s) [] h ∙ v.no_empty;
  },
  λ id p. (
    ground (arith, get-set m.subscriptions (c ∷ s) id h, text_same_iff (c ∷ s) id),
    λ j other. ground (arith, get-set m.subscriptions (c ∷ s) j h, text_same_iff (c ∷ s) j),
  ),
)

-- Adding a subscription keeps the ids and the objects linked, for every answer of the node but an
-- empty id; when it ends well, the id leads to the subscription and every other id leads where it
-- led.
pub add_subscription_lem :
    (h : ℕ) (reply : Result (Option Text)) (m : Manager)
    → IsLinked m
    → IsNamed reply
    → AddOutcome h m (add_subscription h reply m)
unfolding add_subscription
add_subscription_lem h reply m v named = by_check (check_add h m) refl
  where
    by_check :
        (r : Result (Unit {0})) → check_add h m ≡ r → AddOutcome h m (after_check h r reply m)
    by_check (err e) p = (v, λ id q. absurd (ground arith))
    by_check (ok u) p = finish_add-AddOutcome h reply m v named (free_of_check h m u v p)

abbrev pub RemoveOutcome : ℕ → Manager → Result Text × Manager → Type 0
RemoveOutcome h m (r, m') =
    IsLinked m'
    × ((id : Text) → r ≡ ok id → (get m'.subscriptions id ≡ none) × (m'.ids h ≡ none))
    × ((e : Fault) → r ≡ err e → m' ≡ m)

pub finish_remove-RemoveOutcome :
    (h : ℕ) (checked : Result Text) (reply : Result (Unit {0})) (m : Manager)
    → IsLinked m
    → ((id : Text) → checked ≡ ok id → m.ids h ≡ some id)
    → RemoveOutcome h m (finish_remove h checked reply m)
unfolding finish_remove
finish_remove-RemoveOutcome h (err e) reply m v owner =
    (v, λ id p. absurd (ground arith), λ e' p. refl)
finish_remove-RemoveOutcome h (ok id) (err e) m v owner =
    (v, λ id' p. absurd (ground arith), λ e' p. refl)
finish_remove-RemoveOutcome h (ok id) (ok u) m v owner = (
  record {
    one_entry = IsMap-delete m.subscriptions id v.one_entry;
    linked = λ k j q. ground (
      arith,
      get-delete m.subscriptions id k,
      text_same_iff id k,
      nat_eq_iff h j,
      v.linked k j,
      owner id refl,
    );
    no_empty = ground (arith, get-delete m.subscriptions id [], v.no_empty);
  },
  λ k p. (
    ground (arith, get-delete m.subscriptions id k, text_same_iff id k),
    ground (arith, nat_eq_iff h h),
  ),
  λ e' p. absurd (ground arith),
)

id_of_check : (h : ℕ) (m : Manager) (id : Text) → check_remove h m ≡ ok id → m.ids h ≡ some id
unfolding check_remove
id_of_check h m id p = ground arith

-- Removing a subscription keeps the ids and the objects linked; when it ends well, the subscription
-- has no id and its id leads nowhere, and when it fails, nothing has changed.
pub remove_subscription_lem :
    (h : ℕ) (reply : Result (Unit {0})) (m : Manager)
    → IsLinked m
    → RemoveOutcome h m (remove_subscription h reply m)
unfolding remove_subscription
remove_subscription_lem h reply m v =
    finish_remove-RemoveOutcome h (check_remove h m) reply m v (λ id. id_of_check h m id)
