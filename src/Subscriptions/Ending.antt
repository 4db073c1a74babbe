-- ===== src/Subscriptions/Ending.antt =====
-- Ending many subscriptions at once: `unsubscribe` and the change of the provider, in
-- packages/web3-core/src/web3_subscription_manager.ts.
use web3_js.Common.{
  ℕ, ◌≡◌, inl, inr, refl, ap, ◌∙◌, arith, Bool, true, false, ◌&&◌, ◌||◌, Option, none, some, List,
  [], ◌∷◌, Text, text_same_instance, text_same_iff, nat_eq, nat_eq_iff, if◌then◌else◌, ◌==◌,
  Bool-cases, All, ==_refl,
}
use web3_js.JsMap.{JsMap, get, has, delete}
use web3_js.JsMap.Laws.{IsMap, get-delete}
use web3_js.Fault.{Result, ok, err}
use web3_js.Subscriptions.{
  Manager, check_remove, finish_remove, start_removals, finish_removals, unsubscribe,
  clear_subscriptions, change_provider,
}
use web3_js.Subscriptions.Linked.{IsLinked, finish_remove-RemoveOutcome}

abbrev pub is_ok : Result (Unit {0}) → Bool
is_ok (ok u) = true
is_ok (err e) = false

module _ (selects : Text → ℕ → Bool) (replies : ℕ → Result (Unit {0})) where
  -- Does the entry end?
  abbrev pub ends : Text → ℕ → Bool
  ends id h = selects id h && is_ok (replies h)

  abbrev ends_in : JsMap Text ℕ → Text → Bool
  ends_in [] k = false
  ends_in ((id, h) ∷ es) k = (id == k && ends id h) || ends_in es k

  abbrev Found : Manager → JsMap Text ℕ → Type 0
  Found m es = All (λ e. get m.subscriptions e.0 ≡ some e.1) es

  abbrev Owned : Manager → JsMap Text ℕ → Type 0
  Owned m es = All (λ e. m.ids e.1 ≡ some e.0) es

  abbrev chosen : JsMap Text ℕ → List (ℕ × Result Text)
  chosen [] = []
  chosen ((id, h) ∷ es) = if selects id h then (h, ok id) ∷ chosen es else chosen es

  check_of_found :
      (m : Manager) (id : Text) (h : ℕ)
      → IsLinked m
      → get m.subscriptions id ≡ some h
      → check_remove h m ≡ ok id
  unfolding check_remove has
  check_of_found m id h v p = let named = v.linked id h p in simp (named, p) refl

  start-chosen :
      (es : JsMap Text ℕ) (m : Manager)
      → IsLinked m
      → Found m es
      → start_removals selects es m ≡ chosen es
  unfolding start_removals
  start-chosen [] m v f = refl
  start-chosen ((id, h) ∷ es) m v (p, f) =
      ground (arith, start-chosen es m v f, check_of_found m id h v p)

  Owned-other :
      (es : JsMap Text ℕ) (m : Manager) (id : Text) (h : ℕ)
      → m.ids h ≡ some id
      → get es id ≡ none
      → Owned m es
      → Owned
          (record m {
            ids = λ j. if nat_eq h j then none else m.ids j;
            subscriptions = delete m.subscriptions id;
          })
          es
  unfolding get
  Owned-other [] m id h p out owned = tt
  Owned-other ((k, j) ∷ es) m id h p out (q, owned) =
      (ground (arith, nat_eq_iff h j, ==_refl id), Owned-other es m id h p (ground arith) owned)

  finish_one :
      (r : Result (Unit {0})) (es : JsMap Text ℕ) (m : Manager) (id : Text) (h : ℕ)
      → IsLinked m
      → m.ids h ≡ some id
      → get es id ≡ none
      → Owned m es
      → IsLinked (finish_remove h (ok id) r m).1
        × Owned (finish_remove h (ok id) r m).1 es
        × ((k : Text)
            → get (finish_remove h (ok id) r m).1.subscriptions k
              ≡ (if id == k && is_ok r then none else get m.subscriptions k))
  unfolding finish_remove
  finish_one (err e) es m id h v p out owned = (v, owned, λ k. ground arith)
  finish_one (ok u) es m id h v p out owned = (
    (finish_remove-RemoveOutcome h (ok id) (ok u) m v (λ j q. ground arith)).0,
    Owned-other es m id h p out owned,
    λ k. get-delete m.subscriptions id k ∙ ground arith,
  )

  finish-chosen :
      (es : JsMap Text ℕ) (m : Manager)
      → IsLinked m
      → IsMap es
      → Owned m es
      → IsLinked (finish_removals (chosen es) replies m)
        × ((k : Text)
            → get (finish_removals (chosen es) replies m).subscriptions k
              ≡ (if ends_in es k then none else get m.subscriptions k))
  unfolding finish_removals
  finish-chosen [] m v apart owned = (v, λ k. refl)
  finish-chosen ((id, h) ∷ es) m v (out, apart) (p, owned) = elim (Bool-cases (selects id h)) [
    | inr skipped ↦
        let (v', rest) = finish-chosen es m v apart owned in
        simp skipped (v', λ k. rest k ∙ ground arith)
    | inl taken ↦
        let (v1, owned', one) = finish_one (replies h) es m id h v p out owned in
        let (v', rest) =
          finish-chosen es (finish_remove h (ok id) (replies h) m).1 v1 apart owned' in
        simp taken (v', λ k. rest k ∙ ground (arith, one k))
  ]

  Found-all :
      (m : Manager) (es : JsMap Text ℕ)
      → IsMap es
      → ((k : Text) (h : ℕ) → get es k ≡ some h → get m.subscriptions k ≡ some h)
      → Found m es
  unfolding get
  Found-all m [] apart h = tt
  Found-all m ((id, j) ∷ es) (out, apart) h = (
    h id j (ground (arith, ==_refl id)),
    Found-all m es apart (λ k i p. h k i (ground (arith, text_same_iff id k))),
  )

  Owned-of_Found : (m : Manager) (es : JsMap Text ℕ) → IsLinked m → Found m es → Owned m es
  Owned-of_Found m [] v f = tt
  Owned-of_Found m ((id, h) ∷ es) v (p, f) = (v.linked id h p, Owned-of_Found m es v f)

  abbrev pub kept : Text → Option ℕ → Option ℕ
  kept k none = none
  kept k (some h) = if ends k h then none else some h

  ends_in-absent : (es : JsMap Text ℕ) (k : Text) → get es k ≡ none → ends_in es k ≡ false
  unfolding get
  ends_in-absent [] k p = refl
  ends_in-absent ((id, h) ∷ es) k p = ground (arith, ends_in-absent es k)

  kept-ends_in :
      (es : JsMap Text ℕ) (k : Text)
      → IsMap es
      → (if ends_in es k then none else get es k) ≡ kept k (get es k)
  unfolding get
  kept-ends_in [] k apart = refl
  kept-ends_in ((id, h) ∷ es) k (out, apart) =
      ground (arith, text_same_iff id k, kept-ends_in es k apart, ends_in-absent es k)

  -- From a state in which registered ids and subscription objects are linked, `unsubscribe` ends
  -- exactly the selected subscriptions for which the node agrees: their ids lead nowhere, the
  -- others lead where they led, and the ids and the objects stay linked.
  pub unsubscribe_lem :
      (m : Manager)
      → IsLinked m
      → IsLinked (unsubscribe selects replies m)
        × ((k : Text)
            → get (unsubscribe selects replies m).subscriptions k ≡ kept k (get m.subscriptions k))
  unfolding unsubscribe
  unsubscribe_lem m v =
      let found = Found-all m m.subscriptions v.one_entry (λ k h p. p) in
      let (v', rest) =
        finish-chosen m.subscriptions m v v.one_entry (Owned-of_Found m m.subscriptions v found) in
      rw (start-chosen m.subscriptions m v found)
        (v', λ k. rest k ∙ kept-ends_in m.subscriptions k v.one_entry)

finish_remove-empty :
    (h : ℕ) (checked : Result Text) (r : Result (Unit {0})) (n : Manager)
    → n.subscriptions ≡ []
    → (finish_remove h checked r n).1.subscriptions ≡ []
unfolding finish_remove delete
finish_remove-empty h (err e) r n p = p
finish_remove-empty h (ok id) (err e) n p = p
finish_remove-empty h (ok id) (ok u) n p = ap (λ m. delete m id) p

finish_removals-empty :
    (started : List (ℕ × Result Text)) (replies : ℕ → Result (Unit {0})) (n : Manager)
    → n.subscriptions ≡ []
    → (finish_removals started replies n).subscriptions ≡ []
unfolding finish_removals
finish_removals-empty [] replies n p = p
finish_removals-empty ((h, checked) ∷ started) replies n p =
    finish_removals-empty started replies (finish_remove h checked (replies h) n).1
      (finish_remove-empty h checked (replies h) n p)

-- When the provider changes, no id leads to a subscription any more, whatever the old node answers.
pub change_provider_lem :
    (available can : Bool) (replies : ℕ → Result (Unit {0})) (m : Manager)
    → (change_provider available can replies m).subscriptions ≡ []
unfolding change_provider clear_subscriptions
change_provider_lem available can replies m =
    finish_removals-empty (start_removals (λ id h. true) m.subscriptions m) replies
      (record m { subscriptions = []; has_provider = available; can_subscribe = can }) refl
