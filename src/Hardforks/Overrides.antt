-- ===== src/Hardforks/Overrides.antt =====
-- packages/web3-qrl-accounts/src/common/common.ts: a parameter is what the newest hardfork that
-- sets it says.
use web3_js.Common.{
  ℕ, Bool, true, false, Option, none, some, List, [], ◌∷◌, ◌≡◌, refl, ap, All, ◌∙◌, String,
  if◌then◌else◌, ◌==◌, string_eq_instance, nat_eq_instance,
}
use web3_js.JsMap.{JsMap, get}
use web3_js.Fault.{Result, ok, err, ◌>>=◌}
use web3_js.Hardforks.{ParamValue, Spec, Qip, Rules}
use web3_js.Hardforks.Params.{
  final_value, value_at, entry_value, value_of_qips, param_by_qip, param_by_hardfork_from,
  param_by_hardfork, or_kept, amount_of,
}

abbrev pub or_before {κ} : {B : Type κ} → Option B → Option B → Option B
or_before none b = b
or_before (some a) b = some a

module _ {ℓ κ} {A : Type ℓ} {B : Type κ} where
  -- The value of the last element that has one.
  unfoldable pub newest : (A → Option B) → List A → Option B
  newest g [] = none
  newest g (x ∷ xs) = or_before (newest g xs) (g x)

-- The hardforks up to the given one; all of them for a name that is not there.
unfoldable pub up_to : String → List (String × Option Spec) → List (String × Option Spec)
up_to h [] = []
up_to h ((n, s) ∷ cs) = (n, s) ∷ (if n == h then [] else up_to h cs)

or_kept-before : (a v w : Option ParamValue) → or_kept a (or_kept v w) ≡ or_kept (or_before a v) w
or_kept-before none v w = refl
or_kept-before (some a) v w = refl

or_kept-none : (v : Option ParamValue) → or_kept v none ≡ v
or_kept-none none = refl
or_kept-none (some v) = refl

abbrev answered : Result (Option ℕ) → Option ParamValue
answered (err e) = none
answered (ok n) = amount_of n

abbrev pub Answers : Result (Option ℕ) → Type 0
Answers (ok a) = Unit
Answers (err e) = ⊥

module _ (table : JsMap ℕ Qip) (topic name : String) where
  -- What an entry sets by itself: its own table, or its last QIP that knows the parameter.
  unfoldable pub qip_value : ℕ → Option ParamValue
  qip_value q = answered (param_by_qip table topic name q)

  abbrev own_entry : Option (List ℕ) → Option (JsMap String ParamValue) → Option ParamValue
  own_entry (some qs) values = newest qip_value qs
  own_entry none none = none
  own_entry none (some values) = get values name

  unfoldable pub own_value : String × Option Spec → Option ParamValue
  own_value (n, none) = none
  own_value (n, some s) = own_entry s.spec_qips (get s.topics topic)

  abbrev CoversEntry : Option (List ℕ) → Option (JsMap String ParamValue) → Type 0
  CoversEntry (some qs) values = All (λ q. Answers (param_by_qip table topic name q)) qs
  CoversEntry none none = ⊥
  CoversEntry none (some values) = Unit

  -- The entry is known, and so are its QIPs and the topic.
  unfoldable pub Covers : String × Option Spec → Type 0
  Covers (n, none) = ⊥
  Covers (n, some s) = CoversEntry s.spec_qips (get s.topics topic)

  answered_lem :
      (a : Result (Option ℕ)) (qs : List ℕ) (newer v : Option ParamValue)
      → Answers a
      → ((w : Option ParamValue) → value_of_qips table topic name qs w ≡ ok (or_kept newer w))
      → (a >>= (λ n. value_of_qips table topic name qs (or_kept (amount_of n) v)))
        ≡ ok (or_kept (or_before newer (answered a)) v)
  answered_lem (err e) qs newer v h rest = elim h [ ]
  answered_lem (ok n) qs newer v h rest =
      rest (or_kept (amount_of n) v) ∙ ap (λ w. ok w) (or_kept-before newer (amount_of n) v)

  value_of_qips-newest :
      (qs : List ℕ) (v : Option ParamValue)
      → All (λ q. Answers (param_by_qip table topic name q)) qs
      → value_of_qips table topic name qs v ≡ ok (or_kept (newest qip_value qs) v)
  unfolding value_of_qips newest qip_value
  value_of_qips-newest [] v h = refl
  value_of_qips-newest (q ∷ qs) v (a, h) =
      answered_lem (param_by_qip table topic name q) qs (newest qip_value qs) v a
        (λ w. value_of_qips-newest qs w h)

  entry_value-own :
      (qs : Option (List ℕ)) (values : Option (JsMap String ParamValue)) (v : Option ParamValue)
      → CoversEntry qs values
      → entry_value table topic name qs values v ≡ ok (or_kept (own_entry qs values) v)
  entry_value-own (some qs) values v h = value_of_qips-newest qs v h
  entry_value-own none none v h = elim h [ ]
  entry_value-own none (some values) v h = refl

  value_at-own :
      (n : String) (s : Option Spec) (v : Option ParamValue)
      → Covers (n, s)
      → value_at table topic name s v ≡ ok (or_kept (own_value (n, s)) v)
  unfolding value_at own_value Covers
  value_at-own n none v h = elim h [ ]
  value_at-own n (some s) v h = entry_value-own s.spec_qips (get s.topics topic) v h

  last_or_on :
      (h : String) (cs : List (String × Option Spec)) (own v : Option ParamValue)
      → (All Covers (up_to h cs)
          → (w : Option ParamValue)
          → param_by_hardfork_from table topic name cs h w
            ≡ final_value (or_kept (newest own_value (up_to h cs)) w))
      → (last : Bool) → All Covers (if last then [] else up_to h cs)
      → (if last
          then final_value (or_kept own v)
          else param_by_hardfork_from table topic name cs h (or_kept own v))
        ≡ final_value
            (or_kept (or_before (newest own_value (if last then [] else up_to h cs)) own) v)
  unfolding newest
  last_or_on h cs own v rest true k = refl
  last_or_on h cs own v rest false k =
      rest k (or_kept own v) ∙ ap final_value (or_kept-before (newest own_value (up_to h cs)) own v)

  param_from-newest :
      (h : String) (cs : List (String × Option Spec)) (v : Option ParamValue)
      → All Covers (up_to h cs)
      → param_by_hardfork_from table topic name cs h v
        ≡ final_value (or_kept (newest own_value (up_to h cs)) v)
  unfolding param_by_hardfork_from newest up_to
  param_from-newest h [] v c = refl
  param_from-newest h ((n, s) ∷ cs) v (c, c') =
      rw (value_at-own n s v c)
        (last_or_on h cs (own_value (n, s)) v (λ k w. param_from-newest h cs w k) (n == h) c')

  -- When every entry up to the hardfork is known and answers for the topic, the value of a
  -- parameter is what the last of these entries that sets it says, by its own table or by its last
  -- QIP that sets it, and 0 when none does.
  pub param_by_hardfork_lem :
      (h : String) (r : Rules)
      → All Covers (up_to h r.changes)
      → param_by_hardfork table topic name h r ≡ final_value (newest own_value (up_to h r.changes))
  unfolding param_by_hardfork
  param_by_hardfork_lem h r c =
      param_from-newest h r.changes none c
      ∙ ap final_value (or_kept-none (newest own_value (up_to h r.changes)))
