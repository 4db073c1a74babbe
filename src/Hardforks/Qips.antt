-- ===== src/Hardforks/Qips.antt =====
-- packages/web3-qrl-accounts/src/common/common.ts: setting the QIPs and the hardfork, on every
-- branch, and what all operations keep.
use web3_js.Common.{
  ℕ, Bool, true, false, Option, none, some, List, [], ◌∷◌, ◌≡◌, ◌≢◌, refl, ap, All, arith, ◌∙◌, sym,
  subst, String, if◌then◌else◌, ◌==◌, string_eq_instance, nat_eq_instance, Bool-cases, Option-cases,
  inl, inr, ◌↔◌, ◌⊎◌, any, ==_refl, ◌||◌,
}
use web3_js.JsMap.{JsMap, get, among}
use web3_js.Fault.{Fault, ok, hardfork_not_supported}
use web3_js.Hardforks.{Spec, Qip, Rules, gte_hardfork, try_changes, take_hardfork, set_hardfork}
use web3_js.Hardforks.Settings.{
  check_required, check_qip, check_entry, check_qips, set_qips, required, is_activated_qip,
}

-- The QIP is in the list or activated before.
abbrev Supplied : List ℕ → Rules → ℕ → Type 0
Supplied qips r q = (among q qips ≡ true) ⊎ (is_activated_qip q r ≡ ok true)

module _ (table : JsMap ℕ Qip) where
  -- The QIP is known, its hardfork has come, and the QIPs that it requires are supplied.
  unfoldable pub Admissible : List ℕ → Rules → ℕ → Type 0
  Admissible qips r q =
      (s : Qip) × (get table q ≡ some s)
      × (gte_hardfork s.minimum_hardfork r ≡ true)
      × All (Supplied qips r) (required s.required_qips)

  check_required_iff :
      (qip : ℕ) (qips qs : List ℕ) (r : Rules)
      → (check_required qip qips qs r ≡ none) ↔ All (Supplied qips r) qs
  unfolding check_required
  check_required_iff qip qips [] r = ground arith
  check_required_iff qip qips (q ∷ qs) r = ground (arith, check_required_iff qip qips qs r)

  entry_iff :
      (qips : List ℕ) (r : Rules) (q : ℕ) (s : Qip)
      → (check_entry q qips r (some s) ≡ none) ↔ (
          (gte_hardfork s.minimum_hardfork r ≡ true)
          × All (Supplied qips r) (required s.required_qips))
  entry_iff qips r q s = ground (arith, check_required_iff q qips (required s.required_qips) r)

  check_entry_iff :
      (qips : List ℕ) (r : Rules) (q : ℕ) (o : Option Qip)
      → (check_entry q qips r o ≡ none) ↔ (
          (s : Qip) × (o ≡ some s)
          × (gte_hardfork s.minimum_hardfork r ≡ true)
          × All (Supplied qips r) (required s.required_qips))
  check_entry_iff qips r q none = (λ h. ground arith, λ (s, e, g, c). ground arith)
  check_entry_iff qips r q (some s) = (
    λ h. let (g, c) = (entry_iff qips r q s).0 h in (s, refl, g, c),
    λ (t, e, g, c).
        subst (λ o. check_entry q qips r o ≡ none) (sym e) ((entry_iff qips r q t).1 (g, c)),
  )

  none≢some : (e : Fault) → none ≢ some e
  none≢some e h = ground arith

  pub check_qips_iff :
      (qs qips : List ℕ) (r : Rules)
      → (check_qips table qs qips r ≡ none) ↔ All (Admissible qips r) qs
  unfolding check_qips check_qip Admissible
  check_qips_iff [] qips r = (λ e. tt, λ h. refl)
  check_qips_iff (q ∷ qs) qips r =
      ground (arith, check_qips_iff qs qips r, check_entry_iff qips r q (get table q))

  -- The QIPs are stored when each of them is in the table, its hardfork has come and the QIPs that
  -- it requires are in the list or active; otherwise there is an error and nothing changes.
  pub set_qips_lem :
      (qips : List ℕ) (r : Rules)
      → (All (Admissible qips r) qips → set_qips table qips r ≡ (none, record r { qips = qips }))
        × (¬ All (Admissible qips r) qips → (e : Fault) × (set_qips table qips r ≡ (some e, r)))
  unfolding set_qips
  set_qips_lem qips r =
      let q = check_qips_iff qips qips r in
      elim (Option-cases (check_qips table qips qips r)) [
        | inl x ↦ (λ h. rw x refl, λ n. elim (n (q.0 x)) [ ])
        | inr (e, x) ↦ (λ h. elim (none≢some e (sym (q.1 h) ∙ x)) [ ], λ n. (e, rw x refl))
      ]

abbrev pub knows : String → List (String × Option Spec) → Bool
knows h cs = any (λ c. c.0 == h) cs

take_hardfork-same : (h : String) (r : Rules) → (r.hardfork == h) ≡ true → take_hardfork h r ≡ r
take_hardfork-same h r e = rw e refl

taken_twice : (h : String) (r : Rules) → take_hardfork h (take_hardfork h r) ≡ take_hardfork h r
taken_twice h r = elim (Bool-cases (r.hardfork == h)) [
  | inl x ↦ ap (take_hardfork h) (take_hardfork-same h r x)
  | inr x ↦ take_hardfork-same h (take_hardfork h r) (rw x (==_refl h))
]

taken_before :
    (h : String) (existing later : Bool) (r : Rules)
    → Path
        (Bool × Rules)
        (true || later, if later then take_hardfork h (take_hardfork h r) else take_hardfork h r)
        (existing || (true || later), if true || later then take_hardfork h r else r)
taken_before h true true r = ap (λ x. (true, x)) (taken_twice h r)
taken_before h false true r = ap (λ x. (true, x)) (taken_twice h r)
taken_before h true false r = refl
taken_before h false false r = refl

try_changes-known :
    (h : String) (cs : List (String × Option Spec)) (existing : Bool) (r : Rules)
    → try_changes h cs existing r
      ≡ (existing || knows h cs, if knows h cs then take_hardfork h r else r)
unfolding try_changes
try_changes-known h [] existing r = ground arith
try_changes-known h ((n, s) ∷ cs) existing r = elim (Bool-cases (n == h)) [
  | inl x ↦
      rw x
        (try_changes-known h cs true (take_hardfork h r) ∙ taken_before h existing (knows h cs) r)
  | inr x ↦ rw x (try_changes-known h cs existing r)
]

chosen :
    (h : String) (known : Bool) (r : Rules)
    → Path
        (Option Fault × Rules)
        (
          if known then none else some (hardfork_not_supported h),
          if known then take_hardfork h r else r,
        )
        (if known then (none, take_hardfork h r) else (some (hardfork_not_supported h), r))
chosen h true r = refl
chosen h false r = refl

pub set_hardfork_lem :
    (h : String) (r : Rules)
    → set_hardfork h r ≡ (
        if knows h r.changes
        then (none, take_hardfork h r)
        else (some (hardfork_not_supported h), r))
unfolding set_hardfork
set_hardfork_lem h r = rw (try_changes-known h r.changes false r) (chosen h (knows h r.changes) r)
