-- ===== src/Hardforks/Settings.antt =====
-- packages/web3-qrl-accounts/src/common/common.ts: QIPs, and the constructor of `Common`.
use web3_js.Common.{
  ℕ, Bool, true, false, ◌&&◌, Option, none, some, List, [], ◌∷◌, String, if◌then◌else◌, map,
  string_eq_instance, nat_eq_instance,
}
use web3_js.JsMap.{JsMap, get, among}
use web3_js.Fault.{
  Fault, Result, ok, err, type_error, qip_not_supported, qip_too_early, qip_requires,
}
use web3_js.Hardforks.{
  ChainChoice, ChainConfig, Qip, Rules, Spec, check_blocks, chosen_chain, gte_hardfork,
  set_hardfork,
}

abbrev pub activates : ℕ → Option (List ℕ) → Bool
activates qip none = false
activates qip (some qs) = among qip qs

unfoldable pub activated_in : ℕ → List (String × Option Spec) → Rules → Result Bool
activated_in qip [] r = ok false
activated_in qip ((n, none) ∷ cs) r = err type_error
activated_in qip ((n, some s) ∷ cs) r =
    let rest = activated_in qip cs r in
    if gte_hardfork s.spec_name r && activates qip s.spec_qips then ok true else rest

unfoldable pub is_activated_qip : ℕ → Rules → Result Bool
is_activated_qip qip r = if among qip r.qips then ok true else activated_in qip r.changes r

abbrev pub required : Option (List ℕ) → List ℕ
required none = []
required (some qs) = qs

unfoldable pub check_required : ℕ → List ℕ → List ℕ → Rules → Option Fault
check_required qip qips [] r = none
check_required qip qips (q ∷ qs) r =
    let rest = check_required qip qips qs r in
    if among q qips then rest else elim (is_activated_qip q r) [
      | err e ↦ some e
      | ok b ↦ if b then rest else some (qip_requires qip q)
    ]

abbrev pub check_entry : ℕ → List ℕ → Rules → Option Qip → Option Fault
check_entry qip qips r none = some (qip_not_supported qip)
check_entry qip qips r (some q) =
    if gte_hardfork q.minimum_hardfork r
    then check_required qip qips (required q.required_qips) r
    else some (qip_too_early qip r.hardfork)

abbrev pub store_qips : List ℕ → Rules → Option Fault → Option Fault × Rules
store_qips qips r (some e) = (some e, r)
store_qips qips r none = (none, record r { qips = qips })

module _ (table : JsMap ℕ Qip) where
  unfoldable pub check_qip : ℕ → List ℕ → Rules → Option Fault
  check_qip qip qips r = check_entry qip qips r (get table qip)

  unfoldable pub check_qips : List ℕ → List ℕ → Rules → Option Fault
  check_qips [] qips r = none
  check_qips (q ∷ qs) qips r =
      let rest = check_qips qs qips r in elim (check_qip q qips r) [ some e ↦ some e | none ↦ rest ]

  unfoldable pub set_qips : List ℕ → Rules → Option Fault × Rules
  unfolding check_qips
  set_qips qips r = store_qips qips r (check_qips qips qips r)

pub record CommonOptions : Type 0 where
  pub choice : ChainChoice
  pub given_hardfork : Option String
  pub given_qips : Option (List ℕ)
  pub given_chains : List ChainConfig

abbrev pub then_do : Option Fault × Rules → (Rules → Option Fault × Rules) → Option Fault × Rules
then_do (some e, r) f = (some e, r)
then_do (none, r) f = f r

abbrev pub or_default : Option String → String → String
or_default none d = d
or_default (some s) d = s

abbrev pub apply_hardfork : Option String → Rules → Option Fault × Rules
apply_hardfork none r = (none, r)
apply_hardfork (some h) r = set_hardfork h r

abbrev pub finished : Option Fault × Rules → Result Rules
finished (none, r) = ok r
finished (some e, r) = err e

module _ (table : JsMap ℕ Qip) where
  abbrev pub apply_qips : Option (List ℕ) → Rules → Option Fault × Rules
  apply_qips none r = (none, r)
  apply_qips (some qs) r = set_qips table qs r

module _ (specs : JsMap String Spec) where
  -- What the constructor makes of the chain before it sets the hardfork and the QIPs.
  unfoldable pub made_from : ChainConfig → List ChainConfig → Rules
  made_from c custom =
      let h = or_default c.default_hardfork "zond" in
      record {
        chain = c;
        hardfork = h;
        qips = [];
        custom_chains = custom;
        default = h;
        changes = map (λ f. (f.name, get specs f.name)) c.hardforks;
        events = [];
      }

module _ (mainnet : ChainConfig) (specs : JsMap String Spec) (table : JsMap ℕ Qip) where
  abbrev pub set_up : CommonOptions → Rules → Option Fault → Result Rules
  set_up o r (some e) = err e
  set_up o r none =
      finished (then_do (apply_hardfork o.given_hardfork r) (apply_qips table o.given_qips))

  abbrev pub set_up_chain : CommonOptions → Result ChainConfig → Result Rules
  set_up_chain o (err e) = err e
  set_up_chain o (ok c) = set_up o (made_from specs c o.given_chains) (check_blocks c.hardforks)

  unfoldable pub create_rules : CommonOptions → Result Rules
  create_rules o = set_up_chain o (chosen_chain mainnet o.choice o.given_chains)
