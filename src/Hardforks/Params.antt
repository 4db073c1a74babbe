-- ===== src/Hardforks/Params.antt =====
-- packages/web3-qrl-accounts/src/common/common.ts: the parameters of a hardfork, of a QIP and of a
-- block, and the consensus.
use web3_js.Common.{
  ℕ, Option, none, some, List, [], ◌∷◌, String, if◌then◌else◌, ◌==◌, string_eq_instance,
  nat_eq_instance,
}
use web3_js.JsMap.{JsMap, get}
use web3_js.Fault.{Result, ok, err, ◌>>=◌, type_error, topic_not_defined, qip_not_supported}
use web3_js.Hardforks.{ParamValue, amount, steps, Spec, Qip, Rules, Consensus}
use web3_js.Hardforks.Settings.{or_default}
use web3_js.Hardforks.Select.{get_hardfork_by_block_number}

-- `BigInt(v)`: a list converts by its text, which is a number only if it has at most one entry.
abbrev pub big_int : ParamValue → Result ℕ
big_int (amount n) = ok n
big_int (steps []) = ok 0
big_int (steps (n ∷ [])) = ok n
big_int (steps (n ∷ m ∷ ns)) = err type_error

abbrev pub final_value : Option ParamValue → Result ℕ
final_value none = ok 0
final_value (some v) = big_int v

abbrev optional_value : Option ParamValue → Result (Option ℕ)
optional_value none = ok none
optional_value (some v) = do n ← big_int v; ok (some n)

abbrev pub or_kept : Option ParamValue → Option ParamValue → Option ParamValue
or_kept none v = v
or_kept (some w) v = some w

abbrev pub amount_of : Option ℕ → Option ParamValue
amount_of none = none
amount_of (some n) = some (amount n)

module _ (table : JsMap ℕ Qip) (topic name : String) where
  unfoldable pub param_by_qip : ℕ → Result (Option ℕ)
  param_by_qip qip = elim (get table qip) [
    | none ↦ err (qip_not_supported qip)
    | some q ↦ elim (get q.qip_topics topic) [
      | none ↦ err (topic_not_defined topic)
      | some values ↦ optional_value (get values name)
    ]
  ]

  -- The loop over `hfChanges[1].qips`.
  unfoldable pub value_of_qips : List ℕ → Option ParamValue → Result (Option ParamValue)
  unfolding param_by_qip
  value_of_qips [] v = ok v
  value_of_qips (q ∷ qs) v = do n ← param_by_qip q; value_of_qips qs (or_kept (amount_of n) v)

  -- An entry with QIPs is read by these, any other by its own table.
  abbrev pub entry_value :
      Option (List ℕ)
      → Option (JsMap String ParamValue)
      → Option ParamValue
      → Result (Option ParamValue)
  entry_value (some qs) values v = value_of_qips qs v
  entry_value none none v = err (topic_not_defined topic)
  entry_value none (some values) v = ok (or_kept (get values name) v)

  -- One turn of the loop of `paramByHardfork`.
  unfoldable pub value_at : Option Spec → Option ParamValue → Result (Option ParamValue)
  value_at none v = err type_error
  value_at (some s) v = entry_value s.spec_qips (get s.topics topic) v

  unfoldable pub param_by_hardfork_from :
      List (String × Option Spec) → String → Option ParamValue → Result ℕ
  unfolding value_at
  param_by_hardfork_from [] h v = final_value v
  param_by_hardfork_from ((n, s) ∷ cs) h v = do
    w ← value_at s v
    if n == h then final_value w else param_by_hardfork_from cs h w

  unfoldable pub param_by_hardfork : String → Rules → Result ℕ
  unfolding param_by_hardfork_from
  param_by_hardfork h r = param_by_hardfork_from r.changes h none

  abbrev pub given_or : Option ℕ → Result ℕ → Result ℕ
  given_or none rest = rest
  given_or (some n) rest = ok n

  -- The activated QIPs are looked at first.
  unfoldable pub param_of_qips : List ℕ → Result ℕ → Result ℕ
  unfolding param_by_qip
  param_of_qips [] rest = rest
  param_of_qips (q ∷ qs) rest = do v ← param_by_qip q; given_or v (param_of_qips qs rest)

  unfoldable pub param : Rules → Result ℕ
  unfolding param_of_qips param_by_hardfork
  param r = param_of_qips r.qips (param_by_hardfork r.hardfork r)

  unfoldable pub param_by_block : ℕ → Option ℕ → Rules → Result ℕ
  unfolding param_by_hardfork
  param_by_block n t r = do h ← get_hardfork_by_block_number n t r; param_by_hardfork h r

module _ {ℓ} {A : Type ℓ} (part : Consensus → A) where
  abbrev or_else : Option Consensus → Option A → Option A
  or_else none v = v
  or_else (some c) v = some (part c)

  -- The loop of `consensusType` and `consensusAlgorithm`.
  unfoldable pub consensus_from :
      List (String × Option Spec) → String → Option A → Result (Option A)
  consensus_from [] h v = ok v
  consensus_from ((n, none) ∷ cs) h v = err type_error
  consensus_from ((n, some s) ∷ cs) h v =
      let w = or_else s.spec_consensus v in if n == h then ok w else consensus_from cs h w

unfoldable pub consensus_type : Rules → Result String
unfolding consensus_from
consensus_type r = do
  v ← consensus_from (λ c. c.kind) r.changes r.hardfork none
  ok (or_default v r.chain.consensus.kind)

unfoldable pub consensus_algorithm : Rules → Result String
unfolding consensus_from
consensus_algorithm r = do
  v ← consensus_from (λ c. c.algorithm) r.changes r.hardfork none
  ok (or_default v r.chain.consensus.algorithm)
