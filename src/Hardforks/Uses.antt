-- ===== src/Hardforks/Uses.antt =====
-- packages/web3-qrl-accounts/src/common/common.ts: an instance of `Common` whatever is called on it.
use web3_js.Common.{
  ℕ, true, Option, none, some, List, [], ◌∷◌, ◌≡◌, refl, All, subst, String, ◌==◌,
  string_eq_instance, nat_eq_instance, Bool-cases, inl, inr, Option-cases,
}
use web3_js.JsMap.{JsMap, get}
use web3_js.Fault.{Fault, Result, ok, err}
use web3_js.Hardforks.{
  ChainConfig, ChainChoice, Spec, Qip, Rules, chosen_chain, check_blocks, set_chain, set_hardfork,
  store_chain, take_hardfork,
}
use web3_js.Hardforks.Settings.{
  CommonOptions, set_qips, check_qips, set_up, set_up_chain, apply_hardfork, apply_qips, then_do,
  finished, create_rules, made_from,
}
use web3_js.Hardforks.Select.{
  get_hardfork_by_block_number, set_hardfork_by_block_number, set_selected,
}
use web3_js.Hardforks.ForkHash.{set_fork_hashes}
use web3_js.Hardforks.Qips.{knows, set_hardfork_lem, check_qips_iff, Admissible}

pub data Use : Type 0 where
  use_chain : ChainChoice → Use
  use_hardfork : String → Use
  use_block : ℕ → Option ℕ → Use
  use_qips : List ℕ → Use
  use_genesis : List ℕ → Use

abbrev latest : List String → String → String
latest [] d = d
latest (h ∷ hs) d = h

module _ (mainnet : ChainConfig) (specs : JsMap String Spec) (table : JsMap ℕ Qip)
    (crc32 : List ℕ → ℕ) where
  unfoldable pub apply : Use → Rules → Option Fault × Rules
  apply (use_chain c) r = set_chain mainnet c r
  apply (use_hardfork h) r = set_hardfork h r
  apply (use_block n t) r = set_hardfork_by_block_number n t r
  apply (use_qips qs) r = set_qips table qs r
  apply (use_genesis g) r = set_fork_hashes crc32 g r

  -- The hardfork is the one of the last event, or the default one; every event names a hardfork of
  -- the chain that the instance was made with; every QIP is in the table.
  pub record IsSound (r : Rules) : Type 0 where
    pub current : r.hardfork ≡ latest r.events r.default
    pub announced : All (λ h. knows h r.changes ≡ true) r.events
    pub supported : All (λ q. (s : Qip) × (get table q ≡ some s)) r.qips

  abbrev Sound : Option Fault × Rules → Type 0
  Sound (e, r) = IsSound r

  take_hardfork-Sound :
      (h : String) (r : Rules) → knows h r.changes ≡ true → IsSound r → IsSound (take_hardfork h r)
  take_hardfork-Sound h r k s = elim (Bool-cases (r.hardfork == h)) [
    | inl x ↦ rw x s
    | inr x ↦
        rw x (record { current = refl; announced = (k, s.announced); supported = s.supported })
  ]

  set_hardfork-Sound : (h : String) (r : Rules) → IsSound r → Sound (set_hardfork h r)
  set_hardfork-Sound h r s = rw (set_hardfork_lem h r) (elim (Bool-cases (knows h r.changes)) [
    | inl x ↦ rw x (take_hardfork-Sound h r x s)
    | inr x ↦ rw x s
  ])

  selected-Sound : (r : Rules) → IsSound r → (o : Result String) → Sound (set_selected r o)
  selected-Sound r s (err e) = s
  selected-Sound r s (ok h) = set_hardfork-Sound h r s

  by_block-Sound :
      (n : ℕ) (t : Option ℕ) (r : Rules) → IsSound r → Sound (set_hardfork_by_block_number n t r)
  unfolding set_hardfork_by_block_number
  by_block-Sound n t r s = selected-Sound r s (get_hardfork_by_block_number n t r)

  All-supported :
      (qips qs : List ℕ) (r : Rules)
      → All (Admissible table qips r) qs
      → All (λ q. (s : Qip) × (get table q ≡ some s)) qs
  unfolding Admissible
  All-supported qips [] r h = tt
  All-supported qips (q ∷ qs) r (a, h) = ((a.0, a.1), All-supported qips qs r h)

  set_qips-Sound : (qs : List ℕ) (r : Rules) → IsSound r → Sound (set_qips table qs r)
  unfolding set_qips
  set_qips-Sound qs r s = elim (Option-cases (check_qips table qs qs r)) [
    | inl x ↦ rw x (record {
      current = s.current;
      announced = s.announced;
      supported = All-supported qs qs r ((check_qips_iff table qs qs r).0 x);
    })
    | inr (e, x) ↦ rw x s
  ]

  stored-Sound : (r : Rules) → IsSound r → (o : Result ChainConfig) → Sound (store_chain r o)
  stored-Sound r s (err e) = s
  stored-Sound r s (ok c) = record {
    current = s.current;
    announced = s.announced;
    supported = s.supported;
  }

  set_chain-Sound : (c : ChainChoice) (r : Rules) → IsSound r → Sound (set_chain mainnet c r)
  unfolding set_chain
  set_chain-Sound c r s = stored-Sound r s (chosen_chain mainnet c r.custom_chains)

  genesis-Sound : (g : List ℕ) (r : Rules) → IsSound r → Sound (set_fork_hashes crc32 g r)
  unfolding set_fork_hashes
  genesis-Sound g r s = record {
    current = s.current;
    announced = s.announced;
    supported = s.supported;
  }

  apply-Sound : (u : Use) (r : Rules) → IsSound r → Sound (apply u r)
  unfolding apply
  apply-Sound (use_chain c) r s = set_chain-Sound c r s
  apply-Sound (use_hardfork h) r s = set_hardfork-Sound h r s
  apply-Sound (use_block n t) r s = by_block-Sound n t r s
  apply-Sound (use_qips qs) r s = set_qips-Sound qs r s
  apply-Sound (use_genesis g) r s = genesis-Sound g r s

  unfoldable pub apply_all : List Use → Rules → Rules
  unfolding apply
  apply_all [] r = r
  apply_all (u ∷ us) r = apply_all us (apply u r).1

  made_from-Sound :
      (c : ChainConfig) (custom : List ChainConfig) → IsSound (made_from specs c custom)
  unfolding made_from
  made_from-Sound c custom = record { current = refl; announced = tt; supported = tt }

  Created : Result Rules → Type 0
  Created (ok r) = IsSound r
  Created (err e) = Unit

  done-Created : (p : Option Fault × Rules) → Sound p → Created (finished p)
  unfolding Created
  done-Created (some e, r) s = tt
  done-Created (none, r) s = s

  qips-Created :
      (o : Option (List ℕ)) (p : Option Fault × Rules)
      → Sound p
      → Created (finished (then_do p (apply_qips table o)))
  unfolding Created
  qips-Created o (some e, r) s = tt
  qips-Created none (none, r) s = s
  qips-Created (some qs) (none, r) s = done-Created (set_qips table qs r) (set_qips-Sound qs r s)

  apply_hardfork-Sound : (o : Option String) (r : Rules) → IsSound r → Sound (apply_hardfork o r)
  apply_hardfork-Sound none r s = s
  apply_hardfork-Sound (some h) r s = set_hardfork-Sound h r s

  set_up-Created :
      (o : CommonOptions) (r : Rules) (e : Option Fault)
      → IsSound r
      → Created (set_up mainnet specs table o r e)
  unfolding Created
  set_up-Created o r (some e) s = tt
  set_up-Created o r none s =
      qips-Created o.given_qips (apply_hardfork o.given_hardfork r)
        (apply_hardfork-Sound o.given_hardfork r s)

  Created-Sound :
      (o : CommonOptions) (c : Result ChainConfig) → Created (set_up_chain mainnet specs table o c)
  unfolding Created
  Created-Sound o (err e) = tt
  Created-Sound o (ok c) =
      set_up-Created o (made_from specs c o.given_chains) (check_blocks c.hardforks)
        (made_from-Sound c o.given_chains)

  apply_all-Sound : (us : List Use) (r : Rules) → IsSound r → IsSound (apply_all us r)
  unfolding apply_all
  apply_all-Sound [] r s = s
  apply_all-Sound (u ∷ us) r s = apply_all-Sound us (apply u r).1 (apply-Sound u r s)

  -- An instance that was made without an error, whatever is called on it and whether the calls fail
  -- or not: its hardfork is the one that was announced last, or the default one when none was;
  -- every announced hardfork belongs to the chain that it was made with; and each of its QIPs is in
  -- the table.
  pub create_rules-IsSound :
      (o : CommonOptions) (us : List Use) (r : Rules)
      → create_rules mainnet specs table o ≡ ok r
      → IsSound (apply_all us r)
  unfolding create_rules Created
  create_rules-IsSound o us r e =
      apply_all-Sound us r
        (subst Created e (Created-Sound o (chosen_chain mainnet o.choice o.given_chains)))
