-- ===== src/Hardforks.antt =====
-- packages/web3-qrl-accounts/src/common/common.ts: the class `Common`, its chain, its hardfork and
-- its QIPs. The tables `HARDFORK_SPECS` and `QIPs` are arguments.
pub mod Settings
pub mod Select
pub mod Params
pub mod ForkHash
pub mod Zond
pub mod Located
pub mod Selected
pub mod Order
pub mod Overrides
pub mod Qips
pub mod Hashed
pub mod Uses
mod Tests
use web3_js.Common.{
  ℕ, ◌+◌, Bool, true, false, not, ◌&&◌, ◌||◌, Option, none, some, List, [], ◌∷◌, String, ltb, leb,
  if◌then◌else◌, any, all, map, ◌==◌, suc, string_eq_instance, nat_eq_instance, ◌⊎◌, inl, inr,
}
use web3_js.JsMap.{JsMap, get, set, is_some, among}
use web3_js.Fault.{
  Fault, Result, ok, err, ◌>>=◌, type_error, chain_id_not_supported, chain_name_not_supported,
  missing_chain_parameter, undefined_block, hardfork_not_supported, qip_not_supported,
  qip_too_early, qip_requires, plain_error,
}

-- `block: number | null`, with the `undefined` that `setChain` looks for.
pub data Block : Type 0 where
  absent null : Block
  number : ℕ → Block

pub record HardforkConfig : Type 0 where
  pub name : String
  pub block : Block
  pub timestamp : Option ℕ
  pub fork_hash : Option (List ℕ)

pub record Consensus : Type 0 where
  pub kind : String
  pub algorithm : String

-- The genesis block, the bootstrap nodes and the texts of a chain are not looked at.
pub record ChainConfig : Type 0 where
  pub chain_name : String
  pub chain_id : ℕ
  pub default_hardfork : Option String
  pub hardforks : List HardforkConfig
  pub consensus : Consensus

-- `v` of a parameter: a number, or the list of `tierStep`.
pub data ParamValue : Type 0 where
  amount : ℕ → ParamValue
  steps : List ℕ → ParamValue

abbrev pub Topics : Type 0
Topics = JsMap String (JsMap String ParamValue)

pub record Spec : Type 0 where
  pub spec_name : String
  pub spec_qips : Option (List ℕ)
  pub topics : Topics
  pub spec_consensus : Option Consensus

pub record Qip : Type 0 where
  pub minimum_hardfork : String
  pub required_qips : Option (List ℕ)
  pub qip_topics : Topics

-- `events` holds the emitted `hardforkChanged`, the last one first.
pub record Rules : Type 0 where
  pub chain : ChainConfig
  pub hardfork : String
  pub qips : List ℕ
  pub custom_chains : List ChainConfig
  pub default : String
  pub changes : List (String × Option Spec)
  pub events : List String

-- The argument of `setChain`; an object comes with the keys it has.
pub data ChainChoice : Type 0 where
  by_id : ℕ → ChainChoice
  by_name : String → ChainChoice
  by_object : List String → ChainConfig → ChainChoice
  other_input : ChainChoice

abbrev pub is_absent : Block → Bool
is_absent absent = true
is_absent _ = false

-- `_getInitializedChains`: the names by chain id, and the chains by name.
pub record Chains : Type 0 where
  pub names : JsMap ℕ String
  pub chains : JsMap String ChainConfig

unfoldable pub add_chains : List ChainConfig → Chains → Chains
add_chains [] t = t
add_chains (c ∷ cs) t =
    add_chains cs (record t {
      names = set t.names c.chain_id c.chain_name;
      chains = set t.chains c.chain_name c;
    })

abbrev pub check_blocks : List HardforkConfig → Option Fault
check_blocks hfs = if any (λ hf. is_absent hf.block) hfs then some undefined_block else none

abbrev named_chain : Option ChainConfig → Fault → Result ChainConfig
named_chain none e = err e
named_chain (some c) e = ok c

-- `if (names[chain])`: an empty name counts as none.
abbrev chain_of_name : Chains → ℕ → Option String → Result ChainConfig
chain_of_name t id none = err (chain_id_not_supported id)
chain_of_name t id (some n) =
    if n == "" then err (chain_id_not_supported id) else named_chain (get t.chains n) type_error

unfoldable pub missing_parameter : List String → List String → Option String
missing_parameter present [] = none
missing_parameter present (p ∷ ps) =
    if among p present then missing_parameter present ps else some p

abbrev pub required_parameters : List String
required_parameters = "networkId" ∷ "genesis" ∷ "hardforks" ∷ "bootstrapNodes" ∷ []

abbrev object_chain : Option String → ChainConfig → Result ChainConfig
object_chain none c = ok c
object_chain (some p) c = err (missing_chain_parameter p)

abbrev pub store_chain : Rules → Result ChainConfig → Option Fault × Rules
store_chain r (err e) = (some e, r)
store_chain r (ok c) = (check_blocks c.hardforks, record r { chain = c })

module _ (mainnet : ChainConfig) where
  unfoldable pub get_initialized_chains : List ChainConfig → Chains
  get_initialized_chains custom =
      add_chains custom (record { names = (1, "mainnet") ∷ []; chains = ("mainnet", mainnet) ∷ [] })

  unfoldable pub is_supported_chain_id : ℕ → Bool
  unfolding get_initialized_chains
  is_supported_chain_id id = elim (get (get_initialized_chains []).names id) [
    | none ↦ false
    | some n ↦ not (n == "")
  ]

  -- The table of names stands among the chains under "names"; it has no hardforks to read.
  unfoldable pub get_chain_params : ℕ ⊎ String → List ChainConfig → Result ChainConfig
  get_chain_params (inl id) custom =
      let t = get_initialized_chains custom in chain_of_name t id (get t.names id)
  get_chain_params (inr n) custom =
      if n == "names"
      then err type_error
      else named_chain (get (get_initialized_chains custom).chains n) (chain_name_not_supported n)

  -- What `setChain` stores in `_chainParams`, or throws before it does.
  unfoldable pub chosen_chain : ChainChoice → List ChainConfig → Result ChainConfig
  unfolding get_chain_params missing_parameter
  chosen_chain (by_id id) custom = get_chain_params (inl id) custom
  chosen_chain (by_name n) custom = get_chain_params (inr n) custom
  chosen_chain (by_object present c) [] =
      object_chain (missing_parameter present required_parameters) c
  chosen_chain (by_object present c) (d ∷ ds) = err (
      plain_error
        "Chain must be a string, number, or bigint when initialized with customChains passed in")
  chosen_chain other_input custom = err (plain_error "Wrong input format")

  -- `_chainParams` is assigned before the hardforks' blocks are looked at.
  unfoldable pub set_chain : ChainChoice → Rules → Option Fault × Rules
  set_chain choice r = store_chain r (chosen_chain choice r.custom_chains)

-- One turn of the loop of `setHardfork`.
abbrev pub take_hardfork : String → Rules → Rules
take_hardfork h r = if r.hardfork == h then r else record r { hardfork = h; events = h ∷ r.events }

unfoldable pub try_changes : String → List (String × Option Spec) → Bool → Rules → Bool × Rules
try_changes h [] existing r = (existing, r)
try_changes h ((n, s) ∷ cs) existing r =
    if n == h then try_changes h cs true (take_hardfork h r) else try_changes h cs existing r

unfoldable pub set_hardfork : String → Rules → Option Fault × Rules
unfolding try_changes
set_hardfork h r =
    let (existing, r') = try_changes h r.changes false r in
    (if existing then none else some (hardfork_not_supported h), r')

-- The position of the last hardfork with the name, -1 is none.
unfoldable pub position_from : String → List HardforkConfig → ℕ → Option ℕ → Option ℕ
position_from h [] i p = p
position_from h (f ∷ fs) i p = position_from h fs (suc i) (if f.name == h then some i else p)

unfoldable pub position_of : String → List HardforkConfig → Option ℕ
unfolding position_from
position_of h fs = position_from h fs 0 none

abbrev pub gte_positions : Option ℕ → Option ℕ → Bool
gte_positions _ none = false
gte_positions none (some j) = false
gte_positions (some i) (some j) = leb j i

unfoldable pub hardfork_gte_hardfork : Option String → String → Rules → Bool
hardfork_gte_hardfork none h2 r =
    gte_positions (position_of r.hardfork r.chain.hardforks) (position_of h2 r.chain.hardforks)
hardfork_gte_hardfork (some h1) h2 r =
    gte_positions (position_of h1 r.chain.hardforks) (position_of h2 r.chain.hardforks)

abbrev pub gte_hardfork : String → Rules → Bool
gte_hardfork h r = hardfork_gte_hardfork none h r
