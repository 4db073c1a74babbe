-- ===== src/Hardforks/Tests.antt =====
-- A chain with three hardforks and one to come (packages/web3-qrl-accounts/src/common/common.ts).
use web3_js.Common.{◌≡◌, refl, true, false, none, some, [], ◌∷◌, List, String, ℕ, arith, All}
use web3_js.JsMap.{JsMap, get}
use web3_js.Fault.{ok, Fault}
use web3_js.Hardforks.{
  HardforkConfig, ChainConfig, Rules, Spec, Qip, null, number, amount, by_object, chosen_chain,
  missing_parameter, try_changes, hardfork_gte_hardfork, set_hardfork,
}
use web3_js.Hardforks.Settings.{CommonOptions, create_rules, made_from, check_qips, set_qips}
use web3_js.Hardforks.Select.{
  get_hardfork, get_hardfork_by_block_number, select_hardfork, hardfork_is_active_on_block,
  next_hardfork_block_or_timestamp,
}
use web3_js.Hardforks.Params.{param_by_qip, param_by_hardfork, final_value}
use web3_js.Hardforks.ForkHash.{
  fork_hash_of, set_hashes, hashed_starts, calc_fork_hash, set_fork_hashes,
}
use web3_js.Hex.{hex_to_uint8_array, to_string_16, pad_start, uint8_array_to_hex_string, filler}
use web3_js.Hardforks.Zond.{zond, mainnet, qips_table}
use web3_js.Hardforks.Located.{last_active, IsOrdered}
use web3_js.Hardforks.Order.{IsDistinct, later_block-gte}
use web3_js.Hardforks.Overrides.{Covers, newest, own_value, up_to, param_by_hardfork_lem}
use web3_js.Hardforks.Qips.{Admissible, set_qips_lem}
use web3_js.Hardforks.Uses.{
  apply_all, IsSound, create_rules-IsSound, use_hardfork, use_block, use_qips,
}

abbrev fork : String → ℕ → HardforkConfig
fork n b = record { name = n; block = number b; timestamp = none; fork_hash = none }

abbrev forks : List HardforkConfig
forks =
    fork "zond" 0
    ∷ fork "berlin" 10
    ∷ record { name = "later"; block = null; timestamp = none; fork_hash = none }
    ∷ fork "london" 20
    ∷ []

abbrev chain : ChainConfig
chain = record {
  chain_name = "test";
  chain_id = 7;
  default_hardfork = some "zond";
  hardforks = forks;
  consensus = record { kind = "pos"; algorithm = "casper" };
}

abbrev spec : String → ℕ → Spec
spec n v = record {
  spec_name = n;
  spec_qips = none;
  topics = ("gas", ("exp", amount v) ∷ []) ∷ [];
  spec_consensus = none;
}

abbrev specs : JsMap String Spec
specs =
    ("zond", spec "zond" 10)
    ∷ (
      "berlin",
      record {
        spec_name = "berlin";
        spec_qips = some (5 ∷ []);
        topics = [];
        spec_consensus = none;
      },
    )
    ∷ ("later", spec "later" 40)
    ∷ ("london", spec "london" 50)
    ∷ []

abbrev table : JsMap ℕ Qip
table =
    (5, record { minimum_hardfork = "berlin"; required_qips = none; qip_topics = ("gas", []) ∷ [] })
    ∷ (6, record { minimum_hardfork = "zond"; required_qips = some (5 ∷ []); qip_topics = [] })
    ∷ []

abbrev options : CommonOptions
options = record {
  choice = by_object ("networkId" ∷ "genesis" ∷ "hardforks" ∷ "bootstrapNodes" ∷ []) chain;
  given_hardfork = some "london";
  given_qips = none;
  given_chains = [];
}

abbrev rules : Rules
rules = record {
  chain = chain;
  hardfork = "london";
  qips = [];
  custom_chains = [];
  default = "zond";
  changes =
      ("zond", some (spec "zond" 10))
      ∷ (
        "berlin",
        some (record {
          spec_name = "berlin";
          spec_qips = some (5 ∷ []);
          topics = [];
          spec_consensus = none;
        }),
      )
      ∷ ("later", some (spec "later" 40))
      ∷ ("london", some (spec "london" 50))
      ∷ [];
  events = "london" ∷ [];
}

creating : Unit {0}
unfolding create_rules chosen_chain missing_parameter made_from set_hardfork try_changes set_qips
    check_qips get
creating = tt

created : create_rules mainnet specs table options ≡ ok rules
unfolding creating
created = refl

chosen_by_block : get_hardfork_by_block_number 15 none rules ≡ ok "berlin"
unfolding select_hardfork
chosen_by_block = refl

-- The base fee of the EXP opcode, in the source's table.
table_of_zond :
    param_by_hardfork qips_table "gasPrices" "exp" "zond"
      (record rules { changes = ("zond", some zond) ∷ [] })
    ≡ ok 10
unfolding param_by_hardfork get
table_of_zond = refl

zond_not_active_on_block : hardfork_is_active_on_block (some "zond") 5 rules ≡ false
unfolding hardfork_is_active_on_block
zond_not_active_on_block = refl

next_after_zond : next_hardfork_block_or_timestamp (some "zond") rules ≡ some 10
unfolding next_hardfork_block_or_timestamp
next_after_zond = refl

forks-IsOrdered : IsOrdered 0 forks
unfolding IsOrdered
forks-IsOrdered = (omega arith, (omega arith, (omega arith, tt)))

forks-IsDistinct : IsDistinct forks
unfolding IsDistinct
forks-IsDistinct = ((refl, (refl, (refl, tt))), ((refl, (refl, tt)), ((refl, tt), (tt, tt))))

berlin_at_15 : last_active 15 forks ≡ some (fork "berlin" 10)
unfolding last_active
berlin_at_15 = refl

later_block-gte_example :
    (g : HardforkConfig) × (get_hardfork_by_block_number 15 none rules ≡ ok "berlin")
    × (get_hardfork_by_block_number 30 none rules ≡ ok g.name)
    × (hardfork_gte_hardfork (some g.name) "berlin" rules ≡ true)
later_block-gte_example =
    later_block-gte rules 15 30 (fork "berlin" 10) forks-IsOrdered forks-IsDistinct (omega arith)
      berlin_at_15

covered : All (Covers table "gas" "exp") (up_to "berlin" rules.changes)
unfolding Covers up_to param_by_qip get
covered = (tt, ((tt, tt), tt))

param_by_hardfork_lem_example :
    param_by_hardfork table "gas" "exp" "berlin" rules
    ≡ final_value (newest (own_value table "gas" "exp") (up_to "berlin" rules.changes))
param_by_hardfork_lem_example = param_by_hardfork_lem table "gas" "exp" "berlin" rules covered

set_qips_lem_example :
    (All (Admissible table (6 ∷ []) rules) (6 ∷ [])
      → set_qips table (6 ∷ []) rules ≡ (none, record rules { qips = 6 ∷ [] }))
    × (¬ All (Admissible table (6 ∷ []) rules) (6 ∷ [])
        → (e : Fault) × (set_qips table (6 ∷ []) rules ≡ (some e, rules)))
set_qips_lem_example = set_qips_lem table (6 ∷ []) rules

create_rules-IsSound_example :
    IsSound mainnet specs table
      (λ bs. 0)
      (apply_all mainnet specs table
        (λ bs. 0)
        (use_block 15 none ∷ use_qips (6 ∷ []) ∷ use_hardfork "none" ∷ [])
        rules)
create_rules-IsSound_example =
    create_rules-IsSound mainnet specs table (λ bs. 0) options
      (use_block 15 none ∷ use_qips (6 ∷ []) ∷ use_hardfork "none" ∷ []) rules created

abbrev hashed : Rules
hashed = (set_fork_hashes (λ bs. 255) (1 ∷ []) rules).1

hashing : Unit {0}
unfolding set_fork_hashes set_hashes fork_hash_of get_hardfork calc_fork_hash hashed_starts
    hex_to_uint8_array to_string_16 pad_start uint8_array_to_hex_string filler
hashing = tt

hashed_without_error : set_fork_hashes (λ bs. 255) (1 ∷ []) rules ≡ (none, hashed)
unfolding hashing
hashed_without_error = refl
