-- ===== src/Transactions.antt =====
-- packages/web3-qrl-accounts/src/tx: transactions of type 2. `RLP`, `keccak256`, wallets and the prices of
-- a hardfork (`common.param`) are arguments.
pub mod Signing
pub mod Encoding
pub mod Encoded
pub mod Valid
pub mod Serialized
pub mod Signed
mod Tests
use web3_js.Common.{
  ℕ, zero, suc, ◌+◌, ◌-◌, ◌*◌, ◌^◌, ◌/◌, min, Bool, true, false, not, ◌&&◌, ◌||◌, Option, none,
  some, List, [], ◌∷◌, ◌++◌, String, ltb, leb, nat_eq, if◌then◌else◌, length, all, any,
}
use web3_js.JsMap.{is_some}
use web3_js.Fault.{Fault, Result, ok, err, ◌>>=◌, plain_error}
use web3_js.Hex.{to_string_16, parse_16, read_bytes, hex_of_bytes}
use web3_js.Hardforks.ForkHash.{pad_to_even}

abbrev pub Bytes : Type 0
Bytes = List ℕ

-- Addresses with their storage keys.
abbrev pub AccessList : Type 0
AccessList = List (Bytes × List Bytes)

abbrev pub max_uint64 : ℕ
max_uint64 = 2 ^ 64 - 1

abbrev pub max_integer : ℕ
max_integer = 2 ^ 256 - 1

abbrev pub address_bytes : ℕ
address_bytes = 64

pub record TxData : Type 0 where
  pub chain_id : Option ℕ
  pub nonce : ℕ
  pub max_priority_fee : ℕ
  pub max_fee : ℕ
  pub gas_limit : ℕ
  pub to : Bytes
  pub value : ℕ
  pub input : Bytes
  pub access_list : AccessList
  pub descriptor : Bytes
  pub extra_params : Bytes
  pub signature : Bytes
  pub public_key : Bytes

pub record Transaction : Type 0 where
  pub chain_id : ℕ
  pub nonce : ℕ
  pub max_priority_fee : ℕ
  pub max_fee : ℕ
  pub gas_limit : ℕ
  pub to : Option Bytes
  pub value : ℕ
  pub input : Bytes
  pub access_list : AccessList
  pub descriptor : Option Bytes
  pub extra_params : Option Bytes
  pub signature : Option Bytes
  pub public_key : Option Bytes

pub record TxOptions : Type 0 where
  pub common_chain : Option ℕ
  pub allow_unlimited_init_code : Bool

-- `toB.length > 0 ? … : undefined`
abbrev pub given : Bytes → Option Bytes
given [] = none
given (b ∷ bs) = some (b ∷ bs)

abbrev pub bytes_or_none : Option Bytes → Bytes
bytes_or_none none = []
bytes_or_none (some bs) = bs

infixr 6 ◌unless◌
-- `if (…) throw new Error(…)`
abbrev pub ◌unless◌ : String × Bool → Option Fault → Option Fault
(message, failed) unless rest = if failed then some (plain_error message) else rest

-- `_getCommon`: without a chain id the one of `common`, or of mainnet.
abbrev pub chain_of : Option ℕ → Option ℕ → Result ℕ
chain_of none none = ok 1
chain_of (some c) none = ok c
chain_of none (some id) = ok id
chain_of (some c) (some id) =
    if nat_eq c id
    then ok c
    else err (plain_error "The chain ID does not match the chain ID of Common")

abbrev pub is_wrong_address : Bytes → Bool
is_wrong_address [] = false
is_wrong_address (b ∷ bs) = not (nat_eq (length (b ∷ bs)) address_bytes)

abbrev pub is_wrong_item : Bytes × List Bytes → Bool
is_wrong_item (address, keys) =
    not (nat_eq (length address) address_bytes) || any (λ k. not (nat_eq (length k) 32)) keys

-- `checkMaxInitCodeSize`: a limit of 0 is none.
abbrev pub exceeds_init_code : ℕ → ℕ → Bool
exceeds_init_code zero n = false
exceeds_init_code (suc limit) n = ltb (suc limit) n

unfoldable pub check_fees : TxData → Option Fault
check_fees d =
    ("Invalid EIP-2930 transaction", any is_wrong_item d.access_list)
    unless ("maxFeePerGas cannot exceed MAX_INTEGER (2^256-1)", ltb max_integer d.max_fee)
    unless (
      "maxPriorityFeePerGas cannot exceed MAX_INTEGER (2^256-1)",
      ltb max_integer d.max_priority_fee,
    )
    unless (
      "gasLimit * maxFeePerGas cannot exceed MAX_INTEGER (2^256-1)",
      ltb max_integer (d.gas_limit * d.max_fee),
    )
    unless (
      "maxFeePerGas cannot be less than maxPriorityFeePerGas",
      ltb d.max_fee d.max_priority_fee,
    )
    unless none

abbrev pub made : TxData → ℕ → Transaction
made d chain = record {
  chain_id = chain;
  nonce = d.nonce;
  max_priority_fee = d.max_priority_fee;
  max_fee = d.max_fee;
  gas_limit = d.gas_limit;
  to = given d.to;
  value = d.value;
  input = d.input;
  access_list = d.access_list;
  descriptor = given d.descriptor;
  extra_params = given d.extra_params;
  signature = given d.signature;
  public_key = given d.public_key;
}

abbrev pub after_checks : TxData → Option Fault → Result ℕ → Option Fault → Result Transaction
after_checks d (some e) chain fees = err e
after_checks d none (err e) fees = err e
after_checks d none (ok chain) (some e) = err e
after_checks d none (ok chain) none = ok (made d chain)

module _ (param : String → String → ℕ) where
  -- The constructor of the base class.
  unfoldable pub check_base : TxOptions → TxData → Option Fault
  check_base o d =
      ("Invalid address length", is_wrong_address d.to)
      unless ("value cannot exceed MAX_INTEGER (2^256-1)", ltb max_integer d.value)
      unless ("gasLimit cannot exceed MAX_UINT64 (2^64-1)", ltb max_uint64 d.gas_limit)
      unless ("nonce cannot equal or exceed MAX_UINT64 (2^64-1)", leb max_uint64 d.nonce)
      unless (
        "the initcode size of this transaction is too large",
        not (is_some (given d.to))
            && not o.allow_unlimited_init_code
            && exceeds_init_code (param "vm" "maxInitCodeSize") (length d.input),
      )
      unless none

  unfoldable pub create_transaction : TxOptions → TxData → Result Transaction
  create_transaction o d =
      after_checks d (check_base o d) (chain_of o.common_chain d.chain_id) (check_fees d)
