-- ===== src/Transactions/Signing.antt =====
-- packages/web3-qrl-accounts/src/tx: the cost of a transaction, and signing it. `keccak256` and the
-- wallet of a seed are arguments.
use web3_js.Common.{
  ℕ, ◌+◌, ◌*◌, ◌/◌, Bool, not, ◌&&◌, Option, none, some, List, [], ◌∷◌, String, ltb, nat_eq,
  if◌then◌else◌, length,
}
use web3_js.JsMap.{is_some}
use web3_js.Fault.{Result, err, plain_error}
use web3_js.Transactions.{
  Bytes, AccessList, Transaction, TxData, TxOptions, bytes_or_none, create_transaction,
}
use web3_js.Transactions.Encoding.{TxItem, bytes_item, list_item, big_int_to_unpadded}

abbrev pub is_signed : Transaction → Bool
is_signed t = is_some t.descriptor && is_some t.signature && is_some t.public_key

-- `getUpfrontCost`: the subtraction may go below 0, which the smaller of the two then is.
unfoldable pub get_upfront_cost : ℕ → Transaction → ℕ
get_upfront_cost base t =
    t.gas_limit
      * (if ltb (t.max_priority_fee + base) t.max_fee then t.max_priority_fee + base else t.max_fee)
    + t.value

abbrev pub count_keys : AccessList → ℕ
count_keys [] = 0
count_keys ((a, keys) ∷ items) = length keys + count_keys items

module _ (param : String → String → ℕ) where
  unfoldable pub byte_fees : Bytes → ℕ
  byte_fees [] = 0
  byte_fees (b ∷ bs) =
      param "gasPrices" (if nat_eq b 0 then "txDataZero" else "txDataNonZero") + byte_fees bs

  -- `getDataFeeEIP2930`
  unfoldable pub access_list_fee : AccessList → ℕ
  access_list_fee items =
      length items * param "gasPrices" "accessListAddressCost"
      + count_keys items * param "gasPrices" "accessListStorageKeyCost"

  abbrev pub init_code_fee : Option Bytes → ℕ → ℕ
  init_code_fee (some to) n = 0
  init_code_fee none n = param "gasPrices" "initCodeWordCost" * ((n + 31) / 32)

  unfoldable pub get_data_fee : Transaction → ℕ
  unfolding byte_fees access_list_fee
  get_data_fee t =
      byte_fees t.input + init_code_fee t.to (length t.input) + access_list_fee t.access_list

  abbrev pub creation_fee : Option Bytes → ℕ
  creation_fee (some to) = 0
  creation_fee none = param "gasPrices" "txCreation"

  unfoldable pub get_base_fee : Transaction → ℕ
  unfolding get_data_fee
  get_base_fee t = get_data_fee t + param "gasPrices" "tx" + creation_fee t.to

pub record SigningWallet : Type 0 where
  pub descriptor : Bytes
  pub sign_message : Bytes → Bytes
  pub public_key : Bytes

abbrev pub auth_data : Transaction → Bytes → Bytes → Bytes → Bytes → TxData
auth_data t descriptor extra signature key = record {
  chain_id = some t.chain_id;
  nonce = t.nonce;
  max_priority_fee = t.max_priority_fee;
  max_fee = t.max_fee;
  gas_limit = t.gas_limit;
  to = bytes_or_none t.to;
  value = t.value;
  input = t.input;
  access_list = t.access_list;
  descriptor = descriptor;
  extra_params = extra;
  signature = signature;
  public_key = key;
}

abbrev pub seed_bytes : ℕ
seed_bytes = 51

module _ (encode : List TxItem → Bytes) (keccak : Bytes → Bytes) where
  -- The first nine members, with the descriptor and the parameters of the signature.
  unfoldable pub get_message_to_sign : Bytes → Bytes → Transaction → Bytes
  get_message_to_sign descriptor extra t = keccak (
      2
      ∷ encode (
          bytes_item (big_int_to_unpadded t.chain_id)
          ∷ bytes_item (big_int_to_unpadded t.nonce)
          ∷ bytes_item (big_int_to_unpadded t.max_priority_fee)
          ∷ bytes_item (big_int_to_unpadded t.max_fee)
          ∷ bytes_item (big_int_to_unpadded t.gas_limit)
          ∷ bytes_item (bytes_or_none t.to)
          ∷ bytes_item (big_int_to_unpadded t.value)
          ∷ bytes_item t.input
          ∷ list_item t.access_list
          ∷ bytes_item descriptor
          ∷ bytes_item extra
          ∷ []))

  unfoldable pub get_message_to_verify_signature : Transaction → Bytes
  get_message_to_verify_signature t =
      get_message_to_sign (bytes_or_none t.descriptor) (bytes_or_none t.extra_params) t

  module _ (verify : Bytes → Bytes → Bytes → Bytes → Bool) where
    -- Signature, message, key and descriptor.
    unfoldable pub verify_signature : Transaction → Bool
    unfolding get_message_to_verify_signature
    verify_signature t =
        verify (bytes_or_none t.signature) (get_message_to_verify_signature t)
          (bytes_or_none t.public_key) (bytes_or_none t.descriptor)

    unfoldable pub validate : (String → String → ℕ) → Transaction → Bool
    unfolding verify_signature
    validate param t =
        not (ltb t.gas_limit (get_base_fee param t))
        && not (is_signed t && not (verify_signature t))

  module _ (param : String → String → ℕ) (wallet_of : Bytes → SigningWallet) where
    -- The options are the transaction's own, with its `common`.
    unfoldable pub process_auth_values :
        TxOptions → Transaction → Bytes → Bytes → Bytes → Bytes → Result Transaction
    process_auth_values o t descriptor extra signature key =
        create_transaction param (record o { common_chain = some t.chain_id })
          (auth_data t descriptor extra signature key)

    unfoldable pub sign : TxOptions → Bytes → Transaction → Result Transaction
    unfolding process_auth_values
    sign o seed t =
        if nat_eq (length seed) seed_bytes
        then (let w = wallet_of seed in
            process_auth_values o t w.descriptor []
              (w.sign_message (get_message_to_sign w.descriptor [] t)) w.public_key)
        else err (plain_error "Seed must be 51 bytes in length.")
