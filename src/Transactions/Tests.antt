-- ===== src/Transactions/Tests.antt =====
-- A transfer on chain 1 (packages/web3-qrl-accounts/src/tx).
use web3_js.Common.{
  ℕ, zero, suc, ◌≡◌, refl, true, false, Bool, Option, none, some, List, [], ◌∷◌, ◌++◌, String, ◌==◌,
  string_eq_instance, if◌then◌else◌, arith, length, nat_eq, ltb, not, ◌&&◌, ◌^◌,
}
use web3_js.Fault.{ok, err, plain_error}
use web3_js.Hex.{to_string_16, digits_16, hex_digit, read_bytes, hex_value}
use web3_js.Transactions.{
  Bytes, TxData, TxOptions, made, create_transaction, check_base, check_fees,
}
use web3_js.Transactions.Encoding.{
  TxItem, bytes_item, list_item, raw, serialize, from_serialized_tx, big_int_to_unpadded,
  big_int_to_uint8_array, strip_front,
}
use web3_js.Transactions.Signing.{
  SigningWallet, sign, verify_signature, validate, get_upfront_cost, get_base_fee, get_data_fee,
  byte_fees, access_list_fee,
}
use web3_js.Transactions.Valid.{create_transaction-IsValid, IsValid}
use web3_js.Transactions.Serialized.{from_serialized_tx-serialize}
use web3_js.Transactions.Signed.{sign-signed_form, signed_form}

abbrev repeated : ℕ → ℕ → Bytes
repeated zero b = []
repeated (suc n) b = b ∷ repeated n b

abbrev price : String → String → ℕ
price topic name = if name == "tx" then 21000 else (if name == "maxInitCodeSize" then 49152 else 16)

abbrev options : TxOptions
options = record { common_chain = none; allow_unlimited_init_code = false }

abbrev transfer : TxData
transfer = record {
  chain_id = some 1;
  nonce = 3;
  max_priority_fee = 2;
  max_fee = 300;
  gas_limit = 21000;
  to = repeated 64 17;
  value = 1000;
  input = [];
  access_list = [];
  descriptor = [];
  extra_params = [];
  signature = [];
  public_key = [];
}

-- A byte for the length in front of each text, and 255 for an access list without entries.
abbrev encode : List TxItem → Bytes
encode [] = []
encode (bytes_item bs ∷ items) = length bs ∷ bs ++ encode items
encode (list_item l ∷ items) = 255 ∷ encode items

abbrev with_byte : ℕ → Option (List TxItem) → Option (List TxItem)
with_byte b (some (bytes_item bs ∷ items)) = some (bytes_item (b ∷ bs) ∷ items)
with_byte b _ = none

abbrev with_item : TxItem → Option (List TxItem) → Option (List TxItem)
with_item i none = none
with_item i (some items) = some (i ∷ items)

-- First the number of bytes that are left of the current text.
abbrev decode_from : ℕ → Bytes → Option (List TxItem)
decode_from zero [] = some []
decode_from zero (b ∷ bs) = elim (nat_eq b 255) [
  | true ↦ with_item (list_item []) (decode_from zero bs)
  | false ↦ elim (nat_eq b 0) [
    | true ↦ with_item (bytes_item []) (decode_from zero bs)
    | false ↦ decode_from b bs
  ]
]
decode_from (suc n) [] = none
decode_from (suc zero) (b ∷ bs) = with_item (bytes_item (b ∷ [])) (decode_from zero bs)
decode_from (suc (suc n)) (b ∷ bs) = with_byte b (decode_from (suc n) bs)

abbrev keccak : Bytes → Bytes
keccak bs = length bs ∷ []

abbrev wallet_of : Bytes → SigningWallet
wallet_of seed = record { descriptor = 1 ∷ []; sign_message = λ m. 7 ∷ m; public_key = 9 ∷ seed }

abbrev verify : Bytes → Bytes → Bytes → Bytes → Bool
verify (s ∷ signed) m (k ∷ key) descriptor =
    nat_eq s 7 && nat_eq k 9 && nat_eq (length signed) (length m)
verify _ m key descriptor = false

abbrev seed : Bytes
seed = repeated 51 5

accepts :
    (m : Bytes)
    → verify
        ((wallet_of seed).sign_message m)
        m
        (wallet_of seed).public_key
        (wallet_of seed).descriptor
      ≡ true
accepts m = ground arith

transfer_created : create_transaction price options transfer ≡ ok (made transfer 1)
unfolding create_transaction check_base check_fees
transfer_created = refl

create_transaction-IsValid_example : IsValid (made transfer 1)
create_transaction-IsValid_example =
    create_transaction-IsValid price options transfer (made transfer 1) transfer_created

transfer_decoded : decode_from 0 (encode (raw (made transfer 1))) ≡ some (raw (made transfer 1))
unfolding raw big_int_to_unpadded big_int_to_uint8_array strip_front to_string_16 digits_16
    hex_digit read_bytes hex_value
transfer_decoded = refl

from_serialized_tx-serialize_example :
    from_serialized_tx price encode
      (decode_from 0)
      options
      (serialize price encode (decode_from 0) (made transfer 1))
    ≡ ok (made transfer 1)
from_serialized_tx-serialize_example =
    from_serialized_tx-serialize price encode (decode_from 0) options transfer (made transfer 1)
      transfer_created transfer_decoded

sign-signed_form_example :
    (sign encode keccak price wallet_of options seed (made transfer 1)
      ≡ ok (signed_form encode keccak verify price wallet_of seed (made transfer 1)))
    × (verify_signature encode keccak verify
          (signed_form encode keccak verify price wallet_of seed (made transfer 1))
        ≡ true)
    × (validate encode keccak verify price
          (signed_form encode keccak verify price wallet_of seed (made transfer 1))
        ≡ not (ltb 21000 (get_base_fee price (made transfer 1))))
sign-signed_form_example =
    sign-signed_form encode keccak verify price wallet_of options transfer (made transfer 1) seed
      transfer_created refl accepts

-- What costs more than 2 ^ 256 - 1 is refused.
unaffordable :
    create_transaction price options (record transfer { max_fee = 2 ^ 255 })
    ≡ err (plain_error "gasLimit * maxFeePerGas cannot exceed MAX_INTEGER (2^256-1)")
unfolding create_transaction check_base check_fees
unaffordable = refl

upfront : get_upfront_cost 10 (made transfer 1) ≡ 253000
unfolding get_upfront_cost
upfront = refl

base_fee : get_base_fee price (made transfer 1) ≡ 21000
unfolding get_base_fee get_data_fee byte_fees access_list_fee
base_fee = refl
