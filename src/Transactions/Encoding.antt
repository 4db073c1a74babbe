-- ===== src/Transactions/Encoding.antt =====
-- packages/web3-qrl-accounts/src/tx/eip1559Transaction.ts: a transaction as bytes and back. `RLP` is an
-- argument.
use web3_js.Common.{
  ℕ, zero, suc, Bool, false, Option, none, some, List, [], ◌∷◌, String, nat_eq, if◌then◌else◌, any,
}
use web3_js.Fault.{Fault, Result, ok, err, ◌>>=◌, plain_error}
use web3_js.Hex.{to_string_16, parse_16, read_bytes, hex_of_bytes}
use web3_js.Hardforks.ForkHash.{pad_to_even}
use web3_js.Transactions.{
  Bytes, AccessList, TxData, Transaction, TxOptions, bytes_or_none, create_transaction,
}

-- `stripZeros`
unfoldable pub strip_front : Bytes → Bytes
strip_front [] = []
strip_front (zero ∷ bs) = strip_front bs
strip_front (suc b ∷ bs) = suc b ∷ bs

-- `bigIntToUint8Array`: the hex text of a number, read as bytes.
unfoldable pub big_int_to_uint8_array : ℕ → Bytes
big_int_to_uint8_array n = read_bytes (pad_to_even (to_string_16 n))

unfoldable pub big_int_to_unpadded : ℕ → Bytes
big_int_to_unpadded n = strip_front (big_int_to_uint8_array n)

-- `BigInt(bytesToHex(buf))`, and 0 for no bytes.
unfoldable pub uint8_array_to_big_int : Bytes → ℕ
uint8_array_to_big_int bs = parse_16 (hex_of_bytes bs) 0

-- The members of an encoded transaction: bytes, and the access list.
pub data TxItem : Type 0 where
  bytes_item : Bytes → TxItem
  list_item : AccessList → TxItem

unfoldable pub raw : Transaction → List TxItem
raw t =
    bytes_item (big_int_to_unpadded t.chain_id)
    ∷ bytes_item (big_int_to_unpadded t.nonce)
    ∷ bytes_item (big_int_to_unpadded t.max_priority_fee)
    ∷ bytes_item (big_int_to_unpadded t.max_fee)
    ∷ bytes_item (big_int_to_unpadded t.gas_limit)
    ∷ bytes_item (bytes_or_none t.to)
    ∷ bytes_item (big_int_to_unpadded t.value)
    ∷ bytes_item t.input
    ∷ list_item t.access_list
    ∷ bytes_item (bytes_or_none t.descriptor)
    ∷ bytes_item (bytes_or_none t.extra_params)
    ∷ bytes_item (bytes_or_none t.signature)
    ∷ bytes_item (bytes_or_none t.public_key)
    ∷ []

abbrev pub starts_with_zero : Bytes → Bool
starts_with_zero [] = false
starts_with_zero (b ∷ bs) = nat_eq b 0

abbrev pub numbers_of : List Bytes → Option Fault
numbers_of bs =
    if any starts_with_zero bs then some (plain_error "cannot have leading zeroes") else none

abbrev pub data_of :
    Bytes
    → Bytes
    → Bytes
    → Bytes
    → Bytes
    → Bytes
    → Bytes
    → Bytes
    → AccessList
    → Bytes
    → Bytes
    → Bytes
    → Bytes
    → TxData
data_of chain nonce prio fee gas to value input access descriptor extra signature key = record {
  chain_id = some (uint8_array_to_big_int chain);
  nonce = uint8_array_to_big_int nonce;
  max_priority_fee = uint8_array_to_big_int prio;
  max_fee = uint8_array_to_big_int fee;
  gas_limit = uint8_array_to_big_int gas;
  to = to;
  value = uint8_array_to_big_int value;
  input = input;
  access_list = access;
  descriptor = descriptor;
  extra_params = extra;
  signature = signature;
  public_key = key;
}

abbrev pub checked_data : Option Fault → TxData → Result TxData
checked_data (some e) d = err e
checked_data none d = ok d

-- What `fromValuesArray` hands to the constructor. A member of the wrong kind is refused here, where
-- the source would convert it or fail on it.
unfoldable pub data_of_values : List TxItem → Result TxData
data_of_values
      (bytes_item chain
        ∷ bytes_item nonce
        ∷ bytes_item prio
        ∷ bytes_item fee
        ∷ bytes_item gas
        ∷ bytes_item to
        ∷ bytes_item value
        ∷ bytes_item input
        ∷ list_item access
        ∷ bytes_item descriptor
        ∷ bytes_item extra
        ∷ []) =
    checked_data (numbers_of (chain ∷ nonce ∷ prio ∷ fee ∷ gas ∷ value ∷ []))
      (data_of chain nonce prio fee gas to value input access descriptor extra [] [])
data_of_values
      (bytes_item chain
        ∷ bytes_item nonce
        ∷ bytes_item prio
        ∷ bytes_item fee
        ∷ bytes_item gas
        ∷ bytes_item to
        ∷ bytes_item value
        ∷ bytes_item input
        ∷ list_item access
        ∷ bytes_item descriptor
        ∷ bytes_item extra
        ∷ bytes_item signature
        ∷ bytes_item key
        ∷ []) =
    checked_data (numbers_of (chain ∷ nonce ∷ prio ∷ fee ∷ gas ∷ value ∷ []))
      (data_of chain nonce prio fee gas to value input access descriptor extra signature key)
data_of_values _ = err (plain_error "Invalid EIP-1559 transaction")

module _ (param : String → String → ℕ) (encode : List TxItem → Bytes)
    (decode : Bytes → Option (List TxItem)) where
  -- The type in front, as one byte.
  unfoldable pub serialize : Transaction → Bytes
  serialize t = 2 ∷ encode (raw t)

  abbrev pub from_decoded : TxOptions → Option (List TxItem) → Result Transaction
  from_decoded o none = err (plain_error "Invalid serialized tx input: must be array")
  from_decoded o (some items) = do d ← data_of_values items; create_transaction param o d

  unfoldable pub from_serialized_tx : TxOptions → Bytes → Result Transaction
  from_serialized_tx o [] =
      err (plain_error "Invalid serialized tx input: not an EIP-1559 transaction")
  from_serialized_tx o (b ∷ bs) =
      if nat_eq b 2
      then from_decoded o (decode bs)
      else err (plain_error "Invalid serialized tx input: not an EIP-1559 transaction")
