-- ===== src/Transactions/Serialized.antt =====
-- packages/web3-qrl-accounts/src/tx/eip1559Transaction.ts: a transaction that is encoded and decoded.
use web3_js.Common.{ℕ, ◌≡◌, refl, Option, none, some, List, String, subst, arith}
use web3_js.Fault.{ok}
use web3_js.Transactions.{
  Bytes, Transaction, TxData, TxOptions, made, check_base, check_fees, chain_of, create_transaction,
}
use web3_js.Transactions.Encoding.{TxItem, raw, serialize, from_serialized_tx, data_of_values}
use web3_js.Transactions.Encoded.{uint8_array_to_big_int-unpadded, big_int_to_unpadded-starts}
use web3_js.Transactions.Valid.{
  bytes_or_none-given, create_transaction-made, create_transaction_lem,
}

data_of_values-raw :
    (d : TxData) (c : ℕ) → data_of_values (raw (made d c)) ≡ ok (record d { chain_id = some c })
unfolding data_of_values raw
data_of_values-raw d c =
    simp
      (
        big_int_to_unpadded-starts c,
        big_int_to_unpadded-starts d.nonce,
        big_int_to_unpadded-starts d.max_priority_fee,
        big_int_to_unpadded-starts d.max_fee,
        big_int_to_unpadded-starts d.gas_limit,
        big_int_to_unpadded-starts d.value,
        bytes_or_none-given,
        uint8_array_to_big_int-unpadded,
      )
      refl

chain_of-chosen :
    (common id : Option ℕ) (c : ℕ) → chain_of common id ≡ ok c → chain_of common (some c) ≡ ok c
chain_of-chosen none id c p = refl
chain_of-chosen (some k) none c p = ground arith
chain_of-chosen (some k) (some id) c p = ground arith

module _ (param : String → String → ℕ) (encode : List TxItem → Bytes)
    (decode : Bytes → Option (List TxItem)) where
  made-again :
      (o : TxOptions) (d : TxData) (c : ℕ)
      → check_base param o d ≡ none
      → chain_of o.common_chain d.chain_id ≡ ok c
      → check_fees d ≡ none
      → create_transaction param o (record d { chain_id = some c }) ≡ ok (made d c)
  unfolding check_base check_fees
  made-again o d c base chain fees =
      create_transaction_lem param o (record d { chain_id = some c }) c base
        (chain_of-chosen o.common_chain d.chain_id c chain) fees

  made-decoded :
      (o : TxOptions) (d : TxData) (c : ℕ)
      → check_base param o d ≡ none
      → chain_of o.common_chain d.chain_id ≡ ok c
      → check_fees d ≡ none
      → decode (encode (raw (made d c))) ≡ some (raw (made d c))
      → from_serialized_tx param encode decode o (serialize param encode decode (made d c))
        ≡ ok (made d c)
  unfolding from_serialized_tx serialize
  made-decoded o d c base chain fees back =
      rw (back, data_of_values-raw d c) (made-again o d c base chain fees)

  -- A transaction that was created, and whose members RLP decodes to what it encoded, is read back
  -- from its serialized form with the same options, signed or not.
  pub from_serialized_tx-serialize :
      (o : TxOptions) (d : TxData) (t : Transaction)
      → create_transaction param o d ≡ ok t
      → decode (encode (raw t)) ≡ some (raw t)
      → from_serialized_tx param encode decode o (serialize param encode decode t) ≡ ok t
  from_serialized_tx-serialize o d t p =
      let (base, (c, chain, fees, e)) = create_transaction-made param o d p in
      subst
        (λ t.
          decode (encode (raw t)) ≡ some (raw t)
          → from_serialized_tx param encode decode o (serialize param encode decode t) ≡ ok t)
        e (made-decoded o d c base chain fees)
