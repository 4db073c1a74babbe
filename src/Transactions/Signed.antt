-- ===== src/Transactions/Signed.antt =====
-- packages/web3-qrl-accounts/src/tx: what signing keeps, and what a signature is of.
use web3_js.Common.{
  ℕ, ◌≡◌, Bool, true, false, none, some, List, [], String, length, subst, arith, not, ◌&&◌, ltb,
}
use web3_js.Fault.{ok}
use web3_js.Transactions.{
  Bytes, Transaction, TxData, TxOptions, given, made, check_base, check_fees, chain_of,
  create_transaction,
}
use web3_js.Transactions.Encoding.{TxItem}
use web3_js.Transactions.Signing.{
  SigningWallet, sign, process_auth_values, get_message_to_sign, get_message_to_verify_signature,
  verify_signature, validate, get_base_fee, get_data_fee, seed_bytes, is_signed,
}
use web3_js.Transactions.Valid.{
  bytes_or_none-given, create_transaction-made, create_transaction_lem,
}

chain_of_self : (c : ℕ) → chain_of (some c) (some c) ≡ ok c
chain_of_self c = ground arith

-- `t` with what a signature adds.
abbrev pub with_signature : Transaction → Bytes → Bytes → Bytes → Transaction
with_signature t descriptor signature key = record t {
  descriptor = given descriptor;
  extra_params = none;
  signature = given signature;
  public_key = given key;
}

module _ (encode : List TxItem → Bytes) (keccak : Bytes → Bytes)
    (verify : Bytes → Bytes → Bytes → Bytes → Bool) (param : String → String → ℕ)
    (wallet_of : Bytes → SigningWallet) where
  auth-made :
      (o : TxOptions) (d : TxData) (c : ℕ) (descriptor signature key : Bytes)
      → check_base param o d ≡ none
      → check_fees d ≡ none
      → process_auth_values encode keccak param wallet_of o (made d c) descriptor [] signature key
        ≡ ok (with_signature (made d c) descriptor signature key)
  unfolding process_auth_values create_transaction check_base check_fees
  auth-made o d c descriptor signature key base fees = rw (bytes_or_none-given d.to) (
      create_transaction_lem param (record o { common_chain = some c })
        (record d {
          chain_id = some c;
          descriptor = descriptor;
          extra_params = [];
          signature = signature;
          public_key = key;
        })
        c base (chain_of_self c) fees)

  -- What the wallet of `seed` makes of `t`.
  abbrev pub signed_form : Bytes → Transaction → Transaction
  signed_form seed t =
      let w = wallet_of seed in
      with_signature t w.descriptor
        (w.sign_message (get_message_to_sign encode keccak w.descriptor [] t)) w.public_key

  sign-made :
      (o : TxOptions) (d : TxData) (c : ℕ) (seed : Bytes)
      → check_base param o d ≡ none
      → check_fees d ≡ none
      → length seed ≡ seed_bytes
      → sign encode keccak param wallet_of o seed (made d c) ≡ ok (signed_form seed (made d c))
  unfolding sign
  sign-made o d c seed base fees size = rw size (
      auth-made o d c (wallet_of seed).descriptor
        ((wallet_of seed).sign_message
          (get_message_to_sign encode keccak (wallet_of seed).descriptor [] (made d c)))
        (wallet_of seed).public_key base fees)

  verify_signature-signed_form :
      (seed : Bytes) (t : Transaction)
      → ((m : Bytes)
          → verify
              ((wallet_of seed).sign_message m)
              m
              (wallet_of seed).public_key
              (wallet_of seed).descriptor
            ≡ true)
      → verify_signature encode keccak verify (signed_form seed t) ≡ true
  unfolding verify_signature get_message_to_verify_signature get_message_to_sign
  verify_signature-signed_form seed t accepts =
      rw
        (
          bytes_or_none-given (wallet_of seed).descriptor,
          bytes_or_none-given (wallet_of seed).public_key,
          bytes_or_none-given (
              (wallet_of seed).sign_message
                (get_message_to_sign encode keccak (wallet_of seed).descriptor [] t)),
        )
        (accepts (get_message_to_sign encode keccak (wallet_of seed).descriptor [] t))

  validate-signed_form :
      (seed : Bytes) (t : Transaction)
      → verify_signature encode keccak verify (signed_form seed t) ≡ true
      → validate encode keccak verify param (signed_form seed t)
        ≡ not (ltb t.gas_limit (get_base_fee param t))
  unfolding validate get_base_fee get_data_fee
  validate-signed_form seed t good =
      rw good
        (without (is_signed (signed_form seed t)) (not (ltb t.gas_limit (get_base_fee param t))))
    where
      without : (a b : Bool) → (b && not (a && false)) ≡ b
      without a b = ground arith

  -- A transaction that was created is signed by a seed of 51 bytes, when the wallet accepts what it
  -- signs itself: nothing but the descriptor, the extra parameters, the signature and the public
  -- key changes, the signature is accepted by `verifySignature`, and `validate` then asks only that
  -- the gas limit is not below the base fee.
  pub sign-signed_form :
      (o : TxOptions) (d : TxData) (t : Transaction) (seed : Bytes)
      → create_transaction param o d ≡ ok t
      → length seed ≡ seed_bytes
      → ((m : Bytes)
          → verify
              ((wallet_of seed).sign_message m)
              m
              (wallet_of seed).public_key
              (wallet_of seed).descriptor
            ≡ true)
      → (sign encode keccak param wallet_of o seed t ≡ ok (signed_form seed t))
        × (verify_signature encode keccak verify (signed_form seed t) ≡ true)
        × (validate encode keccak verify param (signed_form seed t)
            ≡ not (ltb t.gas_limit (get_base_fee param t)))
  sign-signed_form o d t seed p size accepts =
      let (base, (c, chain, fees, e)) = create_transaction-made param o d p in
      let good = verify_signature-signed_form seed t accepts in
      (
        subst (λ t. sign encode keccak param wallet_of o seed t ≡ ok (signed_form seed t)) e
            (sign-made o d c seed base fees size),
        good,
        validate-signed_form seed t good,
      )
