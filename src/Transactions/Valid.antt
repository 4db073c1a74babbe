-- ===== src/Transactions/Valid.antt =====
-- packages/web3-qrl-accounts/src/tx: what the checks of the constructors leave.
use web3_js.Common.{
  ℕ, ◌*◌, ◌≤◌, ◌<◌, ◌≡◌, refl, subst, Bool, true, false, not, Option, none, some, List, [], ◌∷◌,
  String, ltb, leb, length, nat_eq, arith, any, All,
}
use web3_js.Fault.{Fault, Result, ok, err}
use web3_js.Transactions.{
  Bytes, Transaction, TxData, TxOptions, given, bytes_or_none, made, check_base, check_fees,
  chain_of, after_checks, create_transaction, max_integer, max_uint64, ◌unless◌, is_wrong_address,
  is_wrong_item, address_bytes, AccessList,
}

pub bytes_or_none-given : (bs : Bytes) → bytes_or_none (given bs) ≡ bs
bytes_or_none-given [] = refl
bytes_or_none-given (b ∷ bs) = refl

not_lt→le : (a b : ℕ) → ltb a b ≡ false → b ≤ a
not_lt→le a b p = ground arith

not_le→lt : (a b : ℕ) → leb a b ≡ false → b < a
not_le→lt a b p = ground arith

unless-none :
    (m : String) (b : Bool) (rest : Option Fault)
    → ((m, b) unless rest) ≡ none
    → (b ≡ false) × (rest ≡ none)
unless-none m true rest p = absurd (ground arith)
unless-none m false rest p = (refl, p)

after_checks-ok :
    (d : TxData) (base : Option Fault) (chain : Result ℕ) (fees : Option Fault) {t : Transaction}
    → after_checks d base chain fees ≡ ok t
    → (base ≡ none) × ((c : ℕ) × (chain ≡ ok c) × (fees ≡ none) × (made d c ≡ t))
after_checks-ok d (some e) chain fees p = absurd (ground arith)
after_checks-ok d none (err e) fees p = absurd (ground arith)
after_checks-ok d none (ok chain) (some e) p = absurd (ground arith)
after_checks-ok d none (ok chain) none {t = t} p = (refl, (chain, refl, refl, ok-injective p))
  where
    ok-injective : {s u : Transaction} → Path (Result Transaction) (ok s) (ok u) → s ≡ u
    ok-injective e = ground arith

abbrev pub IsItem : Bytes × List Bytes → Type 0
IsItem (address, keys) = (length address ≡ address_bytes) × All (λ k. length k ≡ 32) keys

abbrev pub IsAddress : Option Bytes → Type 0
IsAddress none = Unit
IsAddress (some to) = length to ≡ address_bytes

is_wrong_address-IsAddress : (to : Bytes) → is_wrong_address to ≡ false → IsAddress (given to)
is_wrong_address-IsAddress [] p = tt
is_wrong_address-IsAddress (b ∷ bs) p = ground arith

keys-IsItem :
    (keys : List Bytes)
    → any (λ k. not (nat_eq (length k) 32)) keys ≡ false
    → All (λ k. length k ≡ 32) keys
keys-IsItem [] p = tt
keys-IsItem (k ∷ keys) p = (ground arith, keys-IsItem keys (ground arith))

items-IsItem : (items : AccessList) → any is_wrong_item items ≡ false → All IsItem items
items-IsItem [] p = tt
items-IsItem ((a, keys) ∷ items) p =
    ((ground arith, keys-IsItem keys (ground arith)), items-IsItem items (ground arith))

abbrev pub IsValid : Transaction → Type 0
IsValid t =
    (t.value ≤ max_integer)
    × (t.gas_limit ≤ max_uint64)
    × (t.nonce < max_uint64)
    × (t.gas_limit * t.max_fee ≤ max_integer)
    × (t.max_priority_fee ≤ t.max_fee)
    × (t.max_fee ≤ max_integer)
    × All IsItem t.access_list
    × IsAddress t.to

module _ (param : String → String → ℕ) (o : TxOptions) where
  pub create_transaction-made :
      (d : TxData) {t : Transaction}
      → create_transaction param o d ≡ ok t
      → (check_base param o d ≡ none)
        × ((c : ℕ) × (chain_of o.common_chain d.chain_id ≡ ok c)
            × (check_fees d ≡ none)
            × (made d c ≡ t))
  unfolding create_transaction
  create_transaction-made d p =
      after_checks-ok d (check_base param o d) (chain_of o.common_chain d.chain_id) (check_fees d) p

  base_checks :
      (d : TxData)
      → check_base param o d ≡ none
      → IsAddress (given d.to)
        × (d.value ≤ max_integer)
        × (d.gas_limit ≤ max_uint64)
        × (d.nonce < max_uint64)
  unfolding check_base
  base_checks d p =
      let (address, p1) = unless-none _ (is_wrong_address d.to) _ p in
      let (value, p2) = unless-none _ (ltb max_integer d.value) _ p1 in
      let (gas, p3) = unless-none _ (ltb max_uint64 d.gas_limit) _ p2 in
      let (nonce, p4) = unless-none _ (leb max_uint64 d.nonce) _ p3 in
      (
        is_wrong_address-IsAddress d.to address,
        not_lt→le _ _ value,
        not_lt→le _ _ gas,
        not_le→lt _ _ nonce,
      )

  fee_checks :
      (d : TxData)
      → check_fees d ≡ none
      → All IsItem d.access_list
        × (d.max_fee ≤ max_integer)
        × (d.gas_limit * d.max_fee ≤ max_integer)
        × (d.max_priority_fee ≤ d.max_fee)
  unfolding check_fees
  fee_checks d p =
      let (items, p1) = unless-none _ (any is_wrong_item d.access_list) _ p in
      let (fee, p2) = unless-none _ (ltb max_integer d.max_fee) _ p1 in
      let (priority, p3) = unless-none _ (ltb max_integer d.max_priority_fee) _ p2 in
      let (product, p4) = unless-none _ (ltb max_integer (d.gas_limit * d.max_fee)) _ p3 in
      let (order, p5) = unless-none _ (ltb d.max_fee d.max_priority_fee) _ p4 in
      (
        items-IsItem d.access_list items,
        not_lt→le _ _ fee,
        not_lt→le _ _ product,
        not_lt→le _ _ order,
      )

  made-IsValid :
      (d : TxData) (c : ℕ) → check_base param o d ≡ none → check_fees d ≡ none → IsValid (made d c)
  made-IsValid d c base fees =
      let (address, value, gas, nonce) = base_checks d base in
      let (items, fee, product, order) = fee_checks d fees in
      (value, gas, nonce, product, order, fee, items, address)

  -- A transaction that is created has a value and a fee of at most 2 ^ 256 - 1, a gas limit of at
  -- most 2 ^ 64 - 1, a nonce below that, a product of gas limit and fee of at most 2 ^ 256 - 1, a
  -- priority fee of at most the fee, addresses of 64 bytes and storage keys of 32.
  pub create_transaction-IsValid :
      (d : TxData) (t : Transaction) → create_transaction param o d ≡ ok t → IsValid t
  create_transaction-IsValid d t p =
      let (base, (c, chain, fees, e)) = create_transaction-made d p in
      subst IsValid e (made-IsValid d c base fees)

  pub create_transaction_lem :
      (d : TxData) (c : ℕ)
      → check_base param o d ≡ none
      → chain_of o.common_chain d.chain_id ≡ ok c
      → check_fees d ≡ none
      → create_transaction param o d ≡ ok (made d c)
  unfolding create_transaction
  create_transaction_lem d c base chain fees = rw (base, chain, fees) refl
