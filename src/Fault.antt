-- ===== src/Fault.antt =====
-- packages/web3-errors/src/errors: the errors that the modelled code throws or rejects with.
-- `external` is whatever code outside this repository throws, by its message.
use web3_js.Common.{ℕ, String, Option}
use web3_js.JsonRpc.{JsonRpcId, Response, RpcErrorObject, Field}

pub data Fault : Type 0 where
  connection_error invalid_client provider_error web3_ws_provider_error plain_error : String → Fault
  connection_timeout max_attempts_reached request_queue_full : ℕ → Fault
  connection_not_open pending_requests_on_reconnecting : Fault
  request_already_sent : JsonRpcId → Fault
  request_timeout : ℕ → Option String → Fault
  response_error : Response → String → Fault
  operation_timeout external subscription_error : String → Fault
  chunk_size_exceeded chunk_timeout : Fault
  chain_id_not_supported : ℕ → Fault
  chain_name_not_supported missing_chain_parameter hardfork_not_supported : String → Fault
  undefined_block no_hardfork_at_zero timestamp_too_low timestamp_too_high : Fault
  qip_not_supported : ℕ → Fault
  qip_too_early : ℕ → String → Fault
  qip_requires : ℕ → ℕ → Fault
  topic_not_defined : String → Fault
  response_too_large : ℕ → ℕ → Fault
  provider_capability : String → Fault
  invalid_unit : String → Fault
  not_a_number : Fault
  operation_aborted : String → Fault
  reported_error : Field RpcErrorObject → Fault
  type_error no_fork_hash genesis_hash_required : Fault

pub data Result {ℓ} (A : Type ℓ) : Type ℓ where
  ok : A → Result A
  err : Fault → Result A

infixl 5 ◌>>=◌
abbrev pub ◌>>=◌ {ℓ κ} : {A : Type ℓ} {B : Type κ} → Result A → (A → Result B) → Result B
ok a >>= f = f a
err e >>= f = err e
