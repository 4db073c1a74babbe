-- ===== src/JsonRpc.antt =====
-- packages/web3-utils/src/json_rpc.ts: what counts as a request, a response or a notification.
-- A JSON value that the code only passes on is a text. `Field` tells a property that is absent
-- from one that is null or undefined; a payload that is not an object has every field absent.
pub mod Kinds
mod Tests
use web3_js.Common.{
  ℕ, suc, ◌+◌, Bool, true, false, not, ◌&&◌, ◌||◌, Option, none, some, List, [], ◌∷◌, String, ◌≡◌,
  ◌↔◌, arith, SameValue, ◌==◌, leb, nat_eq, nat_eq_iff, nat_eq_instance, all, any, length,
  string_eq_instance, if◌then◌else◌,
}
use text.Mathlib.TextEquality.{eq_iff}

-- An id is a number (not negative), a string, null, or not there.
pub data JsonRpcId : Type 0 where
  num : ℕ → JsonRpcId
  str : String → JsonRpcId
  null missing : JsonRpcId

abbrev pub id_eq : JsonRpcId → JsonRpcId → Bool
id_eq (num a) (num b) = nat_eq a b
id_eq (str a) (str b) = a == b
id_eq null null = true
id_eq missing missing = true
id_eq _ _ = false

pub id_eq_iff : (a b : JsonRpcId) → (id_eq a b ≡ true) ↔ (a ≡ b)
id_eq_iff (num a) (num b) = ground arith
id_eq_iff (str a) (str b) = ground (arith, eq_iff a b)
id_eq_iff null null = ground arith
id_eq_iff missing missing = ground arith
id_eq_iff _ _ = ground arith

instance abbrev pub id_eq_instance : SameValue JsonRpcId
id_eq_instance = record { same = id_eq; same_iff = id_eq_iff }

pub data Field {ℓ} (A : Type ℓ) : Type ℓ where
  absent nullish : Field A
  present : A → Field A

abbrev pub is_nullish {ℓ} : {A : Type ℓ} → Field A → Bool
is_nullish (present a) = false
is_nullish _ = true

abbrev pub is_in {ℓ} : {A : Type ℓ} → Field A → Bool
is_in absent = false
is_in _ = true

-- An error code: `negative n` is the number -n.
pub data ErrorCode : Type 0 where
  positive negative : ℕ → ErrorCode

pub record RpcErrorObject : Type 0 where
  pub code : ErrorCode
  pub message : String

pub record Params : Type 0 where
  pub subscription : Option String
  pub result : String

pub record Message : Type 0 where
  pub version_2 : Bool
  pub id : JsonRpcId
  pub result : Field String
  pub error : Field RpcErrorObject
  pub method : Field String
  pub params : Field Params

pub data Response : Type 0 where
  single : Message → Response
  batch : List Message → Response

abbrev pub is_id : JsonRpcId → Bool
is_id (num n) = true
is_id (str s) = true
is_id _ = false

abbrev has_id : JsonRpcId → Bool
has_id missing = false
has_id _ = true

abbrev rpc_errors : List ℕ
rpc_errors =
    32700 ∷ 32600 ∷ 32601 ∷ 32602 ∷ 32603 ∷ 32000 ∷ 32004 ∷ 32002 ∷ 32003 ∷ 32001 ∷ 32006 ∷ 32005
    ∷ []

-- `rpcErrorsMap.has(code)`
abbrev pub rpc_errors_has : ErrorCode → Bool
rpc_errors_has (positive n) = false
rpc_errors_has (negative n) = any (λ c. nat_eq c n) rpc_errors

unfoldable pub is_response_rpc_error : RpcErrorObject → Bool
is_response_rpc_error e = rpc_errors_has e.code || in_server_range e.code
  where
    in_server_range : ErrorCode → Bool
    in_server_range (positive n) = false
    in_server_range (negative n) = leb n 32099 && leb 32000 n

unfoldable pub is_response_with_result : Message → Bool
is_response_with_result r = r.version_2 && is_in r.result && is_nullish r.error && is_id r.id

unfoldable pub is_response_with_error : Message → Bool
is_response_with_error r = r.version_2 && is_nullish r.result && is_in r.error && is_id r.id

unfoldable pub is_response_with_notification : Message → Bool
is_response_with_notification r =
    r.version_2 && not (is_nullish r.params) && not (is_nullish r.method)

unfoldable pub is_subscription_result : Message → Bool
is_subscription_result r = r.version_2 && has_id r.id && is_in r.result

unfoldable pub validate_response : Message → Bool
unfolding is_response_with_result is_response_with_error
validate_response r = is_response_with_result r || is_response_with_error r

-- A batch nested in a batch fails `validateResponse`, so the elements are messages.
unfoldable pub is_valid_response : Response → Bool
unfolding validate_response
is_valid_response (single r) = validate_response r
is_valid_response (batch rs) = all validate_response rs

unfoldable pub is_batch_response : Response → Bool
unfolding is_valid_response
is_batch_response (single r) = false
is_batch_response (batch []) = false
is_batch_response (batch (r ∷ rs)) = is_valid_response (batch (r ∷ rs))

-- A request: its version and its id may be left out.
pub record Call : Type 0 where
  pub version : Option String
  pub id : JsonRpcId
  pub method : String
  pub params : Option String

pub data Request : Type 0 where
  one : Call → Request
  many : List Call → Request

unfoldable pub is_batch_request : Request → Bool
is_batch_request (one c) = false
is_batch_request (many []) = false
is_batch_request (many (c ∷ cs)) = true

-- A payload that is ready to be sent.
pub record Payload : Type 0 where
  pub version : String
  pub id : JsonRpcId
  pub method : String
  pub params : Option String

abbrev or_default {ℓ} : {A : Type ℓ} → Option A → A → A
or_default (some a) d = a
or_default none d = d

-- `request.id ?? requestIdSeed ?? uuidV4()`
abbrev pub choose_id : JsonRpcId → Option ℕ → String → JsonRpcId
choose_id (num n) seed uuid = num n
choose_id (str s) seed uuid = str s
choose_id _ (some n) uuid = num n
choose_id _ none uuid = str uuid

abbrev next_seed : Option ℕ → Option ℕ
next_seed none = none
next_seed (some n) = some (n + 1)

-- `requestIdSeed` is a module variable; `uuid` is what `uuidV4` returns for this call.
unfoldable pub to_payload : Call → Option ℕ → String → Payload × Option ℕ
to_payload c seed uuid = (
  record {
    version = or_default c.version "2.0";
    id = choose_id c.id (next_seed seed) uuid;
    method = c.method;
    params = c.params;
  },
  next_seed seed,
)

unfoldable pub set_request_id_start : Option ℕ → Option ℕ → Option ℕ
set_request_id_start start seed = start

-- `requests.map(toPayload)`: the seed goes from one call to the next.
unfoldable pub to_batch_payload : List Call → Option ℕ → (ℕ → String) → ℕ → List Payload × Option ℕ
unfolding to_payload
to_batch_payload [] seed uuids i = ([], seed)
to_batch_payload (c ∷ cs) seed uuids i =
    let (p, seed') = to_payload c seed (uuids i) in
    let (ps, seed'') = to_batch_payload cs seed' uuids (suc i) in (p ∷ ps, seed'')
