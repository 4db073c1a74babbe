-- ===== src/Socket/State.antt =====
-- The state of packages/web3-utils/src/socket_provider.ts (`SocketProvider`), with the socket of its
-- subclass in packages/web3-providers-ws/src/index.ts. A request item is an object that several ids
-- of a batch share, so an item has a number and the queues map ids to numbers.
use web3_js.Common.{ℕ, Bool, Option, none, some, List, String, ◌++◌, [], ◌∷◌, if◌then◌else◌, nat_eq}
use web3_js.JsMap.{JsMap}
use web3_js.JsonRpc.{JsonRpcId, Response, Payload}
use web3_js.Fault.{Fault}
use web3_js.Deferred.{Deferred}

pub data ReadyState : Type 0 where
  socket_connecting socket_open socket_closing socket_closed : ReadyState

pub data Status : Type 0 where
  connecting connected disconnected : Status

pub data SocketPayload : Type 0 where
  one : Payload → SocketPayload
  many : List Payload → SocketPayload

-- packages/web3-utils/src/abort_helpers.ts: the composed signal. `timer` and `listening` are the
-- cleanups that `dispose` has not run; `aborted` holds the reason once the signal has aborted.
pub record Abort : Type 0 where
  pub aborted : Option Fault
  pub timed_out : Bool
  pub disposed : Bool
  pub timer : Bool
  pub listening : Bool
  pub timeout : ℕ

pub record Lifecycle : Type 0 where
  pub ids : List JsonRpcId
  pub settled : Bool

-- `on_abort` says that the item's listener is attached to the composed signal.
pub record Item : Type 0 where
  pub payload : SocketPayload
  pub deferred : Deferred Response
  pub abort : Abort
  pub on_abort : Bool
  pub lifecycle : Option Lifecycle

pub record Diagnostics : Type 0 where
  pub in_flight : ℕ
  pub pending_requests : ℕ
  pub sent_requests : ℕ
  pub peak_in_flight : ℕ
  pub max_in_flight_requests : ℕ

-- What the provider does to the world, in order. `failed e` is a call of `_emitError`: made at once
-- where the code makes it, and by the `catch` of a request's promise where a request is rejected.
pub data Effect : Type 0 where
  message : Response → Effect
  failed : Fault → Effect
  reported : Diagnostics → Effect
  sent_payload : SocketPayload → Effect
  closed_socket : ℕ → Effect
  connect_event : Effect
  disconnect_event : ℕ → Effect
  reconnect_in : ℕ → Effect
  reconnect_soon : Effect

pub record Options : Type 0 where
  pub socket_path : String
  pub auto_reconnect : Bool
  pub delay : ℕ
  pub max_attempts : ℕ
  pub connection_timeout : ℕ
  pub default_request_timeout : ℕ
  pub max_in_flight : ℕ
  pub on_diagnostics : Bool

pub record Provider : Type 0 where
  pub socket : Option ReadyState
  pub connection_status : Status
  pub is_reconnecting : Bool
  pub reconnect_attempts : ℕ
  pub connection_timer : Bool
  pub listening : Bool
  pub pending_queue : JsMap JsonRpcId ℕ
  pub sent_queue : JsMap JsonRpcId ℕ
  pub items : ℕ → Item
  pub next_item : ℕ
  pub peak_in_flight : ℕ
  pub log : List Effect

-- `new WebSocket` throws, with a message or none, or gives a socket.
pub data OpenResult : Type 0 where
  opened : ReadyState → OpenResult
  refused : Option String → OpenResult

-- What the code outside this repository answers: `opening` is the outcome of `new WebSocket`,
-- `closing` the ready state after `close`, `sending` what `send` throws, if anything, and
-- `random_part / random_whole` the value of `Math.random()`.
pub record World : Type 0 where
  pub opening : OpenResult
  pub closing : ReadyState
  pub sending : SocketPayload → Option Fault
  pub random_part : ℕ
  pub random_whole : ℕ

abbrev pub emit : Effect → Provider → Provider
emit e s = record s { log = s.log ++ e ∷ [] }

-- A write to the item with number `h`.
abbrev pub put_item : ℕ → Item → Provider → Provider
put_item h item s = record s { items = λ j. if nat_eq h j then item else s.items j }

-- `getStatus` of the WebSocket provider
unfoldable pub get_status : Provider → Status
get_status s = elim s.socket [
  | none ↦ disconnected
  | some r ↦ elim r [ socket_connecting ↦ connecting | socket_open ↦ connected | _ ↦ disconnected ]
]
