-- ===== src/Lib.antt =====
-- Verification of web3.js for the QRL execution node: how a request travels from a caller to a node
-- and back, the subscriptions and batches that stand on it, the account wallet, transactions and the
-- hardfork rules that they are made for, amounts in units, and the hex codec.
--
-- A caller hands a request to the request manager (packages/web3-core/src/web3_request_manager.ts),
-- which builds the payload and asks a provider. The socket provider (packages/web3-utils/src/
-- socket_provider.ts, with its WebSocket subclass in packages/web3-providers-ws/src/index.ts) keeps
-- a queue of requests that wait for the connection and one of those that were sent, settles each
-- request's deferred promise once, and reconnects. Its answer goes back through the request
-- manager, which tells results from errors. The subscription manager uses the request manager to
-- subscribe, and hands the notifications on.
--
-- Common (and its files Tests, Lists, Texts): Boolean tests, the conditional, equality as an
--   interface, lists, and texts as lists of code units with the ASCII part of toLowerCase.
-- JsMap: JavaScript's Map in insertion order, with its laws in JsMap/Laws.
-- Fault: the errors of packages/web3-errors/src that the modelled code throws, and results.
-- JsonRpc: packages/web3-utils/src/json_rpc.ts and the codes of rpc_errors.ts. A JSON value that is
--   only passed on is a text; ids are numbers that are not negative, strings or null.
-- Deferred: packages/web3-utils/src/web3_deferred_promise.ts. `promise` is the native promise,
--   `state` the field `_state`.
-- Eip1193: web3_eip1193_provider.ts in packages/web3-utils/src, the chain and the accounts that a
--   provider learns on connecting.
-- Socket: socket_provider.ts. Socket/State holds the record for the fields, Socket/Settle
--   `_settleRequest` and `_rejectAllRequests`, Socket/Connection connecting, reconnecting,
--   `disconnect`, `reset` and `_clearQueues`, Socket/Request the method `request` with the composed
--   abort signal of abort_helpers.ts, Socket/Message `_onMessage`, `_onConnect` and
--   `_sendPendingRequests`, Socket/Deadline the two ways a request is aborted. The proofs stand in
--   the other files, named for what they prove: Consistent and Teardown on settling, Advance on what
--   every operation keeps, Admission, Registration and Requesting on `request`, Moves and Sending on
--   the pending queue, Closing, Rejecting and Reconnecting, Expiring, Responding, Handling, and Run
--   on runs.
-- RequestManager: `_processJsonRpcResponse` and its helpers; RequestManager/Send has `_sendRequest`
--   for each kind of provider and `send`.
-- Wallet: packages/web3-qrl-accounts/src/wallet.ts, the array with its address map.
-- ChunkParser: packages/web3-utils/src/chunk_response_parser.ts, which the socket provider uses to cut
--   the stream into responses; its result is the argument of `on_message`.
-- Hardforks: packages/web3-qrl-accounts/src/common, the class `Common`. Settings sets QIPs and makes
--   instances, Select finds the hardfork of a block, Params the parameters and the consensus,
--   ForkHash the fork hashes, Zond has the tables of the source. Proofs: Located, Selected and Order on the choice by block, Overrides on parameters,
--   Qips and Uses on what is set, Hashed on fork hashes.
-- Transactions: packages/web3-qrl-accounts/src/tx, the fee market transaction: checks, in
--   Transactions/Encoding its bytes and in Transactions/Signing fees and signatures. Proofs: Valid on the checks, Encoded on numbers as
--   bytes, Serialized on the way there and back, Signed on signing.
-- Http: packages/web3-providers-http/src/index.ts and packages/web3-utils/src/provider_bounds.ts:
--   reading bounded bodies and, in Http/Exchange, `request`. Proofs: Merged, Bounded and Texts on
--   reading, Classified on how a request ends.
-- Batch: packages/web3-core/src/web3_batch_request.ts. Proofs: Settled on which response settles which
--   request, Executed on how a batch ends.
-- Units: fromPlanck and toPlanck of packages/web3-utils/src/converters.ts. Proofs: Decimal on digits,
--   Scaled on toPlanck, Dotted, Parts and Converted on the way there and back.
-- Hex: the hex part of packages/web3-validator/src/utils.ts, and isHexStrict.
-- Subscriptions: web3_subscription_manager.ts and web3_subscriptions.ts of packages/web3-core/src.
--
-- State. Each class is a record, each method a function from the record to the record, with what
-- it returns or throws. A request object that a batch puts under several ids is a number that the
-- maps hold, so the sharing is kept. Emitted events and calls of the diagnostics callback are
-- entries of a log; a callback that calls back into the provider is not modelled.
--
-- The world. What the code outside the repository answers is a parameter of each step (`World`):
-- whether a WebSocket can be opened and in which state it is, whether sending throws, and the
-- random number, as a fraction. A run is a list of events in any order, each with its own answers.
-- The reconnection delay is computed exactly and rounded down at the end.
--
-- Bounds. No loop of the modelled code needs fuel, but for the digits of a number in base 16 or 10, where
-- the fuel is one more than the number.
--
-- Not modelled: the user's event subscriptions (they only call the emitter), path validation, the
-- IPC transport, cryptography and storage, the ABI coder, and the formatting of values. Of the
-- hardfork rules: genesis files and conversions of block numbers that are given as texts. Of the HTTP
-- provider: the test of its URL and the options that it hands on to `fetch`. Of transactions: members that are given as texts, and the
-- transaction factory.
pub mod Common
pub mod JsMap
pub mod Fault
pub mod JsonRpc
pub mod Deferred
pub mod Socket
pub mod RequestManager
pub mod Wallet
pub mod Hex
pub mod Subscriptions
pub mod ChunkParser
pub mod Eip1193
pub mod Hardforks
pub mod Http
pub mod Units
pub mod Batch
pub mod Transactions
