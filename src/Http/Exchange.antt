-- ===== src/Http/Exchange.antt =====
-- packages/web3-providers-http/src/index.ts: `request`, with its two composed signals. What happens
-- while `fetch` runs and while the body is read is a list of events.
use web3_js.Common.{ℕ, true, Option, none, some, List, [], ◌∷◌, String, Text, if◌then◌else◌}
use web3_js.Fault.{
  Fault, Result, ok, err, ◌>>=◌, response_too_large, provider_capability, connection_timeout,
  request_timeout, response_error,
}
use web3_js.JsonRpc.{Response}
use web3_js.Socket.State.{Abort}
use web3_js.Socket.Settle.{dispose}
use web3_js.Socket.Request.{
  TimeoutValue, validate_timeout, Signal, live, aborted_with, compose_abort_signal,
}
use web3_js.Http.{Bounds, HttpResponse, read_bounded_text}

pub data Happening : Type 0 where
  header_deadline request_deadline : Happening
  caller_aborts : Fault → Happening

-- `requestComposition` and `headerComposition`; the second listens to the first.
pub record Signals : Type 0 where
  pub whole : Abort
  pub header : Abort

abbrev pub signal_of : Option Fault → Signal
signal_of none = live
signal_of (some e) = aborted_with e

unfoldable pub compose_signals : ℕ → ℕ → Option Signal → Signals
compose_signals request connection caller =
    let whole = compose_abort_signal request caller in
    record {
      whole = whole;
      header = compose_abort_signal connection (some (signal_of whole.aborted));
    }

-- The abort of the signal that a composition listens to.
unfoldable pub pass_on : Fault → Abort → Abort
unfolding dispose
pass_on e a = if a.listening then dispose (record a { aborted = some e }) else a

-- The timer's callback.
unfoldable pub expire : Fault → Abort → Abort
unfolding dispose
expire e a = dispose (record a { timed_out = true; aborted = some e })

-- The `finally` block.
unfoldable pub dispose_both : Signals → Signals
unfolding dispose
dispose_both s = record { whole = dispose s.whole; header = dispose s.header }

module _ (method : Option String) where
  unfoldable pub happen : Happening → Signals → Signals
  unfolding pass_on expire
  happen header_deadline s =
      if s.header.timer
      then record s { header = expire (connection_timeout s.header.timeout) s.header }
      else s
  happen request_deadline s =
      let e = request_timeout s.whole.timeout method in
      if s.whole.timer then record { whole = expire e s.whole; header = pass_on e s.header } else s
  happen (caller_aborts e) s =
      if s.whole.listening
      then record { whole = pass_on e s.whole; header = pass_on e s.header }
      else s

  unfoldable pub happen_all : List Happening → Signals → Signals
  unfolding happen
  happen_all [] s = s
  happen_all (h ∷ hs) s = happen_all hs (happen h s)

  -- The `catch` block.
  unfoldable pub classify : Fault → Signals → Fault
  classify (response_too_large max actual) s = response_too_large max actual
  classify (provider_capability what) s = provider_capability what
  classify e s =
      if s.header.timed_out
      then connection_timeout s.header.timeout
      else if s.whole.timed_out
      then request_timeout s.whole.timeout method
      else e

-- What the network and the clock answer to one request. `cancel` is how cancelling the body ends.
pub record HttpWorld : Type 0 where
  pub until_headers : List Happening
  pub fetched : Result HttpResponse
  pub while_reading : List Happening
  pub cancel : Option Fault

-- The signals when the request ends: headers that arrive end the connection deadline.
abbrev pub settled_signals : Option String → HttpWorld → Result HttpResponse → Signals → Signals
settled_signals method w (err e) s = happen_all method w.until_headers s
settled_signals method w (ok r) s =
    let s' = happen_all method w.until_headers s in
    happen_all method w.while_reading (record s' { header = dispose s'.header })

unfoldable pub settle_signals : Option String → HttpWorld → Signals → Signals
settle_signals method w s = settled_signals method w w.fetched s

abbrev checked_status : HttpResponse → Response → Result Response
checked_status r v = if r.is_ok then ok v else err (response_error v "")

abbrev pub conclude : Option String → Result Response → Signals → Result Response
conclude method (ok v) s = ok v
conclude method (err e) s = err (classify method e s)

abbrev pub request_timeout_of : Bounds → Option TimeoutValue → Result ℕ
request_timeout_of b none = ok b.request_timeout
request_timeout_of b (some v) = validate_timeout v "requestTimeout"

-- `JSON.parse` is none where it throws; `empty` stands for `{}`.
module _ (decode : List ℕ → Text) (json_parse : Text → Option Response) (empty : Response) where
  abbrev parsed_json : Option Response → Result Response
  parsed_json none = err (response_error empty "Failed to parse HTTP response")
  parsed_json (some v) = ok v

  unfoldable pub parse_bounded_json : ℕ → Option Fault → HttpResponse → Result Response
  parse_bounded_json max cancel r = do
    text ← (read_bounded_text decode max cancel r).0
    parsed_json (json_parse text)

  -- The `try` block after `fetch`.
  unfoldable pub read_response : ℕ → Option Fault → Result HttpResponse → Result Response
  unfolding parse_bounded_json
  read_response max cancel fetched = do
    r ← fetched
    v ← parse_bounded_json max cancel r
    checked_status r v

  abbrev pub requested :
      Bounds
      → Option String
      → Option Signal
      → HttpWorld
      → Result ℕ
      → Result Response × Option Signals
  requested b method caller w (err e) = (err e, none)
  requested b method caller w (ok timeout) =
      let s = settle_signals method w (compose_signals timeout b.connection_timeout caller) in
      (
        conclude method (read_response b.max_response_bytes w.cancel w.fetched) s,
        some (dispose_both s),
      )

  unfoldable pub request_http :
      Bounds
      → Option TimeoutValue
      → Option String
      → Option Signal
      → HttpWorld
      → Result Response × Option Signals
  unfolding compose_signals settle_signals read_response
  request_http b override method caller w =
      requested b method caller w (request_timeout_of b override)
