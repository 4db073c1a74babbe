-- ===== src/Http/Tests.antt =====
-- A response in two chunks, and a request whose deadline passes
-- (packages/web3-providers-http/src/index.ts).
use web3_js.Common.{
  false, ℕ, ◌≡◌, ◌≤◌, ◌<◌, refl, true, none, some, [], ◌∷◌, Text, List, Option, length, ◌⊎◌, codes,
}
use web3_js.Fault.{connection_timeout, ok, err, response_too_large, request_timeout, external}
use web3_js.JsonRpc.{Response, batch}
use web3_js.Socket.Request.{compose_abort_signal}
use web3_js.Http.{
  Bounds, HttpResponse, stream, next, nothing, read_bounded_text, read_from_reader,
  read_from_async_iterable, add_listener, remove_listener, cancel_reader,
}
use web3_js.Http.Exchange.{
  read_response, HttpWorld, request_deadline, header_deadline, request_http, compose_signals,
  happen_all, dispose_both, classify, Signals,
}
use web3_js.Http.Bounded.{HasNoGap, chunks_of}
use web3_js.Http.Texts.{
  IsBoundedText-read_bounded_text, read_from_reader-iterable, read_from_reader-chunks_of,
}
use web3_js.Http.Classified.{IsReleased, request_http-IsReleased}

abbrev ascii : List ℕ → Text
ascii bs = bs

abbrev two_chunks : List (List ℕ)
two_chunks = (91 ∷ []) ∷ (49 ∷ 93 ∷ []) ∷ []

abbrev answer : HttpResponse
answer = record {
  status = 200;
  is_ok = true;
  declared = some 3;
  body = stream (chunks_of two_chunks);
}

abbrev bounds : Bounds
bounds = record {
  connection_timeout = 30_000;
  request_timeout = 120_000;
  max_response_bytes = 3;
  max_in_flight = 256;
}

reading : Unit {0}
unfolding read_bounded_text read_from_reader read_from_async_iterable
reading = tt

text_of_two_chunks : (read_bounded_text ascii 3 none answer).0 ≡ ok (codes "[1]")
unfolding reading
text_of_two_chunks = refl

one_byte_too_many :
    read_from_reader ascii 2 none (chunks_of two_chunks)
    ≡ (err (response_too_large 2 3), add_listener ∷ cancel_reader ∷ remove_listener ∷ [])
unfolding reading
one_byte_too_many = refl

-- `undefined` from a reader is passed over, from an iterator it ends the reading.
gap_in_a_reader :
    (read_from_reader ascii 3 none (next nothing (chunks_of two_chunks))).0 ≡ ok (codes "[1]")
unfolding reading
gap_in_a_reader = refl

abbrev empty : Response
empty = batch []

abbrev parse : Text → Option Response
parse t = some (batch [])

abbrev late : HttpWorld
late = record {
  until_headers = [];
  fetched = ok answer;
  while_reading = header_deadline ∷ request_deadline ∷ [];
  cancel = none;
}

late_request :
    (request_http ascii parse empty bounds none
      (some "qrl_chainId")
      none
      (record late { until_headers = request_deadline ∷ []; fetched = err (external "aborted") })).0
    ≡ err (request_timeout 120_000 (some "qrl_chainId"))
unfolding request_http classify happen_all dispose_both compose_abort_signal
late_request = refl

IsBoundedText-read_bounded_text_example :
    (codes "[1]" ≡ []) ⊎ ((bs : List ℕ) × (length bs ≤ 3) × (codes "[1]" ≡ ascii bs))
IsBoundedText-read_bounded_text_example =
    IsBoundedText-read_bounded_text ascii 3 none answer (codes "[1]") text_of_two_chunks

no_gap : HasNoGap 3 (chunks_of two_chunks)
unfolding HasNoGap
no_gap = tt

read_from_reader-iterable_example :
    (read_from_reader ascii 3 none (chunks_of two_chunks)).0
    ≡ (read_from_async_iterable ascii 3 (chunks_of two_chunks)).0
read_from_reader-iterable_example = read_from_reader-iterable ascii 3 (chunks_of two_chunks) no_gap

read_from_reader-chunks_of_example :
    (3 ≤ 2
      → read_from_reader ascii 2 none (chunks_of two_chunks)
        ≡ (ok (codes "[1]"), add_listener ∷ remove_listener ∷ []))
    × (2 < 3
        → (n : ℕ) × (2 < n)
          × (read_from_reader ascii 2 none (chunks_of two_chunks) ≡ (
            err (response_too_large 2 n),
            add_listener ∷ cancel_reader ∷ remove_listener ∷ [],
          )))
read_from_reader-chunks_of_example = read_from_reader-chunks_of ascii 2 two_chunks

request_http-IsReleased_example :
    (s : Signals) × ((request_http ascii parse empty bounds none none none late).1 ≡ some s)
    × IsReleased s.whole
    × IsReleased s.header
    × ((r : HttpResponse)
        → ok answer ≡ ok r
        → s.header.timed_out
          ≡ (happen_all none [] (compose_signals 120_000 30_000 none)).header.timed_out)
    × ((r : HttpResponse) (n : ℕ)
        → ok answer ≡ ok r
        → (happen_all none [] (compose_signals 120_000 30_000 none)).header.timed_out ≡ false
        → (request_http ascii parse empty bounds none none none late).0 ≡ err (connection_timeout n)
        → read_response ascii parse empty bounds.max_response_bytes late.cancel (ok r)
          ≡ err (connection_timeout n))
request_http-IsReleased_example =
    request_http-IsReleased ascii parse empty bounds none none none late 120_000 refl
