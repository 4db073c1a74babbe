-- ===== src/Http.antt =====
-- packages/web3-providers-http/src/index.ts, with provider_bounds.ts of packages/web3-utils/src:
-- reading a bounded response. `fetch`, its response, the text decoder and `JSON.parse` are arguments.
pub mod Exchange
pub mod Merged
pub mod Bounded
pub mod Texts
pub mod Classified
mod Tests
use web3_js.Common.{
  ℕ, zero, suc, ◌+◌, ◌-◌, ◌*◌, Bool, true, false, ◌||◌, Option, none, some, List, [], ◌∷◌, ◌++◌,
  String, ltb, nat_eq, if◌then◌else◌, length, Text,
}
use web3_js.Fault.{
  Fault, Result, ok, err, ◌>>=◌, response_too_large, provider_capability, provider_error,
}
use web3_js.Socket.Request.{TimeoutValue, finite, validate_timeout}

pub record BoundsOptions : Type 0 where
  pub connection_timeout : Option TimeoutValue
  pub request_timeout : Option TimeoutValue
  pub max_response_bytes : Option TimeoutValue
  pub max_in_flight : Option TimeoutValue

pub record Bounds : Type 0 where
  pub connection_timeout : ℕ
  pub request_timeout : ℕ
  pub max_response_bytes : ℕ
  pub max_in_flight : ℕ

abbrev default_connection_timeout : ℕ
default_connection_timeout = 30_000

abbrev default_timeout_of_request : ℕ
default_timeout_of_request = 120_000

abbrev default_max_response_bytes : ℕ
default_max_response_bytes = 10 * 1024 * 1024

abbrev default_max_in_flight : ℕ
default_max_in_flight = 256

abbrev given_or_default : Option TimeoutValue → ℕ → TimeoutValue
given_or_default none d = finite d
given_or_default (some v) d = v

-- For a whole number, as all are here, the two validations agree.
abbrev validate_positive_integer : TimeoutValue → String → Result ℕ
validate_positive_integer v name = validate_timeout v name

unfoldable pub resolve_provider_bounds : BoundsOptions → Result Bounds
resolve_provider_bounds o = do
  c ←
      validate_timeout (given_or_default o.connection_timeout default_connection_timeout)
        "connectionTimeout"
  r ←
      validate_timeout (given_or_default o.request_timeout default_timeout_of_request)
        "requestTimeout"
  b ←
      validate_positive_integer (given_or_default o.max_response_bytes default_max_response_bytes)
        "maxResponseBytes"
  n ←
      validate_positive_integer (given_or_default o.max_in_flight default_max_in_flight)
        "maxInFlightRequests"
  ok (record {
    connection_timeout = c;
    request_timeout = r;
    max_response_bytes = b;
    max_in_flight = n;
  })

-- What a reader or an iterator hands over: nothing (`undefined`), bytes, or a value of another type.
pub data ChunkItem : Type 0 where
  nothing : ChunkItem
  binary : List ℕ → ChunkItem
  not_binary : String → ChunkItem

-- The reason of a signal: whether it aborted before the listener was there or while it was.
pub data Stop : Type 0 where
  already meanwhile : Fault → Stop

-- The body as it comes: it ends, with the reason of the signal if that has aborted by then; reading
-- it fails; the signal has aborted where the loop looks at it; or an item comes.
pub data Chunks : Type 0 where
  finished : Option Stop → Chunks
  broken : Fault → Chunks
  aborted : Stop → Chunks
  next : ChunkItem → Chunks → Chunks

pub data Action : Type 0 where
  add_listener remove_listener cancel_reader destroy_body : Action

-- `body` of a response, by the tests of `readBoundedText`.
pub data Body : Type 0 where
  no_body : Body
  array : List ℕ → Body
  stream iterable : Chunks → Body
  other_body : String → Body

-- `declared`: the `content-length` header as a whole number, if it is one.
pub record HttpResponse : Type 0 where
  pub status : ℕ
  pub is_ok : Bool
  pub declared : Option ℕ
  pub body : Body

-- `merged.set(chunk, offset)`; bytes beyond the array would throw.
abbrev pub set_at : List ℕ → List ℕ → ℕ → Option (List ℕ)
set_at merged [] offset = some merged
set_at [] (b ∷ bs) offset = none
set_at (m ∷ ms) (b ∷ bs) (suc offset) = elim (set_at ms (b ∷ bs) offset) [
  | none ↦ none
  | some rest ↦ some (m ∷ rest)
]
set_at (m ∷ ms) (b ∷ bs) zero = elim (set_at ms bs zero) [
  | none ↦ none
  | some rest ↦ some (b ∷ rest)
]

abbrev pub zeros : ℕ → List ℕ
zeros zero = []
zeros (suc n) = 0 ∷ zeros n

abbrev pub with_merged : Option (List ℕ) → (List ℕ → Option (List ℕ)) → Option (List ℕ)
with_merged none f = none
with_merged (some m) f = f m

abbrev pub merge_from : List (List ℕ) → ℕ → List ℕ → Option (List ℕ)
merge_from [] offset merged = some merged
merge_from (c ∷ cs) offset merged =
    with_merged (set_at merged c offset) (λ m. merge_from cs (offset + length c) m)

abbrev pub too_large : ℕ → ℕ → Fault
too_large max actual = response_too_large max actual

-- What a loop over the body ends with: the chunks and their size, or an error, and what it did.
pub record Reading : Type 0 where
  pub result : Result (List (List ℕ) × ℕ)
  pub actions : List Action

abbrev pub gave_up : Fault → List Action → Reading
gave_up e actions = record { result = err e; actions = actions }

-- The signal's listener runs if the signal aborts while it is there.
abbrev pub loop_stopped : Action → Stop → Reading
loop_stopped a (already e) = gave_up e []
loop_stopped a (meanwhile e) = gave_up e (a ∷ [])

abbrev pub loop_ended : Action → Option Stop → List (List ℕ) → ℕ → Reading
loop_ended a none chunks total = record { result = ok (chunks, total); actions = [] }
loop_ended a (some stop) chunks total = loop_stopped a stop

-- `await reader.cancel()` before the error; its own failure would take the error's place.
abbrev pub cancelled : Option Fault → Fault → Reading
cancelled none e = gave_up e (cancel_reader ∷ [])
cancelled (some e') e = gave_up e' (cancel_reader ∷ [])

module _ (max : ℕ) where
  module _ (cancel : Option Fault) where
    unfoldable pub reader_loop : Chunks → List (List ℕ) → ℕ → Reading
    reader_loop (finished stop) chunks total = loop_ended cancel_reader stop chunks total
    reader_loop (broken e) chunks total = gave_up e []
    reader_loop (aborted stop) chunks total = loop_stopped cancel_reader stop
    reader_loop (next nothing rest) chunks total = reader_loop rest chunks total
    reader_loop (next (not_binary kind) rest) chunks total =
        gave_up (provider_capability "binary response chunks") []
    reader_loop (next (binary bs) rest) chunks total =
        let on = reader_loop rest (chunks ++ (bs ∷ [])) (total + length bs) in
        if ltb max (total + length bs)
        then cancelled cancel (too_large max (total + length bs))
        else on

  -- `for await` closes the iterator on a throw; `destroy` is the provider's own call.
  unfoldable pub iterable_loop : Chunks → List (List ℕ) → ℕ → Reading
  iterable_loop (finished stop) chunks total = loop_ended destroy_body stop chunks total
  iterable_loop (broken e) chunks total = gave_up e []
  iterable_loop (aborted stop) chunks total = loop_stopped destroy_body stop
  iterable_loop (next nothing rest) chunks total =
      gave_up (provider_capability "binary response chunks") []
  iterable_loop (next (not_binary kind) rest) chunks total =
      gave_up (provider_capability "binary response chunks") []
  iterable_loop (next (binary bs) rest) chunks total =
      let on = iterable_loop rest (chunks ++ (bs ∷ [])) (total + length bs) in
      if ltb max (total + length bs)
      then gave_up (too_large max (total + length bs)) (destroy_body ∷ [])
      else on

abbrev is_empty_status : ℕ → Bool
is_empty_status s = nat_eq s 204 || (nat_eq s 205 || nat_eq s 304)

abbrev declares_nothing : Option ℕ → Bool
declares_nothing (some zero) = true
declares_nothing _ = false

abbrev pub over_declared : ℕ → Option ℕ → Option Fault
over_declared max none = none
over_declared max (some n) = if ltb max n then some (too_large max n) else none

module _ (decode : List ℕ → Text) where
  abbrev pub decoded : Option (List ℕ) → Result Text
  decoded none = err (provider_capability "typed array offset")
  decoded (some bs) = ok (decode bs)

  unfoldable pub decode_chunks : List (List ℕ) → ℕ → Result Text
  decode_chunks chunks total = decoded (merge_from chunks 0 (zeros total))

  -- The listener on the signal is there while the loop runs.
  abbrev pub finish_reading : Reading → Result Text × List Action
  finish_reading r = (
    elim r.result [ err e ↦ err e | ok p ↦ decode_chunks p.0 p.1 ],
    add_listener ∷ (r.actions ++ (remove_listener ∷ [])),
  )

  unfoldable pub read_from_reader : ℕ → Option Fault → Chunks → Result Text × List Action
  unfolding reader_loop decode_chunks
  read_from_reader max cancel s = finish_reading (reader_loop max cancel s [] 0)

  unfoldable pub read_from_async_iterable : ℕ → Chunks → Result Text × List Action
  unfolding iterable_loop decode_chunks
  read_from_async_iterable max s = finish_reading (iterable_loop max s [] 0)

  abbrev pub read_body : ℕ → Option Fault → HttpResponse → Body → Result Text × List Action
  read_body max cancel r no_body = (
    if declares_nothing r.declared || is_empty_status r.status
        then ok []
        else err (provider_capability "readable response body"),
    [],
  )
  read_body max cancel r (array bs) = (
    if ltb max (length bs)
        then err (too_large max (length bs))
        else decode_chunks (bs ∷ []) (length bs),
    [],
  )
  read_body max cancel r (stream s) = read_from_reader max cancel s
  read_body max cancel r (iterable s) = read_from_async_iterable max s
  read_body max cancel r (other_body kind) =
      (err (provider_capability "readable response body"), [])

  abbrev pub read_within :
      ℕ → Option Fault → HttpResponse → Option Fault → Result Text × List Action
  read_within max cancel r (some e) = (err e, [])
  read_within max cancel r none = read_body max cancel r r.body

  unfoldable pub read_bounded_text : ℕ → Option Fault → HttpResponse → Result Text × List Action
  read_bounded_text max cancel r = read_within max cancel r (over_declared max r.declared)
