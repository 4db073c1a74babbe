-- ===== src/Socket/Admission.antt =====
-- The guards of `request` in packages/web3-utils/src/socket_provider.ts.
use web3_js.Common.{
  ℕ, ◌+◌, ◌≤◌, ◌≡◌, true, false, Option, none, some, List, [], ◌∷◌, arith, length, ==_refl,
}
use web3_js.JsMap.{has, among}
use web3_js.JsonRpc.{JsonRpcId, id_eq_instance}
use web3_js.Fault.{ok}
use web3_js.Socket.State.{SocketPayload, one, many, Options, Provider}
use web3_js.Socket.Settle.{find_item, in_flight_count}
use web3_js.Socket.Deadline.{primary_id}
use web3_js.Socket.Request.{
  Signal, live, aborted_with, RequestOptions, extract_request_ids, check_not_sent, admit,
  has_duplicates, check_signal,
}

-- No listed id stands in a queue.
abbrev pub AreAbsent : Provider → List JsonRpcId → Type 0
AreAbsent s ids = (id : JsonRpcId) → among id ids ≡ true → find_item s id ≡ none

find_item_of_check_not_sent :
    (ids : List JsonRpcId) (s : Provider) (id : JsonRpcId) (u : Unit {0})
    → check_not_sent ids s ≡ ok u
    → among id ids ≡ true
    → find_item s id ≡ none
unfolding check_not_sent find_item has
find_item_of_check_not_sent [] s id u p m = absurd (ground arith)
find_item_of_check_not_sent (j ∷ ids) s id u p m =
    ground (arith, id_eq_instance.same_iff j id, find_item_of_check_not_sent ids s id u)

primary_of_extract :
    (payload : SocketPayload) (ids : List JsonRpcId)
    → extract_request_ids payload ≡ ok ids
    → among (primary_id payload) ids ≡ true
unfolding extract_request_ids
primary_of_extract (one p) ids e = ground (arith, ==_refl p.id)
primary_of_extract (many []) ids e = absurd (ground arith)
primary_of_extract (many (p ∷ ps)) ids e = ground (arith, ==_refl p.id)

distinct_of_extract :
    (payload : SocketPayload) (ids : List JsonRpcId)
    → extract_request_ids payload ≡ ok ids
    → has_duplicates ids ≡ false
unfolding extract_request_ids
distinct_of_extract (one p) ids e = ground arith
distinct_of_extract (many []) ids e = absurd (ground arith)
distinct_of_extract (many (p ∷ ps)) ids e = ground arith

abbrev pub IsLive : Option Signal → Type 0
IsLive (some (aborted_with e)) = ⊥
IsLive _ = Unit

IsLive-check_signal : (g : Option Signal) {u : Unit {0}} → check_signal g ≡ ok u → IsLive g
IsLive-check_signal none p = tt
IsLive-check_signal (some live) p = tt
IsLive-check_signal (some (aborted_with e)) p = cc

-- What the guards of `request` ensure.
pub record IsAdmitted (o : Options) (payload : SocketPayload) (options : RequestOptions)
    (s : Provider) (ids : List JsonRpcId) (t : ℕ) : Type 0 where
  pub extracted : extract_request_ids payload ≡ ok ids
  pub absent : AreAbsent s ids
  pub has_primary : among (primary_id payload) ids ≡ true
  pub distinct : has_duplicates ids ≡ false
  pub fits : in_flight_count s + length ids ≤ o.max_in_flight
  pub is_live : IsLive options.signal

-- `request` goes on only with a payload whose ids are distinct, are not in flight and fit under the
-- bound, and with a signal that has not aborted.
pub admit-IsAdmitted :
    (o : Options) (payload : SocketPayload) (options : RequestOptions) (s : Provider)
    (ids : List JsonRpcId) (t : ℕ)
    → admit o payload options s ≡ ok (ids, t)
    → IsAdmitted o payload options s ids t
unfolding admit
admit-IsAdmitted o payload options s ids t p =
    let extracted : extract_request_ids payload ≡ ok ids = ground arith in
    let unsent : check_not_sent ids s ≡ ok tt = ground arith in
    record {
      extracted = extracted;
      absent = λ id. find_item_of_check_not_sent ids s id tt unsent;
      has_primary = primary_of_extract payload ids extracted;
      distinct = distinct_of_extract payload ids extracted;
      fits = ground arith;
      is_live = IsLive-check_signal options.signal (ground arith);
    }
