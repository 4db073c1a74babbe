-- ===== src/Socket/Connection.antt =====
-- packages/web3-utils/src/socket_provider.ts: connecting, the connection timer, reconnecting with a
-- growing delay, disconnecting and resetting; `_onCloseEvent` of packages/web3-providers-ws.
-- `Math.random()` is a fraction, and the delay is computed exactly and then rounded down.
use web3_js.Common.{
  ℕ, ◌+◌, ◌*◌, ◌/◌, ◌^◌, min, Bool, true, false, not, ◌&&◌, ◌||◌, Option, none, some, String, ltb,
  nat_eq, if◌then◌else◌, ◌==◌, string_eq_instance,
}
use web3_js.JsMap.{keys, size}
use web3_js.Fault.{
  Fault, Result, ok, err, connection_error, invalid_client, connection_timeout, connection_not_open,
  max_attempts_reached, pending_requests_on_reconnecting, provider_error,
}
use web3_js.Socket.State.{
  Status, connecting, connected, disconnected, Options, Provider, World, OpenResult, opened,
  refused, failed, closed_socket, disconnect_event, reconnect_in, reconnect_soon, emit, get_status,
}
use web3_js.Socket.Settle.{reject_each, reject_all_requests}

abbrev pub clear_connection_timer : Provider → Provider
clear_connection_timer s = record s { connection_timer = false }

abbrev pub arm_connection_timer : Provider → Provider
arm_connection_timer s = record s { connection_timer = true }

abbrev pub add_socket_listeners : Provider → Provider
add_socket_listeners s = record s { listening = true }

abbrev pub remove_socket_listeners : Provider → Provider
remove_socket_listeners s = record s { listening = false }

abbrev pub init : Provider → Provider
init s = record s { reconnect_attempts = 0 }

-- `this._socketConnection?.close(code, data)`
abbrev close_socket_connection : World → ℕ → Provider → Provider
close_socket_connection w code s = elim s.socket [
  | none ↦ s
  | some r ↦ emit (closed_socket code) (record s { socket = some w.closing })
]

abbrev on_disconnect : ℕ → Provider → Provider
on_disconnect code s = emit (disconnect_event code) (record s { connection_status = disconnected })

abbrev pub is_disconnected : Status → Bool
is_disconnected disconnected = true
is_disconnected _ = false

abbrev pub is_connected : Status → Bool
is_connected connected = true
is_connected _ = false

abbrev pub is_connecting : Status → Bool
is_connecting connecting = true
is_connecting _ = false

-- `code ?? NORMAL_CLOSE_CODE`
abbrev pub close_code : Option ℕ → ℕ
close_code none = 1000
close_code (some c) = c

-- The socket is closed unless it is closed already.
unfoldable pub close_if_open : World → ℕ → Provider → Provider
close_if_open w code s =
    if is_disconnected (get_status s) then s else close_socket_connection w code s

abbrev pub backoff_cap : ℕ
backoff_cap = 60_000

-- `![1000, 1001].includes(event.code) || !event.wasClean`
abbrev pub abnormal : ℕ → Bool → Bool
abnormal code clean = not (nat_eq code 1000 || nat_eq code 1001) || not clean

module _ (o : Options) where
  -- `if (e && e.message)`
  abbrev connect_fault : Option String → Fault
  connect_fault none = invalid_client o.socket_path
  connect_fault (some m) = if m == "" then invalid_client o.socket_path else connection_error m

  abbrev connect_outcome : OpenResult → Provider → Result (Unit {0}) × Provider
  connect_outcome (opened r) s = (
    ok tt,
    add_socket_listeners
        (arm_connection_timer (record s { socket = some r; connection_status = connecting })),
  )
  connect_outcome (refused m) s =
      if s.is_reconnecting then (ok tt, emit reconnect_soon (clear_connection_timer s)) else (
        err (connect_fault m),
        record s { connection_timer = false; connection_status = disconnected },
      )

  unfoldable pub connect : World → Provider → Result (Unit {0}) × Provider
  connect w s = connect_outcome w.opening s

  -- The callback of the connection timer.
  unfoldable pub on_connection_timeout : Provider → Provider
  on_connection_timeout s =
      let s' = clear_connection_timer s in
      let gone =
        reject_all_requests o (connection_timeout o.connection_timeout)
          (record s' { connection_status = disconnected }) in
      if is_connected (get_status s')
      then s'
      else emit (failed (connection_timeout o.connection_timeout)) gone

  unfoldable pub disconnect : World → Option ℕ → Provider → Provider
  unfolding close_if_open
  disconnect w code s = on_disconnect (close_code code) (
      reject_all_requests o connection_not_open
        (close_if_open w (close_code code) (remove_socket_listeners (clear_connection_timer s))))

  unfoldable pub reset : Provider → Provider
  reset s = add_socket_listeners (
      remove_socket_listeners (
        init (
          reject_all_requests o
            (provider_error "Request cancelled: the provider was reset before it settled")
            (clear_connection_timer s))))

  unfoldable pub clear_queues : Provider → Provider
  clear_queues s =
      remove_socket_listeners (reject_all_requests o connection_not_open (clear_connection_timer s))

  -- The wait before attempt `attempts`, counted from 1 (`exp`, `capped`, `jitter`, `wait`).
  unfoldable pub reconnect_wait : World → ℕ → ℕ
  reconnect_wait w attempts_before =
      let capped = min (o.delay * 2 ^ attempts_before) backoff_cap in
      capped * (8 * w.random_whole + 4 * w.random_part) / (10 * w.random_whole)

  -- The first part of `_reconnect`: what was sent is rejected.
  unfoldable pub reject_sent : Provider → Provider
  reject_sent s =
      if ltb 0 (size s.sent_queue)
      then reject_each o (keys s.sent_queue) pending_requests_on_reconnecting s
      else s

  unfoldable pub retry : World → Provider → Provider
  unfolding reconnect_wait
  retry w s =
      emit (reconnect_in (reconnect_wait w s.reconnect_attempts))
        (record s { reconnect_attempts = s.reconnect_attempts + 1 })

  unfoldable pub give_up : Provider → Provider
  unfolding clear_queues
  give_up s =
      emit (failed (max_attempts_reached o.max_attempts))
        (remove_socket_listeners (clear_queues (record s { is_reconnecting = false })))

  unfoldable pub reconnect : World → Provider → Provider
  unfolding reject_sent retry give_up
  reconnect w s =
      let s' = reject_sent (record s { is_reconnecting = true }) in
      let go = if ltb s'.reconnect_attempts o.max_attempts then retry w s' else give_up s' in
      if s.is_reconnecting then s else go

  -- The callback of the timer that `_reconnect` sets.
  unfoldable pub on_reconnect_timer : World → Provider → Provider
  on_reconnect_timer w s =
      let s1 = (connect w (remove_socket_listeners s)).1 in record s1 { is_reconnecting = false }

  unfoldable pub on_error : World → Fault → Provider → Provider
  on_error w e s = if s.is_reconnecting then reconnect w s else emit (failed e) s

  unfoldable pub on_close_event : World → ℕ → Bool → Provider → Provider
  on_close_event w code clean s =
      if o.auto_reconnect && abnormal code clean
      then reconnect w s
      else on_disconnect code (remove_socket_listeners (clear_queues s))
