-- ===== src/Socket/Effects.antt =====
-- What `_settleRequest` of packages/web3-utils/src/socket_provider.ts changes.
use web3_js.Common.{ℕ, ◌≡◌, true, false, none, some, arith, nat_eq, if◌then◌else◌}
use web3_js.JsMap.{delete_all}
use web3_js.JsonRpc.{JsonRpcId, id_eq_instance}
use web3_js.Socket.State.{Lifecycle, Item, Options, Provider}
use web3_js.Socket.Settle.{Ending, settle_request, find_item, notify_diagnostics, dispose, finish}

-- `t` has the queues and the items of `s`.
pub record SameCore (s t : Provider) : Type 0 where
  pub sent : t.sent_queue ≡ s.sent_queue
  pub pending : t.pending_queue ≡ s.pending_queue
  pub items : t.items ≡ s.items
  pub next : t.next_item ≡ s.next_item

pub SameCore-notify_diagnostics : (o : Options) (s : Provider) → SameCore s (notify_diagnostics o s)
unfolding notify_diagnostics
SameCore-notify_diagnostics o s = ground arith

-- The item of a request that has ended.
abbrev pub closed : Ending → Item → Item
closed e item = record item {
  on_abort = false;
  abort = dispose item.abort;
  lifecycle = none;
  deferred = finish e item.deferred;
}

pub record Settled (s : Provider) (h : ℕ) (lc : Lifecycle) (e : Ending) (t : Provider)
    : Type 0 where
  pub sent : t.sent_queue ≡ delete_all s.sent_queue lc.ids
  pub pending : t.pending_queue ≡ delete_all s.pending_queue lc.ids
  pub items : t.items ≡ (λ j. if nat_eq h j then closed e (s.items h) else s.items j)
  pub next : t.next_item ≡ s.next_item
  pub socket : t.socket ≡ s.socket
  pub attempts : t.reconnect_attempts ≡ s.reconnect_attempts
  pub reconnecting : t.is_reconnecting ≡ s.is_reconnecting

module _ (o : Options) (s : Provider) (id : JsonRpcId) (e : Ending) where
  -- An id that stands in neither queue settles nothing.
  pub settle_request-none : find_item s id ≡ none → settle_request o id e s ≡ (s, false)
  unfolding settle_request
  settle_request-none p = rw p

  pub settle_request-some :
      (h : ℕ) (lc : Lifecycle)
      → find_item s id ≡ some h
      → (s.items h).lifecycle ≡ some lc
      → lc.settled ≡ false
      → Settled s h lc e (settle_request o id e s).0 × ((settle_request o id e s).1 ≡ true)
  unfolding settle_request notify_diagnostics
  settle_request-some h lc p q r = ground arith
