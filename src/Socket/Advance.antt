-- ===== src/Socket/Advance.antt =====
-- What a step of packages/web3-utils/src/socket_provider.ts may change, as a relation that composes.
use web3_js.Common.{ℕ, ◌≤◌, ◌<◌, ◌≡◌, refl, none, arith, ap, ◌∙◌}
use web3_js.JsonRpc.{JsonRpcId, id_eq_instance}
use web3_js.Socket.State.{Item, Options, Provider}
use web3_js.Socket.Settle.{in_flight_count, settle_request, Ending}
use web3_js.Socket.Effects.{SameCore}
use web3_js.Socket.Consistent.{IsConsistent, IsConsistent-SameCore, settle_request-IsConsistent}
use web3_js.Socket.Teardown.{OnlyEnds, settle_request-OnlyEnds}

-- From `s` the provider comes to `t`: the queues stay consistent, a request that has ended keeps its
-- outcome, and the bounds on requests in flight and on reconnect attempts stay met.
pub record Advances (o : Options) (s t : Provider) : Type 0 where
  pub consistent : IsConsistent t
  pub history : (h : ℕ) → h < s.next_item → (s.items h).lifecycle ≡ none → t.items h ≡ s.items h
  pub grows : s.next_item ≤ t.next_item
  pub bounded : in_flight_count s ≤ o.max_in_flight → in_flight_count t ≤ o.max_in_flight
  pub attempts : s.reconnect_attempts ≤ o.max_attempts → t.reconnect_attempts ≤ o.max_attempts

module _ {o : Options} where
  pub Advances-refl : {s : Provider} → IsConsistent s → Advances o s s
  Advances-refl v = record {
    consistent = v;
    history = λ h p q. refl;
    grows = omega arith;
    bounded = λ p. p;
    attempts = λ p. p;
  }

  pub Advances-trans : {s t u : Provider} → Advances o s t → Advances o t u → Advances o s u
  Advances-trans a b = record {
    consistent = b.consistent;
    history =
        λ h p q. b.history h (omega (arith, a.grows)) (rw (a.history h p q) q) ∙ a.history h p q;
    grows = omega (arith, a.grows, b.grows);
    bounded = λ p. b.bounded (a.bounded p);
    attempts = λ p. b.attempts (a.attempts p);
  }

  pub Advances-OnlyEnds : {s t : Provider} → IsConsistent t → OnlyEnds s t → Advances o s t
  Advances-OnlyEnds v c = record {
    consistent = v;
    history = λ h p q. c.ended_kept h q;
    grows = omega (arith, c.next);
    bounded = λ p. omega (arith, c.count);
    attempts = λ p. omega (arith, c.attempts);
  }

  -- The connection, the timers or the log change, and the attempts at most fall.
  pub Advances-SameCore :
      {s t : Provider}
      → IsConsistent s
      → SameCore s t
      → (s.reconnect_attempts ≤ o.max_attempts → t.reconnect_attempts ≤ o.max_attempts)
      → Advances o s t
  Advances-SameCore {s} {t} v c fewer = record {
    consistent = IsConsistent-SameCore c v;
    history = λ h p q. ap (λ (f : ℕ → Item). f h) c.items;
    grows = omega (arith, c.next);
    bounded = λ p. rw (c.sent, c.pending) p;
    attempts = fewer;
  }

  pub Advances-settle_request :
      (s : Provider) (id : JsonRpcId) (e : Ending)
      → IsConsistent s
      → Advances o s (settle_request o id e s).0
  Advances-settle_request s id e v =
      Advances-OnlyEnds (settle_request-IsConsistent o s id e v)
        (settle_request-OnlyEnds o s id e v)
