-- ===== src/Socket/Backoff.antt =====
-- The delay before a reconnection attempt: `exp`, `capped`, `jitter` and `wait` in `_reconnect` of
-- packages/web3-utils/src/socket_provider.ts.
use native.Mathlib.Nat.{
  div-add-mod, mod-lt, le_of_mul-le-mul_left, lt_of_mul-lt-mul_left, mul-le-mul_left,
}
use web3_js.Common.{ℕ, ◌+◌, ◌*◌, ◌/◌, ◌^◌, ◌≤◌, ◌<◌, min, arith}
use web3_js.Socket.State.{Options, World}
use web3_js.Socket.Connection.{reconnect_wait, backoff_cap}

-- A fraction `(8 + 4 r) / 10` of `c` with `0 ≤ r < 1`, rounded down.
scaled_bounds :
    (c p r : ℕ)
    → p < r
    → (c * 8 ≤ 10 * (c * (8 * r + 4 * p) / (10 * r)) + 9)
      × (10 * (c * (8 * r + 4 * p) / (10 * r)) ≤ c * 12)
scaled_bounds c p r h =
    let q = c * (8 * r + 4 * p) / (10 * r) in
    let split = div-add-mod (c * (8 * r + 4 * p)) (10 * r) in
    let small = mod-lt (c * (8 * r + 4 * p)) {m = 10 * r} (omega arith) in
    let cp : c * p ≤ c * r = mul-le-mul_left c (omega arith) in
    let low : r * (c * 8) < r * (10 * q + 10) = omega arith in
    let high : r * (10 * q) ≤ r * (c * 12) = omega arith in
    (
      omega (arith, lt_of_mul-lt-mul_left r {m = c * 8} {n = 10 * q + 10} low),
      le_of_mul-le-mul_left {k = r} high (omega arith),
    )

-- The wait before a reconnection lies between four fifths (rounded down) and six fifths of the
-- exponential delay capped at a minute, for a random number below 1.
pub reconnect_wait_bounds :
    (o : Options) (w : World) (n : ℕ)
    → w.random_part < w.random_whole
    → (min (o.delay * 2 ^ n) backoff_cap * 8 ≤ 10 * reconnect_wait o w n + 9)
      × (10 * reconnect_wait o w n ≤ min (o.delay * 2 ^ n) backoff_cap * 12)
unfolding reconnect_wait
reconnect_wait_bounds o w n h =
    scaled_bounds (min (o.delay * 2 ^ n) backoff_cap) w.random_part w.random_whole h
