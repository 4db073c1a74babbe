-- ===== src/Deferred/Tests.antt =====
-- A deferred promise with a timer (packages/web3-utils/src/web3_deferred_promise.ts).
use web3_js.Common.{ℕ, true, List, [], ◌∷◌, ◌≡◌, refl}
use web3_js.Fault.{operation_timeout}
use web3_js.Deferred.{
  Deferred, rejected, fulfilled, is_fulfilled, create, reject, check_timeout, start_timer,
}
use web3_js.Deferred.Laws.{Use, run-create, Behaves, expected, start, resolved, refused, fired}

abbrev timed : Deferred ℕ
timed = create 5000 true "DeferredPromise timed out"

timer_wins :
    (check_timeout timed).promise ≡ rejected (operation_timeout "DeferredPromise timed out")
unfolding check_timeout create start_timer reject
timer_wins = refl

abbrev late_timer : List (Use ℕ)
late_timer = resolved 3 ∷ start ∷ fired ∷ refused (operation_timeout "late") ∷ []

run-create_example :
    Behaves late_timer (create 5000 true "late") (expected 5000 "late" true late_timer)
run-create_example = run-create 5000 true "late" late_timer

-- The timer that was started after the promise had settled changes nothing.
late_timer_expected :
    expected {A = ℕ} 5000 "late" true (resolved 3 ∷ start ∷ fired ∷ [])
    ≡ (fulfilled 3, is_fulfilled)
late_timer_expected = refl
