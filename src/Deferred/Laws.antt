-- ===== src/Deferred/Laws.antt =====
-- Calls and timer events of a deferred promise, packages/web3-utils/src/web3_deferred_promise.ts.
use web3_js.Common.{
  ℕ, String, Bool, ltb, ap, ◌∙◌, sym, ◌||◌, ◌&&◌, true, false, ◌≡◌, ◌≢◌, List, [], ◌∷◌, arith, refl,
}
use web3_js.Fault.{Fault, operation_timeout}
use web3_js.Deferred.{
  Outcome, pending, fulfilled, rejected, PromiseState, is_pending, is_fulfilled, is_rejected,
  Deferred, start_timer, clear_timeout, create, resolve, reject, check_timeout,
}

abbrev pub state_of : {A : Type 0} → Outcome A → PromiseState
state_of pending = is_pending
state_of (fulfilled a) = is_fulfilled
state_of (rejected e) = is_rejected

-- What can happen to a deferred promise.
pub data Use (A : Type 0) : Type 0 where
  start : Use A
  resolved : A → Use A
  refused : Fault → Use A
  fired : Use A

module _ {A : Type 0} where
  pub apply : Use A → Deferred A → Deferred A
  apply start d = start_timer d
  apply (resolved a) d = resolve a d
  apply (refused e) d = reject e d
  apply fired d = check_timeout d

  pub run : List (Use A) → Deferred A → Deferred A
  run [] d = d
  run (u ∷ us) d = run us (apply u d)

  apply-settled :
      (u : Use A) (d : Deferred A) → d.promise ≢ pending → (apply u d).promise ≡ d.promise
  unfolding apply start_timer resolve reject check_timeout
  apply-settled start d h = ground arith
  apply-settled (resolved a) d h = ground arith
  apply-settled (refused e) d h = ground arith
  apply-settled fired d h = ground arith

  -- The state that calls leave: a timer changes nothing any more.
  abbrev pub last_call : PromiseState → List (Use A) → PromiseState
  last_call p [] = p
  last_call p (start ∷ us) = last_call p us
  last_call p (resolved a ∷ us) = last_call is_fulfilled us
  last_call p (refused e ∷ us) = last_call is_rejected us
  last_call p (fired ∷ us) = last_call p us

  run-settled :
      (us : List (Use A)) (d : Deferred A) → d.promise ≢ pending → (run us d).promise ≡ d.promise
  unfolding run
  run-settled [] d h = refl
  run-settled (u ∷ us) d h = ground (arith, apply-settled u d, run-settled us (apply u d))

  apply-state :
      (u : Use A) (d : Deferred A)
      → d.state ≢ is_pending
      → (apply u d).state ≡ last_call d.state (u ∷ [])
  unfolding apply start_timer resolve reject check_timeout clear_timeout
  apply-state start d h = ground arith
  apply-state (resolved a) d h = ground arith
  apply-state (refused e) d h = ground arith
  apply-state fired d h = ground arith

  last_call-cons :
      (p : PromiseState) (u : Use A) (us : List (Use A))
      → last_call (last_call p (u ∷ [])) us ≡ last_call p (u ∷ us)
  last_call-cons p start us = refl
  last_call-cons p (resolved a) us = refl
  last_call-cons p (refused e) us = refl
  last_call-cons p fired us = refl

  last_call-settled :
      (p : PromiseState) (u : Use A) → p ≢ is_pending → last_call p (u ∷ []) ≢ is_pending
  last_call-settled p start h = h
  last_call-settled p (resolved a) h = ground arith
  last_call-settled p (refused e) h = ground arith
  last_call-settled p fired h = h

  run-last_call :
      (us : List (Use A)) (d : Deferred A)
      → d.state ≢ is_pending
      → (run us d).state ≡ last_call d.state us
  unfolding run
  run-last_call [] d h = refl
  run-last_call (u ∷ us) d h =
      let same = apply-state u d h in
      run-last_call us (apply u d) (λ q. last_call-settled d.state u h (sym same ∙ q))
      ∙ ap (λ p. last_call p us) same
      ∙ last_call-cons d.state u us

  -- From a settled promise on, in a state that is not pending.
  run-after :
      (us : List (Use A)) (d : Deferred A) (out : Outcome A) (p : PromiseState)
      → d.promise ≡ out
      → out ≢ pending
      → d.state ≡ p
      → p ≢ is_pending
      → ((run us d).promise ≡ out) × ((run us d).state ≡ last_call p us)
  run-after us d out p same settled at ended = (
    run-settled us d (λ q. settled (sym same ∙ q)) ∙ same,
    run-last_call us d (λ q. ended (sym at ∙ q)) ∙ ap (λ p. last_call p us) at,
  )

  -- The outcome and the state of a promise whose timer fires with `message`, if `started`: the first
  -- settling call decides, or the timer once it was started.
  abbrev pub expected : ℕ → String → Bool → List (Use A) → Outcome A × PromiseState
  expected timeout message started [] = (pending, is_pending)
  expected timeout message started (start ∷ us) =
      expected timeout message (started || ltb 0 timeout) us
  expected timeout message started (resolved a ∷ us) = (fulfilled a, last_call is_fulfilled us)
  expected timeout message started (refused e ∷ us) = (rejected e, last_call is_rejected us)
  expected timeout message true (fired ∷ us) =
      (rejected (operation_timeout message), last_call is_rejected us)
  expected timeout message false (fired ∷ us) = expected timeout message false us

  abbrev pub Behaves : List (Use A) → Deferred A → Outcome A × PromiseState → Type 0
  Behaves us d (out, state) = ((run us d).promise ≡ out) × ((run us d).state ≡ state)

  run-pending :
      (us : List (Use A)) (timeout : ℕ) (message : String) (started : Bool) (d : Deferred A)
      → d.promise ≡ pending
      → d.state ≡ is_pending
      → d.timeout_id ≡ started
      → d.timeout_interval ≡ timeout
      → d.timeout_message ≡ message
      → Behaves us d (expected timeout message started us)
  unfolding run apply start_timer resolve reject check_timeout clear_timeout
  run-pending [] t m s d h p q r e = (h, p)
  run-pending (start ∷ us) t m s d h p q r e =
      run-pending us t m (s || ltb 0 t) (start_timer d) (ground arith) (ground arith) (ground arith)
        (ground arith) (ground arith)
  run-pending (resolved a ∷ us) t m s d h p q r e =
      run-after us (resolve a d) (fulfilled a) is_fulfilled (ground arith) (ground arith)
        (ground arith) (ground arith)
  run-pending (refused f ∷ us) t m s d h p q r e =
      run-after us (reject f d) (rejected f) is_rejected (ground arith) (ground arith)
        (ground arith) (ground arith)
  run-pending (fired ∷ us) t m true d h p q r e =
      run-after us (check_timeout d) (rejected (operation_timeout m)) is_rejected (ground arith)
        (ground arith) (ground arith) (ground arith)
  run-pending (fired ∷ us) t m false d h p q r e =
      run-pending us t m false (check_timeout d) (ground arith) (ground arith) (ground arith)
        (ground arith) (ground arith)

  -- A new deferred promise, through any sequence of calls and timer events: its outcome is that of
  -- the first call that settles it, or of the timer if that was started and fires before; its state
  -- is then that of the last such call, which no timer changes any more.
  pub run-create :
      (timeout : ℕ) (eager : Bool) (message : String) (us : List (Use A))
      → Behaves us
          (create timeout eager message)
          (expected timeout message (eager && ltb 0 timeout) us)
  unfolding create start_timer
  run-create timeout eager message us =
      run-pending us timeout message (eager && ltb 0 timeout) (create timeout eager message)
        (ground arith) (ground arith) (ground arith) (ground arith) (ground arith)

  -- The invariant between calls: the flag and the promise agree, and a timer that runs was started.
  pub record IsCoherent (d : Deferred A) : Type 0 where
    pub agree : state_of d.promise ≡ d.state
    pub started : d.running ≡ true → d.timeout_id ≡ true

  -- Settling a pending promise whose state and timer are coherent keeps them so and leaves no timer
  -- that can fire.
  pub settle-IsCoherent :
      (a : A) (e : Fault) (d : Deferred A)
      → IsCoherent d
      → d.promise ≡ pending
      → (IsCoherent (resolve a d) × ((resolve a d).running ≡ false))
        × (IsCoherent (reject e d) × ((reject e d).running ≡ false))
  unfolding resolve reject
  settle-IsCoherent a e d h p = ground arith
