-- ===== src/Hardforks/Hashed.antt =====
-- packages/web3-qrl-accounts/src/common/common.ts: fork hashes stay what they are when hardforks are
-- added, and are set once.
use mathlib.Core.List.{append-nil, append_assoc}
use web3_js.Common.{
  ℕ, Bool, true, false, Option, none, some, List, [], ◌∷◌, ◌++◌, ◌≡◌, refl, ap, All, arith, ◌∙◌,
  sym, subst, String, Text, if◌then◌else◌, ◌==◌, string_eq_instance, Bool-cases, inl, inr, any,
  ◌||◌,
}
use web3_js.Fault.{Fault, Result, ok, err}
use web3_js.Hardforks.{HardforkConfig, Rules}
use web3_js.Hardforks.Select.{time_or_block}
use web3_js.Hardforks.ForkHash.{
  new_start, hashed_starts, calc_fork_hash, lacks_hash, set_hashes, set_fork_hashes, fork_hash_of,
  on_hash, start_then, start_or,
}

-- One of the hardforks has the name.
abbrev pub has_name : String → List HardforkConfig → Bool
has_name h fs = any (λ f. f.name == h) fs

stop_or :
    (last more : Bool) {xs ys : List ℕ}
    → (last || more) ≡ true
    → (more ≡ true → xs ≡ ys)
    → (if last then [] else xs) ≡ (if last then [] else ys)
stop_or true more e h = refl
stop_or false more e h = h e

hashed_starts-append :
    (h : String) (fs gs : List HardforkConfig) (previous : ℕ)
    → has_name h fs ≡ true
    → hashed_starts h (fs ++ gs) previous ≡ hashed_starts h fs previous
unfolding hashed_starts
hashed_starts-append h [] gs previous e = ground arith
hashed_starts-append h (f ∷ fs) gs previous e =
    let start = new_start (time_or_block f) previous in
    ap (start_then start) (
      stop_or (f.name == h) (has_name h fs) e
        (hashed_starts-append h fs gs (start_or previous start)))

module _ (crc32 : List ℕ → ℕ) where
  pub calc_fork_hash-append :
      (h : String) (fs gs : List HardforkConfig) (genesis : List ℕ)
      → has_name h fs ≡ true
      → calc_fork_hash crc32 h (fs ++ gs) genesis ≡ calc_fork_hash crc32 h fs genesis
  unfolding calc_fork_hash
  calc_fork_hash-append h fs gs genesis e = rw (hashed_starts-append h fs gs 0 e) refl

  -- Every hardfork that a fork hash can be computed for has one.
  unfoldable pub IsHashed : List HardforkConfig → Type 0
  IsHashed fs = All (λ f. lacks_hash crc32 f ≡ false) fs

  IsHashed-snoc :
      (fs : List HardforkConfig) (f : HardforkConfig)
      → IsHashed fs
      → lacks_hash crc32 f ≡ false
      → IsHashed (fs ++ (f ∷ []))
  unfolding IsHashed
  IsHashed-snoc [] f h e = (e, tt)
  IsHashed-snoc (g ∷ gs) f (e', h) e = (e', IsHashed-snoc gs f h e)

  on_hash-none :
      (o : Result Text) (all gs : List HardforkConfig)
      (go : Text → Option Fault × List HardforkConfig)
      → on_hash crc32 o all go ≡ (none, gs)
      → (x : Text) × (go x ≡ (none, gs))
  on_hash-none (err e) all gs go h = ground arith
  on_hash-none (ok x) all gs go h = (x, h)

  set_hashes-IsHashed :
      (genesis : List ℕ) (seen fs gs : List HardforkConfig)
      → IsHashed seen
      → set_hashes crc32 genesis seen fs ≡ (none, gs)
      → IsHashed gs
  unfolding set_hashes
  set_hashes-IsHashed genesis seen [] gs h e = subst IsHashed (ap (λ p. p.1) e) h
  set_hashes-IsHashed genesis seen (f ∷ fs) gs h e = elim (Bool-cases (lacks_hash crc32 f)) [
    | inl lacks ↦
        let (x, e') =
          on_hash-none (fork_hash_of crc32 f.name (seen ++ (f ∷ fs)) (some genesis))
            (seen ++ (f ∷ fs)) gs
            (λ x. set_hashes crc32 genesis (seen ++ (record f { fork_hash = some x } ∷ [])) fs)
            (rw lacks at e) in
        set_hashes-IsHashed genesis (seen ++ (record f { fork_hash = some x } ∷ [])) fs gs
          (IsHashed-snoc seen (record f { fork_hash = some x }) h refl) e'
    | inr has ↦
        set_hashes-IsHashed genesis (seen ++ (f ∷ [])) fs gs (IsHashed-snoc seen f h has)
          (rw has at e)
  ]

  set_hashes-same :
      (genesis : List ℕ) (seen fs : List HardforkConfig)
      → IsHashed fs
      → set_hashes crc32 genesis seen fs ≡ (none, seen ++ fs)
  unfolding set_hashes IsHashed
  set_hashes-same genesis seen [] h = ap (λ fs. (none, fs)) (sym (append-nil seen))
  set_hashes-same genesis seen (f ∷ fs) (e, h) = rw e (
      set_hashes-same genesis (seen ++ (f ∷ [])) fs h
      ∙ ap (λ gs. (none, gs)) (append_assoc seen (f ∷ []) fs))

  -- When setting the fork hashes ends without an error, every hardfork with a block or a time has
  -- its hash, and setting them again, with any genesis hash, changes nothing.
  pub set_fork_hashes_twice :
      (genesis other : List ℕ) (r r' : Rules)
      → set_fork_hashes crc32 genesis r ≡ (none, r')
      → IsHashed r'.chain.hardforks × (set_fork_hashes crc32 other r' ≡ (none, r'))
  unfolding set_fork_hashes IsHashed
  set_fork_hashes_twice genesis other r r' e =
      let done : set_hashes crc32 genesis [] r.chain.hardforks ≡ (none, r'.chain.hardforks) =
        λ i. ((e i).0, (e i).1.chain.hardforks) in
      let hashed = set_hashes-IsHashed genesis [] r.chain.hardforks r'.chain.hardforks tt done in
      (
        hashed,
        ap (λ p. (p.0, record r' { chain = record r'.chain { hardforks = p.1 } }))
            (set_hashes-same other [] r'.chain.hardforks hashed),
      )
