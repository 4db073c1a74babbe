-- ===== src/Eip1193/Accounts.antt =====
-- The chain and the accounts that packages/web3-utils/src/web3_eip1193_provider.ts keeps.
use web3_js.Common.{
  ◌==◌, ◌⊎◌, inl, inr, Bool-cases, none, Bool, sym, ◌∙◌, ap, ◌≡◌, ◌≢◌, refl, arith, true, false,
  Option, some, List, [], ◌∷◌, Text, text_same_instance, ==_refl, nat_eq_iff, length, all,
}
use web3_js.Fault.{Result, ok, err}
use web3_js.Eip1193.{
  Identity, Event, connect, chain_changed, accounts_changed, emit_error, on_chain_id,
  includes_account, seems_unchanged, on_accounts, on_both, on_connected,
}

all-weaker :
    (a : Text) (accounts vs : List Text)
    → all (includes_account accounts) vs ≡ true
    → all (includes_account (a ∷ accounts)) vs ≡ true
all-weaker a accounts [] h = refl
all-weaker a accounts (v ∷ vs) h = ground (arith, all-weaker a accounts vs)

all-includes : (accounts : List Text) → all (includes_account accounts) accounts ≡ true
all-includes [] = refl
all-includes (a ∷ accounts) =
    ground (arith, ==_refl a, all-weaker a accounts accounts (all-includes accounts))

-- The accounts that a provider knows are replaced exactly when the number of accounts has changed:
-- other accounts of the same number are neither kept nor announced.
pub on_accounts_lem :
    (accounts : List Text) (s : Identity)
    → (length s.accounts ≡ length accounts → on_accounts (ok (some accounts)) s ≡ s)
      × (length s.accounts ≢ length accounts
          → ((on_accounts (ok (some accounts)) s).accounts ≡ accounts)
            × ((on_accounts (ok (some accounts)) s).log ≡ accounts_changed accounts ∷ s.log))
unfolding on_accounts seems_unchanged
on_accounts_lem accounts s = (
  λ same.
      simp (all-includes accounts, (nat_eq_iff (length s.accounts) (length accounts)).1 same) refl,
  λ other. ground (arith, nat_eq_iff (length s.accounts) (length accounts)),
)

-- The chains that a log announces, the last one first.
abbrev pub announced : List Event → List Text
announced [] = []
announced (chain_changed id ∷ es) = id ∷ announced es
announced (e ∷ es) = announced es

-- From `s` to `t` the chain becomes `id`, which is announced once if it is new.
abbrev pub Becomes : Text → Identity → Identity → Type 0
Becomes id s t =
    (t.chain_id ≡ id)
    × (((id ≡ s.chain_id) × (announced t.log ≡ announced s.log))
        ⊎ ((id ≢ s.chain_id) × (announced t.log ≡ id ∷ announced s.log)))

-- What an answer about the chain makes of it; none counts as an empty text.
abbrev pub KnowsChain : Result (Option Text) → Identity → Identity → Type 0
KnowsChain (err e) s t = (t.chain_id ≡ s.chain_id) × (announced t.log ≡ announced s.log)
KnowsChain (ok none) s t = Becomes [] s t
KnowsChain (ok (some id)) s t = Becomes id s t

abbrev SameChain : Identity → Identity → Type 0
SameChain s t = (t.chain_id ≡ s.chain_id) × (announced t.log ≡ announced s.log)

SameChain-on_accounts :
    (accounts : Result (Option (List Text))) (s : Identity) → SameChain s (on_accounts accounts s)
unfolding on_accounts seems_unchanged emit_error
SameChain-on_accounts accounts s = ground arith

accounts-on_chain_id :
    (chain : Result (Option Text)) (s : Identity) → (on_chain_id chain s).accounts ≡ s.accounts
unfolding on_chain_id emit_error
accounts-on_chain_id chain s = ground arith

Becomes-chain_known : (id : Text) (s : Identity) → Becomes id s (on_chain_id (ok (some id)) s)
unfolding on_chain_id
Becomes-chain_known id s = elim (Bool-cases (id == s.chain_id)) [
  | inl same ↦
      let e = (text_same_instance.same_iff id s.chain_id).0 same in rw same (sym e, inl (e, refl))
  | inr other ↦
      rw other
        (refl, inr (λ e. apart (sym other ∙ (text_same_instance.same_iff id s.chain_id).1 e), refl))
]
  where
    apart : false ≢ true
    apart e = ground arith

KnowsChain-on_chain_id :
    (chain : Result (Option Text)) (s : Identity) → KnowsChain chain s (on_chain_id chain s)
unfolding on_chain_id emit_error
KnowsChain-on_chain_id (err e) s = ground arith
KnowsChain-on_chain_id (ok none) s = Becomes-chain_known [] s
KnowsChain-on_chain_id (ok (some id)) s = Becomes-chain_known id s

Becomes-SameChain :
    (id : Text) (s s' t t' : Identity)
    → SameChain s s'
    → SameChain t t'
    → Becomes id s' t
    → Becomes id s t'
Becomes-SameChain id s s' t t' (before, told) (after, then_told) (known, inl (same, news)) =
    (after ∙ known, inl (same ∙ before, then_told ∙ news ∙ told))
Becomes-SameChain id s s' t t' (before, told) (after, then_told) (known, inr (other, news)) =
    (after ∙ known, inr (λ e. other (e ∙ sym before), then_told ∙ news ∙ ap (λ l. id ∷ l) told))

KnowsChain-SameChain :
    (chain : Result (Option Text)) (s s' t t' : Identity)
    → SameChain s s'
    → SameChain t t'
    → KnowsChain chain s' t
    → KnowsChain chain s t'
KnowsChain-SameChain (err e) s s' t t' (before, told) (after, then_told) (known, news) =
    (after ∙ known ∙ before, then_told ∙ news ∙ told)
KnowsChain-SameChain (ok none) s s' t t' a b k = Becomes-SameChain [] s s' t t' a b k
KnowsChain-SameChain (ok (some id)) s s' t t' a b k = Becomes-SameChain id s s' t t' a b k

accounts-on_accounts :
    (chain : Result (Option Text)) (accounts : Result (Option (List Text))) (s : Identity)
    → (on_accounts accounts (on_chain_id chain s)).accounts ≡ (on_accounts accounts s).accounts
unfolding on_chain_id on_accounts seems_unchanged emit_error
accounts-on_accounts chain accounts s = ground arith

abbrev pub IsConnected :
    Result (Option Text) → Result (Option (List Text)) → Identity → Identity → Type 0
IsConnected chain accounts s t =
    KnowsChain chain s t
    × (t.accounts ≡ (on_accounts accounts s).accounts)
    × ((rest : List Event) × (t.log ≡ connect t.chain_id ∷ rest))

-- Whichever answer comes first: the provider ends up with the chain of the answer and announces it
-- once if it is another one than before and not at all if it is the same; an answer that is an
-- error leaves the chain and announces none; the accounts are those that the answer about them
-- alone leaves; and the last thing that it announces is the connection, with the chain that it then
-- knows.
pub on_connected_lem :
    (chain_first : Bool) (chain : Result (Option Text)) (accounts : Result (Option (List Text)))
    (s : Identity)
    → IsConnected chain accounts s (on_connected chain_first chain accounts s)
unfolding on_connected on_both
on_connected_lem true chain accounts s =
    let t = on_chain_id chain s in
    (
      KnowsChain-SameChain chain s s t _ (refl, refl) (SameChain-on_accounts accounts t)
          (KnowsChain-on_chain_id chain s),
      accounts-on_accounts chain accounts s,
      ((on_accounts accounts t).log, refl),
    )
on_connected_lem false chain accounts s =
    let t = on_accounts accounts s in
    (
      KnowsChain-SameChain chain s t (on_chain_id chain t) _ (SameChain-on_accounts accounts s)
          (refl, refl) (KnowsChain-on_chain_id chain t),
      accounts-on_chain_id chain t,
      ((on_chain_id chain t).log, refl),
    )
