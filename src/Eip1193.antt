-- ===== src/Eip1193.antt =====
-- packages/web3-utils/src/web3_eip1193_provider.ts: what a provider does with the answers to the two
-- requests that it makes when it has connected.
pub mod Accounts
mod Tests
use web3_js.Common.{
  ℕ, Bool, true, false, not, ◌&&◌, ◌||◌, Option, none, some, List, [], ◌∷◌, Text,
  text_same_instance, ◌==◌, nat_eq, if◌then◌else◌, length, all, any,
}
use web3_js.Fault.{Fault, Result, ok, err}

pub data Event : Type 0 where
  chain_changed connect : Text → Event
  accounts_changed : List Text → Event
  error : Fault → Event

pub record Identity : Type 0 where
  pub chain_id : Text
  pub accounts : List Text
  pub error_listeners : ℕ
  pub log : List Event

abbrev emitted : Event → Identity → Identity
emitted e s = record s { log = e ∷ s.log }

unfoldable pub emit_error : Fault → Identity → Identity
emit_error e s = if nat_eq s.error_listeners 0 then s else emitted (error e) s

-- `data?.result ?? fallback`
abbrev pub or_fallback : {A : Type 0} → Option A → A → A
or_fallback none d = d
or_fallback (some a) d = a

abbrev chain_known : Text → Identity → Identity
chain_known id s =
    if id == s.chain_id then s else emitted (chain_changed id) (record s { chain_id = id })

unfoldable pub on_chain_id : Result (Option Text) → Identity → Identity
unfolding emit_error
on_chain_id (err e) s = emit_error e s
on_chain_id (ok id) s = chain_known (or_fallback id []) s

-- `accounts.includes(v)`
abbrev pub includes_account : List Text → Text → Bool
includes_account accounts v = any (λ a. a == v) accounts

-- Both lists of the comparison are the new one, but for the length.
unfoldable pub seems_unchanged : List Text → Identity → Bool
seems_unchanged accounts s =
    nat_eq (length s.accounts) (length accounts) && all (includes_account accounts) accounts

abbrev accounts_known : List Text → Identity → Identity
accounts_known accounts s =
    if seems_unchanged accounts s
    then s
    else emitted (accounts_changed accounts) (record s { accounts = accounts })

unfoldable pub on_accounts : Result (Option (List Text)) → Identity → Identity
unfolding emit_error
on_accounts (err e) s = emit_error e s
on_accounts (ok accounts) s = accounts_known (or_fallback accounts []) s

unfoldable pub on_both : Identity → Identity
on_both s = emitted (connect s.chain_id) s

-- `_onConnect`: the two answers come in either order.
unfoldable pub on_connected :
    Bool → Result (Option Text) → Result (Option (List Text)) → Identity → Identity
on_connected true chain accounts s = on_both (on_accounts accounts (on_chain_id chain s))
on_connected false chain accounts s = on_both (on_chain_id chain (on_accounts accounts s))
