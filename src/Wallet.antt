-- ===== src/Wallet.antt =====
-- packages/web3-qrl-accounts/src/wallet.ts: the array of accounts and the map from addresses in
-- lower case to indices. A hole of the array is `none`. `seedToAccount`, `create` and `decrypt` of
-- the account provider are given by the accounts they return.
pub mod Listed
pub mod Refines
pub mod Uses
mod Tests
use web3_js.Common.{
  ℕ, zero, suc, Bool, true, false, Option, none, some, List, [], ◌∷◌, Text, to_lower_case,
  text_same_instance, length,
}
use web3_js.JsMap.{JsMap, get, set}

pub record Account : Type 0 where
  pub address : Text
  pub seed : Text

pub record Wallet : Type 0 where
  pub accounts : List (Option Account)
  pub address_map : JsMap Text ℕ

abbrev pub key : Account → Text
key a = to_lower_case a.address

abbrev empty : Wallet
empty = record { accounts = []; address_map = [] }

-- `array[i]`, undefined for a hole and out of range.
unfoldable pub item_at : List (Option Account) → ℕ → Option Account
item_at [] i = none
item_at (x ∷ xs) zero = x
item_at (x ∷ xs) (suc i) = item_at xs i

-- `array[i] = a`: behind the end the array grows.
unfoldable pub put_at : List (Option Account) → ℕ → Account → List (Option Account)
put_at [] zero a = some a ∷ []
put_at [] (suc i) a = none ∷ put_at [] i a
put_at (x ∷ xs) zero a = some a ∷ xs
put_at (x ∷ xs) (suc i) a = x ∷ put_at xs i a

-- `array.splice(i, 1)`
unfoldable pub splice_at : List (Option Account) → ℕ → List (Option Account)
splice_at [] i = []
splice_at (x ∷ xs) zero = xs
splice_at (x ∷ xs) (suc i) = x ∷ splice_at xs i

abbrev at_index : List (Option Account) → Option ℕ → Option Account
at_index xs none = none
at_index xs (some i) = item_at xs i

unfoldable pub get_account : Text → Wallet → Option Account
unfolding item_at
get_account address w = at_index w.accounts (get w.address_map (to_lower_case address))

unfoldable pub get_at : ℕ → Wallet → Option Account
unfolding item_at
get_at i w = item_at w.accounts i

-- `this._addressMap.get(…) ?? index`
abbrev pub or_index : Option ℕ → ℕ → ℕ
or_index none n = n
or_index (some i) n = i

abbrev pub add_index : Option Account → Option ℕ → ℕ → ℕ
add_index none i n = n
add_index (some a) i n = or_index i n

unfoldable pub add : Account → Wallet → Wallet
unfolding put_at get_account
add a w =
    let i = add_index (get_account a.address w) (get w.address_map (key a)) (length w.accounts) in
    record { accounts = put_at w.accounts i a; address_map = set w.address_map (key a) i }

-- The loops of `create` and `decrypt`.
unfoldable pub add_each : List Account → Wallet → Wallet
unfolding add
add_each [] w = w
add_each (a ∷ accs) w = add_each accs (add a w)

unfoldable pub rebuild_from : List (Option Account) → ℕ → JsMap Text ℕ → JsMap Text ℕ
rebuild_from [] i m = m
rebuild_from (none ∷ xs) i m = rebuild_from xs (suc i) m
rebuild_from (some a ∷ xs) i m = rebuild_from xs (suc i) (set m (key a) i)

unfoldable pub rebuild_address_map : Wallet → Wallet
unfolding rebuild_from
rebuild_address_map w = record w { address_map = rebuild_from w.accounts 0 [] }

abbrev pub removed_at : Wallet → ℕ → Wallet
removed_at w i = rebuild_address_map (record w { accounts = splice_at w.accounts i })

abbrev remove_found : Option ℕ → Wallet → Bool × Wallet
remove_found none w = (false, w)
remove_found (some i) w = (true, removed_at w i)

unfoldable pub remove : Text → Wallet → Bool × Wallet
unfolding rebuild_address_map splice_at
remove address w = remove_found (get w.address_map (to_lower_case address)) w

abbrev remove_present : Option Account → ℕ → Wallet → Bool × Wallet
remove_present none i w = (false, w)
remove_present (some a) i w = (true, removed_at w i)

unfoldable pub remove_at : ℕ → Wallet → Bool × Wallet
unfolding rebuild_address_map splice_at item_at
remove_at i w = remove_present (item_at w.accounts i) i w

unfoldable pub clear : Wallet → Wallet
clear w = record { accounts = []; address_map = [] }
