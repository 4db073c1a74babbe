-- ===== src/Eip1193/Tests.antt =====
-- A provider that knows one account (packages/web3-utils/src/web3_eip1193_provider.ts).
use web3_js.Common.{◌≡◌, ◌≢◌, refl, true, false, some, [], ◌∷◌, codes, length}
use web3_js.Fault.{ok}
use web3_js.Eip1193.{
  Identity, on_accounts, on_connected, accounts_changed, on_chain_id, on_both, seems_unchanged,
  emit_error,
}
use web3_js.Eip1193.Accounts.{on_accounts_lem, on_connected_lem, IsConnected}

abbrev known : Identity
known = record {
  chain_id = codes "0x1";
  accounts = codes "Q01" ∷ [];
  error_listeners = 1;
  log = [];
}

identity_code : Unit {0}
unfolding on_connected on_chain_id on_accounts on_both seems_unchanged emit_error
identity_code = tt

other_account_missed :
    (on_connected true (ok (some (codes "0x1"))) (ok (some (codes "Q02" ∷ []))) known).accounts
    ≡ codes "Q01" ∷ []
unfolding identity_code
other_account_missed = refl

on_accounts_lem_example :
    (1 ≡ length (codes "Q02" ∷ []) → on_accounts (ok (some (codes "Q02" ∷ []))) known ≡ known)
    × (1 ≢ length (codes "Q02" ∷ [])
        → ((on_accounts (ok (some (codes "Q02" ∷ []))) known).accounts ≡ codes "Q02" ∷ [])
          × ((on_accounts (ok (some (codes "Q02" ∷ []))) known).log
              ≡ accounts_changed (codes "Q02" ∷ []) ∷ []))
on_accounts_lem_example = on_accounts_lem (codes "Q02" ∷ []) known

on_connected_lem_example :
    IsConnected
      (ok (some (codes "0x2")))
      (ok (some []))
      known
      (on_connected false (ok (some (codes "0x2"))) (ok (some [])) known)
on_connected_lem_example = on_connected_lem false (ok (some (codes "0x2"))) (ok (some [])) known
