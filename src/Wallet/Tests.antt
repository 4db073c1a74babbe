-- ===== src/Wallet/Tests.antt =====
-- A wallet with two accounts (packages/web3-qrl-accounts/src/wallet.ts).
use web3_js.Common.{◌≡◌, refl, some, [], ◌∷◌, text_same_instance, codes, List}
use web3_js.JsMap.{get, set, delete}
use web3_js.Wallet.{
  Account, Wallet, add, get_account, remove, put_at, splice_at, item_at, rebuild_address_map,
  rebuild_from,
}
use web3_js.Wallet.Refines.{Implements}
use web3_js.Wallet.Uses.{
  adding, removing, removing_at, use_all, use_all_map, use_all-Implements, Use,
}

abbrev first : Account
first = record { address = codes "QAb01"; seed = codes "0x01" }

abbrev first_again : Account
first_again = record { address = codes "Qab01"; seed = codes "0x02" }

abbrev second : Account
second = record { address = codes "Q02"; seed = codes "0x03" }

abbrev new_wallet : Wallet
new_wallet = record { accounts = []; address_map = [] }

new_wallet-Implements : Implements new_wallet []
unfolding get
new_wallet-Implements = record {
  listed = [];
  full = refl;
  indexed = λ k. refl;
  shown = refl;
  distinct = tt;
}

wallet_code : Unit {0}
unfolding add get_account get set delete item_at put_at splice_at remove rebuild_address_map
    rebuild_from
wallet_code = tt

added_twice :
    (add first_again (add second (add first new_wallet))).accounts
    ≡ some first_again ∷ some second ∷ []
unfolding wallet_code
added_twice = refl

abbrev uses : List Use
uses = adding (first ∷ second ∷ first_again ∷ []) ∷ removing_at 0 ∷ removing (codes "q02") ∷ []

use_all-Implements_example : Implements (use_all uses new_wallet) (use_all_map uses [])
use_all-Implements_example = use_all-Implements uses new_wallet-Implements
