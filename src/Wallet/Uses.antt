-- ===== src/Wallet/Uses.antt =====
-- Any use of the wallet of packages/web3-qrl-accounts/src/wallet.ts, against the same use of a `Map`.
use web3_js.Common.{ℕ, refl, List, [], ◌∷◌, Text, text_same_instance, to_lower_case}
use web3_js.JsMap.{JsMap, get, set, delete}
use web3_js.Wallet.{Account, Wallet, key, add_each, remove, remove_at, clear}
use web3_js.Wallet.Listed.{drop_nth}
use web3_js.Wallet.Refines.{Implements, add-Implements, remove-Implements, remove_at-Implements}

-- What a user of the wallet can do; `create` and `decrypt` add the accounts they get.
pub data Use : Type 0 where
  adding : List Account → Use
  removing : Text → Use
  removing_at : ℕ → Use
  clearing : Use

pub use_wallet : Use → Wallet → Wallet
use_wallet (adding accs) w = add_each accs w
use_wallet (removing t) w = (remove t w).1
use_wallet (removing_at i) w = (remove_at i w).1
use_wallet clearing w = clear w

pub use_map : Use → JsMap Text Account → JsMap Text Account
use_map (adding []) m = m
use_map (adding (a ∷ accs)) m = use_map (adding accs) (set m (key a) a)
use_map (removing t) m = delete m (to_lower_case t)
use_map (removing_at i) m = drop_nth m i
use_map clearing m = []

pub use_all : List Use → Wallet → Wallet
use_all [] w = w
use_all (u ∷ us) w = use_all us (use_wallet u w)

pub use_all_map : List Use → JsMap Text Account → JsMap Text Account
use_all_map [] m = m
use_all_map (u ∷ us) m = use_all_map us (use_map u m)

add_each-Implements :
    (accs : List Account) {w : Wallet} {m : JsMap Text Account}
    → Implements w m
    → Implements (add_each accs w) (use_map (adding accs) m)
unfolding add_each use_map
add_each-Implements [] v = v
add_each-Implements (a ∷ accs) v = add_each-Implements accs (add-Implements a v)

use_wallet-Implements :
    {w : Wallet} {m : JsMap Text Account} (u : Use)
    → Implements w m
    → Implements (use_wallet u w) (use_map u m)
unfolding use_wallet use_map clear get
use_wallet-Implements (adding accs) v = add_each-Implements accs v
use_wallet-Implements (removing t) v = (remove-Implements t v).1
use_wallet-Implements (removing_at i) v = (remove_at-Implements i v).1
use_wallet-Implements clearing v = record {
  listed = [];
  full = refl;
  indexed = λ k. refl;
  shown = refl;
  distinct = tt;
}

-- From any wallet that implements a map from addresses in lower case to accounts, any sequence of
-- additions, removals by address or by index and clearings leads to a wallet that implements the
-- map after the same uses.
pub use_all-Implements :
    (us : List Use) {w : Wallet} {m : JsMap Text Account}
    → Implements w m
    → Implements (use_all us w) (use_all_map us m)
unfolding use_all use_all_map
use_all-Implements [] v = v
use_all-Implements (u ∷ us) v = use_all-Implements us (use_wallet-Implements u v)
