-- ===== src/Wallets.antt =====
-- api/internal/repositories/wallet.go: a user's wallets by type. A marker row for the user and the
-- type makes each unique, and a missing wallet is created with its marker in one transaction.
pub mod Keeps
use ctech_wallet.Prelude.{
  String, Bool, true, false, Option, none, some, List, [], ◌∷◌, if◌then◌else◌,
}
use ctech_wallet.Prelude.Int.{pos}
use ctech_wallet.Prelude.Table.{has}
use ctech_wallet.Domain.Model.{WalletType, Wallet}
use ctech_wallet.Store.Keys.{marker_pk, wallet_key}
use ctech_wallet.Store.Problem.{outage, Result, ◌>>=◌, pure, raise, reads}
use ctech_wallet.Store.Tables.{Db, TxItem, Marker, put_wallet, put_marker}
use ctech_wallet.Store.Dynamo.{Dynamo, Written, done, refused, broken, Moment}
use ctech_wallet.Ledger.{transact_write}

abbrev pub same_type : WalletType → WalletType → Bool
same_type WalletType.real WalletType.real = true
same_type WalletType.game WalletType.game = true
same_type WalletType.sandbox WalletType.sandbox = true
same_type _ _ = false

-- Go's map from a type to a wallet: a missing key and a nil value are both `none`.
abbrev pub ByType : Type 0
ByType = WalletType → Option Wallet

abbrev pub no_wallets : ByType
no_wallets type = none

abbrev pub set_type : WalletType → Option Wallet → ByType → ByType
set_type type w by j = if same_type type j then w else by j

unfoldable pub missing : List WalletType → ByType → List WalletType
missing [] by = []
missing (type ∷ types) by =
    let rest = missing types by in if has (by type) then rest else type ∷ rest

-- The created wallets put into the map.
unfoldable pub merge : ByType → ByType → ByType
merge created by type = elim (created type) [ none ↦ by type | some w ↦ some w ]

unfoldable pub new_wallet : Moment → String → WalletType → Wallet
unfolding wallet_key
new_wallet t user type = record {
  wallet_id = wallet_key (t.wallet_id type);
  user_id = user;
  type = type;
  balance = pos 0;
  version = some (pos 0);
  min_deposit = pos 0;
  max_deposit = pos 0;
  min_withdrawal = pos 0;
  daily_deposit_cap = pos 0;
  daily_withdraw_cap = pos 0;
  daily_withdraw_count = pos 0;
  retired_at = "";
  created_at = t.now_str;
  updated_at = t.now_str;
}

unfoldable pub new_items : Moment → String → List WalletType → List TxItem
unfolding new_wallet marker_pk
new_items t user [] = []
new_items t user (type ∷ types) =
    put_wallet (new_wallet t user type)
    ∷ put_marker (record {
      pk = marker_pk user type;
      wallet_id = (new_wallet t user type).wallet_id;
      type = type;
      created_at = t.now_str;
    })
    ∷ new_items t user types

unfoldable pub new_wallets : Moment → String → List WalletType → ByType
unfolding new_wallet
new_wallets t user [] = no_wallets
new_wallets t user (type ∷ types) =
    set_type type (some (new_wallet t user type)) (new_wallets t user types)

module _ (d : Dynamo) where
  unfoldable pub marked : WalletType → ByType → Option Marker → Db → Result ByType × Db
  marked type by none = pure by
  marked type by (some m) = do w ← reads (d.get_wallet m.wallet_id); pure (set_type type w by)

  unfoldable pub load_from : String → List WalletType → ByType → Db → Result ByType × Db
  unfolding marked marker_pk
  load_from user [] by = pure by
  load_from user (type ∷ types) by = do
    m ← reads (d.get_marker (marker_pk user type))
    by2 ← marked type by m
    load_from user types by2

  -- loadByMarkers
  unfoldable pub load_by_markers : String → List WalletType → Db → Result ByType × Db
  unfolding load_from
  load_by_markers user types = load_from user types no_wallets

  unfoldable pub created : Moment → String → List WalletType → Written → Db → Result ByType × Db
  unfolding load_by_markers new_wallets
  created t user types done = pure (new_wallets t user types)
  created t user types refused = load_by_markers user types
  created t user types (broken message) = raise (outage message)

  -- createWallets
  unfoldable pub create_wallets : Moment → String → List WalletType → Db → Result ByType × Db
  unfolding created new_items
  create_wallets t user types = do
    written ← transact_write d (new_items t user types)
    created t user types written

  unfoldable pub complete : Moment → String → ByType → List WalletType → Db → Result ByType × Db
  unfolding create_wallets merge
  complete t user by [] = pure by
  complete t user by (type ∷ types) = do
    made ← create_wallets t user (type ∷ types)
    pure (merge made by)

  -- EnsureWalletsOfType
  unfoldable pub ensure_wallets : Moment → String → List WalletType → Db → Result ByType × Db
  unfolding complete load_by_markers missing
  ensure_wallets t user types = do
    by ← load_by_markers user types
    complete t user by (missing types by)

  -- LoadWallets
  unfoldable pub load_wallets :
      String → Db → Result (Option Wallet × Option Wallet × Option Wallet) × Db
  load_wallets user = do
    by ← load_by_markers user (WalletType.real ∷ WalletType.game ∷ WalletType.sandbox ∷ [])
    pure (by WalletType.real, by WalletType.game, by WalletType.sandbox)

  -- EnsureRealWallet
  unfoldable pub ensure_real_wallet : Moment → String → Db → Result (Option Wallet) × Db
  unfolding ensure_wallets
  ensure_real_wallet t user = do
    by ← ensure_wallets t user (WalletType.real ∷ [])
    pure (by WalletType.real)

  -- EnsureSandboxWallet
  unfoldable pub ensure_sandbox_wallet : Moment → String → Db → Result (Option Wallet) × Db
  unfolding ensure_wallets
  ensure_sandbox_wallet t user = do
    by ← ensure_wallets t user (WalletType.sandbox ∷ [])
    pure (by WalletType.sandbox)

  -- EnsureGamblingWallets
  unfoldable pub ensure_gambling_wallets :
      Moment → String → Db → Result (Option Wallet × Option Wallet) × Db
  unfolding ensure_wallets
  ensure_gambling_wallets t user = do
    by ← ensure_wallets t user (WalletType.game ∷ WalletType.sandbox ∷ [])
    pure (by WalletType.game, by WalletType.sandbox)
