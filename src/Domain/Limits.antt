-- ===== src/Domain/Limits.antt =====
-- api/internal/domain/wallet/deposit_limits.go and withdrawal_amount.go: the range of a deposit
-- and the least withdrawal, with a wallet's overrides. `none` is Go's nil wallet.
pub mod Bounds
use ctech_wallet.Prelude.{Bool, true, false, ◌||◌, Option, none, some, if◌then◌else◌}
use ctech_wallet.Prelude.Int.{ℤ, pos, ltb_ℤ}
use ctech_wallet.Domain.Model.{Wallet}

abbrev pub default_min_deposit : ℤ
default_min_deposit = pos 100

abbrev pub default_max_deposit : ℤ
default_max_deposit = pos 1000000

abbrev pub absolute_min_deposit : ℤ
absolute_min_deposit = pos 100

-- An override counts when it is above zero.
abbrev pub override : ℤ → ℤ → ℤ
override value fallback = if ltb_ℤ (pos 0) value then value else fallback

configured_range : Option Wallet → ℤ × ℤ
configured_range none = (default_min_deposit, default_max_deposit)
configured_range (some w) =
    (override w.min_deposit default_min_deposit, override w.max_deposit default_max_deposit)

raise_to : ℤ → ℤ → ℤ
raise_to floor x = if ltb_ℤ x floor then floor else x

unfoldable pub deposit_limits : Option Wallet → ℤ × ℤ
unfolding configured_range raise_to ltb_ℤ
deposit_limits w =
    let (low, high) = configured_range w in
    let min_amount = raise_to absolute_min_deposit low in (min_amount, raise_to min_amount high)

-- ValidateDepositAmount: true when Go returns nil.
unfoldable pub deposit_amount_ok : ℤ → Option Wallet → Bool
unfolding deposit_limits
deposit_amount_ok amount w =
    let (min_amount, max_amount) = deposit_limits w in
    if ltb_ℤ amount min_amount || ltb_ℤ max_amount amount then false else true

abbrev pub default_min_withdrawal : ℤ
default_min_withdrawal = pos 100

abbrev pub absolute_min_withdrawal : ℤ
absolute_min_withdrawal = pos 100

configured_min : Option Wallet → ℤ
configured_min none = default_min_withdrawal
configured_min (some w) = override w.min_withdrawal default_min_withdrawal

unfoldable pub min_withdrawal : Option Wallet → ℤ
unfolding configured_min raise_to ltb_ℤ
min_withdrawal w = raise_to absolute_min_withdrawal (configured_min w)

-- ValidateWithdrawalAmount: true when Go returns nil.
unfoldable pub withdrawal_amount_ok : ℤ → Option Wallet → Bool → Bool → Bool
unfolding min_withdrawal
withdrawal_amount_ok amount w full_balance is_closure =
    if full_balance || is_closure
    then true
    else if ltb_ℤ amount (min_withdrawal w)
    then false
    else true
