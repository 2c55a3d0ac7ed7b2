-- ===== src/Domain/Limits/Bounds.antt =====
-- The deposit range is never empty, and the tests of an amount decide membership in it.
use ctech_wallet.Prelude.{◌≡◌, ◌↔◌, ◌⊎◌, Bool, true, Option, none, some, arith}
use ctech_wallet.Prelude.Int.{ℤ, ◌≤ℤ◌, ltb_ℤ}
use ctech_wallet.Domain.Model.{Wallet}
use ctech_wallet.Domain.Limits.{
  deposit_limits, deposit_amount_ok, min_withdrawal, withdrawal_amount_ok, absolute_min_deposit,
  absolute_min_withdrawal,
}

-- Whatever the overrides of a wallet, its least deposit is at least the absolute minimum and at
-- most its greatest deposit.
pub deposit_limits_bounds :
    (w : Option Wallet)
    → (absolute_min_deposit ≤ℤ (deposit_limits w).0)
      × ((deposit_limits w).0 ≤ℤ (deposit_limits w).1)
unfolding deposit_limits
deposit_limits_bounds none = ground arith
deposit_limits_bounds (some w) = ground arith

-- A deposit amount passes exactly when it lies in the wallet's range.
pub deposit_amount_ok_iff :
    (amount : ℤ) (w : Option Wallet)
    → (deposit_amount_ok amount w ≡ true)
      ↔ (((deposit_limits w).0 ≤ℤ amount) × (amount ≤ℤ (deposit_limits w).1))
unfolding deposit_amount_ok
deposit_amount_ok_iff amount none = ground arith
deposit_amount_ok_iff amount (some w) = ground arith

pub min_withdrawal_bound : (w : Option Wallet) → absolute_min_withdrawal ≤ℤ min_withdrawal w
unfolding min_withdrawal
min_withdrawal_bound none = ground arith
min_withdrawal_bound (some w) = ground arith

-- A withdrawal amount passes exactly when it empties the wallet, closes the account, or is at
-- least the wallet's minimum.
pub withdrawal_amount_ok_iff :
    (amount : ℤ) (w : Option Wallet) (full closure : Bool)
    → (withdrawal_amount_ok amount w full closure ≡ true)
      ↔ ((full ≡ true) ⊎ ((closure ≡ true) ⊎ (min_withdrawal w ≤ℤ amount)))
unfolding withdrawal_amount_ok ltb_ℤ
withdrawal_amount_ok_iff amount none full closure = ground arith
withdrawal_amount_ok_iff amount (some w) full closure = ground arith
