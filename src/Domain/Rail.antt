-- ===== src/Domain/Rail.antt =====
-- api/internal/domain/wallet/rail_limits.go: what the Pix dialogs may offer now.
pub mod Agrees
use ctech_wallet.Prelude.{String, ◌&&◌, ◌||◌, not, Option, none, some, if◌then◌else◌}
use ctech_wallet.Prelude.Int.{ℤ, pos, int64, ◌-ℤ◌, ltb_ℤ, leb_ℤ, eqb_ℤ, min_ℤ, max_ℤ}
use ctech_wallet.Domain.Model.{Wallet, RealDailyCounters}
use ctech_wallet.Domain.Calendar.{Calendar}
use ctech_wallet.Domain.Limits.{deposit_limits, min_withdrawal}
use ctech_wallet.Domain.Daily.{effective_daily_limits, for_day}

pub record DepositRailLimits : Type 0 where
  pub min : ℤ
  pub max : ℤ
  pub daily_cap : ℤ
  pub daily_remaining : ℤ
  pub max_now : ℤ

pub record WithdrawRailLimits : Type 0 where
  pub min : ℤ
  pub daily_cap : ℤ
  pub daily_remaining : ℤ
  pub count_remaining : ℤ
  pub max_now : ℤ

pub record RailLimits : Type 0 where
  pub deposit : DepositRailLimits
  pub withdraw : WithdrawRailLimits
  pub resets_at : String

balance_of : Option Wallet → ℤ
balance_of none = pos 0
balance_of (some w) = w.balance

unfoldable pub deposit_max_now : ℤ → ℤ → ℤ → ℤ
deposit_max_now min_dep max_dep remaining =
    let dep_now = min_ℤ max_dep remaining in if ltb_ℤ dep_now min_dep then pos 0 else dep_now

unfoldable pub withdraw_max_now : ℤ → ℤ → ℤ → ℤ → ℤ
withdraw_max_now balance min_wd remaining count_remaining =
    let wd_now = min_ℤ balance remaining in
    if eqb_ℤ count_remaining (pos 0)
      || leb_ℤ wd_now (pos 0)
      || (ltb_ℤ wd_now min_wd && not (eqb_ℤ wd_now balance))
    then pos 0
    else wd_now

module _ (cal : Calendar) where
  unfoldable pub compute_rail_limits : Option Wallet → RealDailyCounters → ℤ → RailLimits
  unfolding balance_of
  compute_rail_limits w c now =
      let used = for_day c (cal.day_key now) in
      let daily = effective_daily_limits w in
      let (min_dep, max_dep) = deposit_limits w in
      let dep_remaining = max_ℤ (pos 0) (int64 (daily.deposit_cap -ℤ used.deposit_sum)) in
      let wd_remaining = max_ℤ (pos 0) (int64 (daily.withdraw_cap -ℤ used.withdraw_sum)) in
      let count_remaining = max_ℤ (pos 0) (int64 (daily.withdraw_count -ℤ used.withdraw_count)) in
      let min_wd = min_withdrawal w in
      record {
        deposit = record {
          min = min_dep;
          max = max_dep;
          daily_cap = daily.deposit_cap;
          daily_remaining = dep_remaining;
          max_now = deposit_max_now min_dep max_dep dep_remaining;
        };
        withdraw = record {
          min = min_wd;
          daily_cap = daily.withdraw_cap;
          daily_remaining = wd_remaining;
          count_remaining = count_remaining;
          max_now = withdraw_max_now (balance_of w) min_wd wd_remaining count_remaining;
        };
        resets_at = cal.format (cal.day_reset now);
      }
