-- ===== src/Domain/Daily.antt =====
-- api/internal/domain/wallet/daily_limits.go: the daily Pix limits of the real wallet.
pub mod Exact
use ctech_wallet.Prelude.{String, Option, none, some, if◌then◌else◌, ◌==◌}
use ctech_wallet.Prelude.Int.{ℤ, pos, int64, ◌-ℤ◌, ltb_ℤ, leb_ℤ}
use ctech_wallet.Domain.Model.{Wallet, RealDailyCounters}
use ctech_wallet.Domain.Calendar.{Calendar}
use ctech_wallet.Domain.Limits.{override}

abbrev pub default_daily_deposit_cap : ℤ
default_daily_deposit_cap = pos 100000

abbrev pub default_daily_withdraw_cap : ℤ
default_daily_withdraw_cap = pos 100000

abbrev pub default_daily_withdraw_count : ℤ
default_daily_withdraw_count = pos 1

pub record DailyLimits : Type 0 where
  pub deposit_cap : ℤ
  pub withdraw_cap : ℤ
  pub withdraw_count : ℤ

unfoldable pub effective_daily_limits : Option Wallet → DailyLimits
effective_daily_limits none = record {
  deposit_cap = default_daily_deposit_cap;
  withdraw_cap = default_daily_withdraw_cap;
  withdraw_count = default_daily_withdraw_count;
}
effective_daily_limits (some w) = record {
  deposit_cap = override w.daily_deposit_cap default_daily_deposit_cap;
  withdraw_cap = override w.daily_withdraw_cap default_daily_withdraw_cap;
  withdraw_count = override w.daily_withdraw_count default_daily_withdraw_count;
}

-- The counters as they stand for a day: all zero once the day has rolled.
unfoldable pub for_day : RealDailyCounters → String → RealDailyCounters
for_day c day =
    if c.day_key == day
    then c
    else record { day_key = day; deposit_sum = pos 0; withdraw_sum = pos 0; withdraw_count = pos 0 }

pub data BreachKind : Type 0 where
  deposit_cap withdraw_cap withdraw_count : BreachKind

pub record DailyBreach : Type 0 where
  pub kind : BreachKind
  pub limit : ℤ
  pub used : ℤ
  pub resets_at : ℤ

module _ (cal : Calendar) where
  unfoldable pub check_daily_deposit : DailyLimits → RealDailyCounters → ℤ → ℤ → Option DailyBreach
  check_daily_deposit lim c amount now =
      let used = (for_day c (cal.day_key now)).deposit_sum in
      if ltb_ℤ (int64 (lim.deposit_cap -ℤ used)) amount
      then some (record {
        kind = BreachKind.deposit_cap;
        limit = lim.deposit_cap;
        used = used;
        resets_at = cal.day_reset now;
      })
      else none

  unfoldable pub check_daily_withdraw : DailyLimits → RealDailyCounters → ℤ → ℤ → Option DailyBreach
  check_daily_withdraw lim c amount now =
      let cur = for_day c (cal.day_key now) in
      let reset = cal.day_reset now in
      if leb_ℤ lim.withdraw_count cur.withdraw_count
      then some (record {
        kind = BreachKind.withdraw_count;
        limit = lim.withdraw_count;
        used = cur.withdraw_count;
        resets_at = reset;
      })
      else if ltb_ℤ (int64 (lim.withdraw_cap -ℤ cur.withdraw_sum)) amount
      then some (record {
        kind = BreachKind.withdraw_cap;
        limit = lim.withdraw_cap;
        used = cur.withdraw_sum;
        resets_at = reset;
      })
      else none
