-- ===== src/Domain/Daily/Exact.antt =====
-- The daily checks, written without a sum so that no int64 wraps, decide the limits exactly.
use ctech_wallet.Prelude.{String, ◌≡◌, ◌↔◌, none, some, arith}
use ctech_wallet.Prelude.Int.{
  ℤ, pos, int64, IsInt64, int64_in_range, ◌+ℤ◌, ◌-ℤ◌, ◌≤ℤ◌, ◌<ℤ◌, ltb_ℤ, ltb_ℤ_iff, leb_ℤ_iff,
  int_laws,
}
use ctech_wallet.Domain.Model.{Wallet, RealDailyCounters}
use ctech_wallet.Domain.Calendar.{Calendar}
use ctech_wallet.Domain.Daily.{
  DailyLimits, effective_daily_limits, for_day, check_daily_deposit, check_daily_withdraw,
}

-- A value that a counter or a cap can have.
abbrev pub IsAmount : ℤ → Type 0
IsAmount a = (pos 0 ≤ℤ a) × IsInt64 a

pub record IsCounters (c : RealDailyCounters) : Type 0 where
  pub deposits : IsAmount c.deposit_sum
  pub withdrawals : IsAmount c.withdraw_sum
  pub count : IsAmount c.withdraw_count

pub record IsLimits (lim : DailyLimits) : Type 0 where
  pub deposits : IsAmount lim.deposit_cap
  pub withdrawals : IsAmount lim.withdraw_cap
  pub count : IsAmount lim.withdraw_count

-- The overrides of a wallet are int64 fields.
pub record HasInt64Caps (w : Wallet) : Type 0 where
  pub deposits : IsInt64 w.daily_deposit_cap
  pub withdrawals : IsInt64 w.daily_withdraw_cap
  pub count : IsInt64 w.daily_withdraw_count

pub effective_daily_limits-IsLimits-none : IsLimits (effective_daily_limits none)
unfolding effective_daily_limits
effective_daily_limits-IsLimits-none = ground arith

pub effective_daily_limits-IsLimits :
    (w : Wallet) → HasInt64Caps w → IsLimits (effective_daily_limits (some w))
unfolding effective_daily_limits ltb_ℤ
effective_daily_limits-IsLimits w h = ground arith

pub for_day-IsCounters :
    (c : RealDailyCounters) (day : String) → IsCounters c → IsCounters (for_day c day)
unfolding for_day
for_day-IsCounters c day h = ground arith

-- The headroom of a cap does not wrap.
pub headroom_exact :
    (limit used : ℤ) → IsAmount limit → IsAmount used → int64 (limit -ℤ used) ≡ limit -ℤ used
headroom_exact limit used h k = int64_in_range (limit -ℤ used) (omega int_laws)

module _ (cal : Calendar) (lim : DailyLimits) (c : RealDailyCounters) (amount now : ℤ) where
  -- With limits and counters that are int64 values of at least zero, a deposit is let through
  -- exactly when the day's sum with it, as an exact integer, stays within the cap.
  pub check_daily_deposit-none_iff :
      IsLimits lim
      → IsCounters c
      → (check_daily_deposit cal lim c amount now ≡ none)
        ↔ ((for_day c (cal.day_key now)).deposit_sum +ℤ amount ≤ℤ lim.deposit_cap)
  unfolding check_daily_deposit
  check_daily_deposit-none_iff hl hc =
      let used = (for_day c (cal.day_key now)).deposit_sum in
      let room = int64 (lim.deposit_cap -ℤ used) in
      grind (
        int_laws,
        for_day-IsCounters c (cal.day_key now) hc,
        headroom_exact lim.deposit_cap used hl.deposits
            (for_day-IsCounters c (cal.day_key now) hc).deposits,
        ltb_ℤ_iff room amount,
      )

  -- A withdrawal is let through exactly when today's count is below its limit and the day's sum
  -- with it, as an exact integer, stays within the cap.
  pub check_daily_withdraw-none_iff :
      IsLimits lim
      → IsCounters c
      → (check_daily_withdraw cal lim c amount now ≡ none) ↔ (
          ((for_day c (cal.day_key now)).withdraw_count <ℤ lim.withdraw_count)
          × ((for_day c (cal.day_key now)).withdraw_sum +ℤ amount ≤ℤ lim.withdraw_cap))
  unfolding check_daily_withdraw
  check_daily_withdraw-none_iff hl hc =
      let cur = for_day c (cal.day_key now) in
      let room = int64 (lim.withdraw_cap -ℤ cur.withdraw_sum) in
      grind (
        int_laws,
        headroom_exact lim.withdraw_cap cur.withdraw_sum hl.withdrawals
            (for_day-IsCounters c (cal.day_key now) hc).withdrawals,
        ltb_ℤ_iff room amount,
        leb_ℤ_iff lim.withdraw_count cur.withdraw_count,
      )
