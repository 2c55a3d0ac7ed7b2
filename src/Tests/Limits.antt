-- ===== src/Tests/Limits.antt =====
-- The limits' theorems at work on the sample wallet.
use ctech_wallet.Prelude.{◌≡◌, ◌↔◌, true, none, some, arith}
use ctech_wallet.Prelude.Int.{pos, ◌≤ℤ◌}
use ctech_wallet.Domain.Limits.{deposit_amount_ok}
use ctech_wallet.Domain.Daily.{effective_daily_limits, check_daily_deposit}
use ctech_wallet.Domain.Daily.Exact.{IsCounters, IsLimits, effective_daily_limits-IsLimits}
use ctech_wallet.Domain.Rail.{compute_rail_limits}
use ctech_wallet.Domain.Rail.Agrees.{rail_deposit_iff}
use ctech_wallet.Tests.Sample.{one_day, real_wallet, no_counters}

sample-IsLimits : IsLimits (effective_daily_limits (some real_wallet))
sample-IsLimits = effective_daily_limits-IsLimits real_wallet (ground arith)

none_used-IsCounters : IsCounters no_counters
none_used-IsCounters = ground arith

rail_deposit_iff_example :
    let rail = compute_rail_limits one_day (some real_wallet) no_counters (pos 7) in
    let lim = effective_daily_limits (some real_wallet) in
    ((deposit_amount_ok (pos 5000) (some real_wallet) ≡ true)
      × (check_daily_deposit one_day lim no_counters (pos 5000) (pos 7) ≡ none))
    ↔ ((rail.deposit.min ≤ℤ pos 5000) × (pos 5000 ≤ℤ rail.deposit.max_now))
rail_deposit_iff_example =
    rail_deposit_iff one_day (some real_wallet) no_counters (pos 5000) (pos 7) sample-IsLimits
      none_used-IsCounters
