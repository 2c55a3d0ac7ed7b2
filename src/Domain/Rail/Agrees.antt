-- ===== src/Domain/Rail/Agrees.antt =====
-- What ComputeRailLimits offers is what the enforcing checks accept.
use ctech_wallet.Prelude.{◌≡◌, ◌↔◌, ◌⊎◌, true, false, Option, none, some, arith}
use ctech_wallet.Prelude.Int.{ℤ, pos, ◌-ℤ◌, ◌≤ℤ◌, ltb_ℤ, leb_ℤ, eqb_ℤ, min_ℤ, max_ℤ, int_laws}
use ctech_wallet.Domain.Model.{Wallet, RealDailyCounters}
use ctech_wallet.Domain.Calendar.{Calendar}
use ctech_wallet.Domain.Limits.{
  deposit_limits, deposit_amount_ok, min_withdrawal, withdrawal_amount_ok,
}
use ctech_wallet.Domain.Limits.Bounds.{
  deposit_amount_ok_iff, deposit_limits_bounds, withdrawal_amount_ok_iff,
}
use ctech_wallet.Domain.Daily.{
  effective_daily_limits, for_day, check_daily_deposit, check_daily_withdraw,
}
use ctech_wallet.Domain.Daily.Exact.{
  IsCounters, IsLimits, check_daily_deposit-none_iff, check_daily_withdraw-none_iff, headroom_exact,
  for_day-IsCounters,
}
use ctech_wallet.Domain.Rail.{compute_rail_limits, deposit_max_now, withdraw_max_now}

-- The greatest offer, from the range and the exact headroom.
deposit_max_now_iff :
    (low high room amount : ℤ)
    → pos 1 ≤ℤ low
    → ((low ≤ℤ amount) × (amount ≤ℤ high) × (amount ≤ℤ room))
      ↔ ((low ≤ℤ amount) × (amount ≤ℤ deposit_max_now low high (max_ℤ (pos 0) room)))
unfolding deposit_max_now min_ℤ max_ℤ ltb_ℤ leb_ℤ
deposit_max_now_iff low high room amount h = ground arith

module _ (cal : Calendar) (w : Option Wallet) (c : RealDailyCounters) (amount now : ℤ) where
  -- The deposit dialog offers an amount, from its minimum to its greatest value, exactly when
  -- the deposit range and the daily cap both let it through. Limits and counters are int64
  -- values of at least zero.
  pub rail_deposit_iff :
      IsLimits (effective_daily_limits w)
      → IsCounters c
      → ((deposit_amount_ok amount w ≡ true)
          × (check_daily_deposit cal (effective_daily_limits w) c amount now ≡ none))
        ↔ (((compute_rail_limits cal w c now).deposit.min ≤ℤ amount)
            × (amount ≤ℤ (compute_rail_limits cal w c now).deposit.max_now))
  unfolding compute_rail_limits
  rail_deposit_iff hl hc =
      let used = (for_day c (cal.day_key now)).deposit_sum in
      let cap = (effective_daily_limits w).deposit_cap in
      let low = (deposit_limits w).0 in
      let high = (deposit_limits w).1 in
      rw (headroom_exact cap used hl.deposits (for_day-IsCounters c (cal.day_key now) hc).deposits)
        (grind (
          int_laws,
          deposit_amount_ok_iff amount w,
          check_daily_deposit-none_iff cal (effective_daily_limits w) c amount now hl hc,
          deposit_max_now_iff low high (cap -ℤ used) amount,
          deposit_limits_bounds w,
        ))

withdraw_max_now_lem :
    (balance low room count amount : ℤ)
    → let top = withdraw_max_now balance low (max_ℤ (pos 0) room) (max_ℤ (pos 0) count) in
      (pos 1 ≤ℤ amount
        → pos 1 ≤ℤ count
        → amount ≤ℤ room
        → amount ≤ℤ balance
        → (eqb_ℤ amount balance ≡ true) ⊎ (low ≤ℤ amount)
        → amount ≤ℤ top)
      × (pos 1 ≤ℤ top
          → (pos 1 ≤ℤ count)
            × (top ≤ℤ room)
            × (top ≤ℤ balance)
            × ((eqb_ℤ top balance ≡ true) ⊎ (low ≤ℤ top)))
unfolding withdraw_max_now min_ℤ max_ℤ ltb_ℤ leb_ℤ eqb_ℤ
withdraw_max_now_lem balance low room count amount =
    (λ h1 h2 h3 h4 h5. ground arith, λ h. ground arith)

-- What Withdraw and the ledger's debit check of an amount.
abbrev pub Accepted : Calendar → Wallet → RealDailyCounters → ℤ → ℤ → Type 0
Accepted cal w c now amount =
    (withdrawal_amount_ok amount (some w) (eqb_ℤ amount w.balance) false ≡ true)
    × (check_daily_withdraw cal (effective_daily_limits (some w)) c amount now ≡ none)
    × (amount ≤ℤ w.balance)

module _ (cal : Calendar) (w : Wallet) (c : RealDailyCounters) (amount now : ℤ) where
  -- The withdrawal dialog's greatest value bounds every amount of at least one centavo that the
  -- checks of a withdrawal accept, and is itself accepted if it is above zero. Limits and
  -- counters are int64 values of at least zero.
  pub rail_withdraw_max :
      IsLimits (effective_daily_limits (some w))
      → IsCounters c
      → let top = (compute_rail_limits cal (some w) c now).withdraw.max_now in
        (pos 1 ≤ℤ amount → Accepted cal w c now amount → amount ≤ℤ top)
        × (pos 1 ≤ℤ top → Accepted cal w c now top)
  unfolding compute_rail_limits
  rail_withdraw_max hl hc =
      let day = for_day-IsCounters c (cal.day_key now) hc in
      let used = for_day c (cal.day_key now) in
      let lim = effective_daily_limits (some w) in
      let room = lim.withdraw_cap -ℤ used.withdraw_sum in
      let count = lim.withdraw_count -ℤ used.withdraw_count in
      let top =
        withdraw_max_now w.balance (min_withdrawal (some w)) (max_ℤ (pos 0) room)
          (max_ℤ (pos 0) count) in
      rw (headroom_exact lim.withdraw_cap used.withdraw_sum hl.withdrawals day.withdrawals) (
        rw (headroom_exact lim.withdraw_count used.withdraw_count hl.count day.count) (
          grind (
            int_laws,
            withdraw_max_now_lem w.balance (min_withdrawal (some w)) room count amount,
            withdrawal_amount_ok_iff amount (some w) (eqb_ℤ amount w.balance) false,
            withdrawal_amount_ok_iff top (some w) (eqb_ℤ top w.balance) false,
            check_daily_withdraw-none_iff cal lim c amount now hl hc,
            check_daily_withdraw-none_iff cal lim c top now hl hc,
          )))
