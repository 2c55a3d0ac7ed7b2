-- ===== src/Domain/Responsible/Windows.antt =====
-- The three windows of the game limits, exactly.
use ctech_wallet.Prelude.{
  String, ◌≡◌, ◌≢◌, ◌↔◌, ◌⊎◌, inl, inr, ◌==◌, true, false, none, arith, eq_iff, Bool-cases,
}
use ctech_wallet.Prelude.Int.{
  ℤ, pos, int64, ◌+ℤ◌, ◌-ℤ◌, ◌≤ℤ◌, ◌<ℤ◌, ltb_ℤ, leb_ℤ, ltb_ℤ_iff, int_laws,
}
use ctech_wallet.Domain.Model.{GameLimits, GameDepositCounters}
use ctech_wallet.Domain.Calendar.{Calendar}
use ctech_wallet.Domain.Daily.Exact.{IsAmount, headroom_exact}
use ctech_wallet.Domain.Responsible.{sum_if, sums_for, over, check_deposit, limits_ok}

pub record HasGameAmounts (lim : GameLimits) (c : GameDepositCounters) : Type 0 where
  pub daily : IsAmount lim.daily
  pub weekly : IsAmount lim.weekly
  pub monthly : IsAmount lim.monthly
  pub day : IsAmount c.day_sum
  pub week : IsAmount c.week_sum
  pub month : IsAmount c.month_sum

over_exact :
    (limit used amount : ℤ)
    → IsAmount limit
    → IsAmount used
    → (over limit used amount ≡ false) ↔ (used +ℤ amount ≤ℤ limit)
unfolding over
over_exact limit used amount h k =
    grind (int_laws, headroom_exact limit used h k, ltb_ℤ_iff (int64 (limit -ℤ used)) amount)

sums_for-IsAmount :
    (lim : GameLimits) (c : GameDepositCounters) (day week month : String)
    → HasGameAmounts lim c
    → IsAmount (sums_for c day week month).0
      × IsAmount (sums_for c day week month).1
      × IsAmount (sums_for c day week month).2
unfolding sums_for
sums_for-IsAmount lim c day week month h = ground arith

-- A window that the counter was last written in has the counter's sum, and any other has none: with
-- the amount, as an exact integer, it stays within the limit.
abbrev pub FitsWindow : String → String → ℤ → ℤ → ℤ → Type 0
FitsWindow written current sum amount limit =
    ((written ≡ current) × (sum +ℤ amount ≤ℤ limit)) ⊎ ((written ≢ current) × (amount ≤ℤ limit))

sum_fits :
    (written current : String) (sum amount limit : ℤ)
    → (sum_if (written == current) sum +ℤ amount ≤ℤ limit)
      ↔ FitsWindow written current sum amount limit
sum_fits written current sum amount limit = elim (Bool-cases (written == current)) [
  | inl same ↦
      let e = (eq_iff written current).0 same in
      rw same
        (λ h. inl (e, h), λ h. elim h [ inl (_, fit) ↦ fit | inr (other, _) ↦ absurd (other e) ])
  | inr differs ↦
      let ne : written ≢ current = λ e. ground (arith, differs, eq_iff written current, e) in
      rw differs (
        (λ h. inr (ne, grind (int_laws, h))),
        (λ h. elim h [ inl (e, _) ↦ absurd (ne e) | inr (_, fit) ↦ grind (int_laws, fit) ]),
      )
]

-- A game deposit passes exactly when it fits into each of the three windows: with what was deposited
-- in the current day, week and month, where the counter was written in it, and alone where the
-- counter is of an earlier one. Limits and sums are int64 values of at least zero.
pub check_deposit-none_iff :
    (cal : Calendar) (lim : GameLimits) (c : GameDepositCounters) (amount now : ℤ)
    → HasGameAmounts lim c
    → (check_deposit cal lim c amount now ≡ none) ↔ (
        FitsWindow c.day_key (cal.day_key now) c.day_sum amount lim.daily
        × FitsWindow c.week_key (cal.week_key now) c.week_sum amount lim.weekly
        × FitsWindow c.month_key (cal.month_key now) c.month_sum amount lim.monthly)
unfolding check_deposit sums_for
check_deposit-none_iff cal lim c amount now h =
    let sums = sums_for c (cal.day_key now) (cal.week_key now) (cal.month_key now) in
    let amounts =
      sums_for-IsAmount lim c (cal.day_key now) (cal.week_key now) (cal.month_key now) h in
    ground (
      arith,
      over_exact lim.daily sums.0 amount h.daily amounts.0,
      over_exact lim.weekly sums.1 amount h.weekly amounts.1,
      over_exact lim.monthly sums.2 amount h.monthly amounts.2,
      sum_fits c.day_key (cal.day_key now) c.day_sum amount lim.daily,
      sum_fits c.week_key (cal.week_key now) c.week_sum amount lim.weekly,
      sum_fits c.month_key (cal.month_key now) c.month_sum amount lim.monthly,
    )

-- Limits are accepted exactly when 0 < daily <= weekly <= monthly.
pub limits_ok_iff : (d w m : ℤ) → (limits_ok d w m ≡ true) ↔ ((pos 0 <ℤ d) × (d ≤ℤ w) × (w ≤ℤ m))
unfolding limits_ok ltb_ℤ leb_ℤ
limits_ok_iff d w m = ground arith
