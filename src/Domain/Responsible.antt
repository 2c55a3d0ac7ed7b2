-- ===== src/Domain/Responsible.antt =====
-- api/internal/domain/wallet/responsible.go: self-exclusion and the limits on game deposits.
pub mod Windows
use ctech_wallet.Prelude.{
  String, Bool, true, false, ◌&&◌, ◌||◌, not, Option, none, some, if◌then◌else◌, ◌==◌,
}
use ctech_wallet.Prelude.Int.{ℤ, pos, int64, ◌+ℤ◌, ◌-ℤ◌, ltb_ℤ, leb_ℤ}
use ctech_wallet.Domain.Model.{GameLimits, PendingLimits, GameDepositCounters, SelfExclusion, User}
use ctech_wallet.Domain.Calendar.{Calendar}

pub data Window : Type 0 where
  daily weekly monthly : Window

pub record LimitBreach : Type 0 where
  pub window : Window
  pub limit : ℤ
  pub used : ℤ
  pub resets_at : ℤ

abbrev pub sum_if : Bool → ℤ → ℤ
sum_if same sum = if same then sum else pos 0

unfoldable pub sums_for : GameDepositCounters → String → String → String → ℤ × ℤ × ℤ
sums_for c day week month = (
  sum_if (c.day_key == day) c.day_sum,
  sum_if (c.week_key == week) c.week_sum,
  sum_if (c.month_key == month) c.month_sum,
)

unfoldable pub over : ℤ → ℤ → ℤ → Bool
over limit used amount = ltb_ℤ (int64 (limit -ℤ used)) amount

module _ (cal : Calendar) where
  unfoldable pub check_deposit : GameLimits → GameDepositCounters → ℤ → ℤ → Option LimitBreach
  unfolding sums_for over
  check_deposit limits c amount now =
      let (d, w, m) = sums_for c (cal.day_key now) (cal.week_key now) (cal.month_key now) in
      if over limits.daily d amount
      then some (record {
        window = Window.daily;
        limit = limits.daily;
        used = d;
        resets_at = cal.day_reset now;
      })
      else if over limits.weekly w amount
      then some (record {
        window = Window.weekly;
        limit = limits.weekly;
        used = w;
        resets_at = cal.week_reset now;
      })
      else if over limits.monthly m amount
      then some (record {
        window = Window.monthly;
        limit = limits.monthly;
        used = m;
        resets_at = cal.month_reset now;
      })
      else none

  unfoldable pub excluded_until : Option ℤ → ℤ → Bool
  excluded_until none now = true
  excluded_until (some until) now = ltb_ℤ now until

  unfoldable pub exclusion_holds : Option SelfExclusion → ℤ → Bool
  unfolding excluded_until
  exclusion_holds none now = false
  exclusion_holds (some x) now =
      if x.until == "" then true else excluded_until (cal.parse x.until) now

  -- SelfExcluded: an unreadable end counts as excluded.
  unfoldable pub is_self_excluded : Option User → ℤ → Bool
  unfolding exclusion_holds
  is_self_excluded none now = false
  is_self_excluded (some u) now = exclusion_holds u.self_exclusion now

  unfoldable pub matured : GameLimits → Option PendingLimits → Option ℤ → ℤ → GameLimits × Bool
  matured lim (some p) (some at) now = if ltb_ℤ now at then (lim, false) else (
    record { daily = p.daily; weekly = p.weekly; monthly = p.monthly; pending = none },
    true,
  )
  matured lim _ _ now = (lim, false)

  unfoldable pub applies_at : Option PendingLimits → Option ℤ
  applies_at none = none
  applies_at (some p) = cal.parse p.applies_at

  unfoldable pub effective_game_limits : Option GameLimits → ℤ → GameLimits × Bool
  unfolding matured applies_at
  effective_game_limits none now =
      (record { daily = pos 0; weekly = pos 0; monthly = pos 0; pending = none }, false)
  effective_game_limits (some lim) now = matured lim lim.pending (applies_at lim.pending) now

  -- ExclusionUntil: `none` for an unknown period. A day is 86,400 s in nanoseconds.
  unfoldable pub exclusion_until : String → ℤ → Option String
  exclusion_until period now =
      if period == "30d"
      then some (cal.format (now +ℤ pos 2592000000000000))
      else if period == "90d"
      then some (cal.format (now +ℤ pos 7776000000000000))
      else if period == "indefinite"
      then some ""
      else none

unfoldable pub limits_configured : Option GameLimits → Bool
limits_configured none = false
limits_configured (some lim) =
    ltb_ℤ (pos 0) lim.daily && ltb_ℤ (pos 0) lim.weekly && ltb_ℤ (pos 0) lim.monthly

-- ValidateLimits: true when Go returns nil.
unfoldable pub limits_ok : ℤ → ℤ → ℤ → Bool
limits_ok d w m = not (leb_ℤ d (pos 0) || ltb_ℤ w d || ltb_ℤ m w)
