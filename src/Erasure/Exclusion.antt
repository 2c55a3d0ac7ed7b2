-- ===== src/Erasure/Exclusion.antt =====
-- api/internal/domain/wallet/erasure.go: which self-exclusion outlives its account, and until when.
use ctech_wallet.Prelude.{not, Option, none, some, if◌then◌else◌, ◌==◌}
use ctech_wallet.Prelude.Int.{ℤ, pos, ltb_ℤ}
use ctech_wallet.Domain.Model.{SelfExclusion}
use ctech_wallet.Domain.Calendar.{Calendar}

-- ErasureRetentionYears
abbrev pub retention_years : ℤ
retention_years = pos 5

module _ (cal : Calendar) (now : ℤ) where
  unfoldable pub timed_exclusion : SelfExclusion → Option ℤ → Option (SelfExclusion × ℤ)
  timed_exclusion ex none = some (ex, cal.add_years now retention_years)
  timed_exclusion ex (some until) = if not (ltb_ℤ now until) then none else some (ex, until)

  -- CarriedSelfExclusion: the exclusion and its end, where one is carried.
  unfoldable pub carried_self_exclusion : Option SelfExclusion → Option (SelfExclusion × ℤ)
  unfolding timed_exclusion
  carried_self_exclusion none = none
  carried_self_exclusion (some ex) =
      if ex.until == ""
      then some (ex, cal.add_years now retention_years)
      else timed_exclusion ex (cal.parse ex.until)

  abbrev pub IsCarried : Option (SelfExclusion × ℤ) → Type 0
  IsCarried none = ⊥
  IsCarried (some c) = Unit
