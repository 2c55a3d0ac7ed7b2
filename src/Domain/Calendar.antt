-- ===== src/Domain/Calendar.antt =====
-- The clock as the wallet uses it. An instant is a number of nanoseconds. The São Paulo calendar
-- comes from the operating system's time-zone data and the RFC 3339 texts from Go's time package:
-- both are parameters, as functions.
use ctech_wallet.Prelude.{String, Option}
use ctech_wallet.Prelude.Int.{ℤ}

pub record Calendar : Type 0 where
  -- WindowKeys: the calendar day, ISO week and month of an instant.
  pub day_key : ℤ → String
  pub week_key : ℤ → String
  pub month_key : ℤ → String
  -- WindowResets: when each window rolls over.
  pub day_reset : ℤ → ℤ
  pub week_reset : ℤ → ℤ
  pub month_reset : ℤ → ℤ
  -- time.Parse with RFC3339 and with RFC3339Nano; `none` for a malformed text.
  pub parse : String → Option ℤ
  pub parse_nano : String → Option ℤ
  -- Time.Format(RFC3339), and Time.AddDate(years, 0, 0).
  pub format : ℤ → String
  pub add_years : ℤ → ℤ → ℤ
