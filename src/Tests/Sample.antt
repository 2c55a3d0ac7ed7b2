-- ===== src/Tests/Sample.antt =====
-- A small state: one real wallet that holds 500 centavos, from one deposit.
use ctech_wallet.Prelude.{
  String, refl, sym, some, [], ◌∷◌, arith, eq_iff, Bool-cases, inl, inr, ◌==◌,
}
use ctech_wallet.Prelude.Int.{pos, ◌+ℤ◌}
use ctech_wallet.Prelude.Table.{write}
use ctech_wallet.Domain.Model.{Wallet, WalletType, LedgerEntry, EntryType, RealDailyCounters}
use ctech_wallet.Domain.Calendar.{Calendar}
use ctech_wallet.Store.Tables.{Db, Guard, find_entry}
use ctech_wallet.Store.Dynamo.{Moment}
use ctech_wallet.Store.Memory.{empty_db}
use ctech_wallet.Store.Sound.{entries_total}
use ctech_wallet.Store.Guarded.{keyed, LeadsToEntry, IsOnce}
use ctech_wallet.Store.Lawful.{Invariant}

-- Every instant is on one day.
abbrev pub one_day : Calendar
one_day = record {
  day_key = λ now. "2026-11-26";
  week_key = λ now. "2026-W48";
  month_key = λ now. "2026-11";
  day_reset = λ now. pos 86400;
  week_reset = λ now. pos 604800;
  month_reset = λ now. pos 2592000;
  parse = λ s. some (pos 0);
  parse_nano = λ s. some (pos 0);
  format = λ now. "2026-11-27T00:00:00-03:00";
  add_years = λ now years. now;
}

abbrev pub moment : Moment
moment = record {
  now_str = "2026-11-26T12:00:00Z";
  now = pos 7;
  entry_id = "e1";
  wallet_id = λ type. "fresh";
}

abbrev pub real_wallet : Wallet
real_wallet = record {
  wallet_id = "WALLET#1";
  user_id = "ana";
  type = WalletType.real;
  balance = pos 500;
  version = some (pos 1);
  min_deposit = pos 0;
  max_deposit = pos 0;
  min_withdrawal = pos 0;
  daily_deposit_cap = pos 0;
  daily_withdraw_cap = pos 0;
  daily_withdraw_count = pos 0;
  retired_at = "";
  created_at = "2026-11-25T12:00:00Z";
  updated_at = "2026-11-25T12:00:00Z";
}

abbrev pub first_deposit : LedgerEntry
first_deposit = record {
  wallet_id = "WALLET#1";
  sk = "2026-11-25T12:00:00Z#e0";
  entry_id = "e0";
  type = EntryType.deposit;
  amount = pos 500;
  balance_after = pos 500;
  idempotency_key = "deposit#d0";
  ref = "d0";
  description = "";
  created_at = "2026-11-25T12:00:00Z";
}

abbrev pub deposit_guard : Guard
deposit_guard = record {
  pk = "IDEM#deposit#d0";
  wallet_id = "WALLET#1";
  entry_sk = "2026-11-25T12:00:00Z#e0";
  req_hash = "h0";
  created_at = "2026-11-25T12:00:00Z";
}

abbrev pub sample : Db
sample = record empty_db {
  wallets = write "WALLET#1" real_wallet empty_db.wallets;
  ledger = first_deposit ∷ [];
  guards = write "IDEM#deposit#d0" deposit_guard empty_db.guards;
}

sample-LeadsToEntry :
    (pk : String)
    → LeadsToEntry
        (write "IDEM#deposit#d0" deposit_guard empty_db.guards pk)
        pk
        (first_deposit ∷ [])
unfolding write find_entry
sample-LeadsToEntry pk = elim (Bool-cases ("IDEM#deposit#d0" == pk)) [
  | inl same ↦ rw same (first_deposit, refl, (eq_iff "IDEM#deposit#d0" pk).0 same)
  | inr other ↦ rw other tt
]

sample-IsOnce : IsOnce sample
unfolding write keyed
sample-IsOnce key w = elim (Bool-cases ("deposit#d0" == key)) [
  | inl same ↦ rw (sym ((eq_iff "deposit#d0" key).0 same)) (ground (arith, eq_iff "WALLET#1" w))
  | inr other ↦ rw other (ground arith)
]

pub sample-Invariant : Invariant sample
unfolding write entries_total keyed find_entry ◌+ℤ◌
sample-Invariant = record {
  sound = λ w. ground (arith, eq_iff "WALLET#1" w);
  once = sample-IsOnce;
  guarded = sample-LeadsToEntry;
}

abbrev pub no_counters : RealDailyCounters
no_counters = record {
  day_key = "";
  deposit_sum = pos 0;
  withdraw_sum = pos 0;
  withdraw_count = pos 0;
}
