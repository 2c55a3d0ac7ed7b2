-- ===== src/Tests/Erasure.antt =====
-- The theorems on the purge at work on a vault with one paid deposit and one abandoned one.
use ctech_wallet.Prelude.{String, ◌≡◌, refl, false, none, some, [], ◌∷◌, arith, if◌then◌else◌, ◌==◌}
use ctech_wallet.Prelude.Int.{pos}
use ctech_wallet.Prelude.Table.{empty, write, write_self}
use ctech_wallet.Domain.Model.{PixDeposit, DepositStatus, SelfExclusion, User}
use ctech_wallet.Store.Problem.{Result, ok, err, outage}
use ctech_wallet.Store.Dynamo.{Written, done, refused}
use ctech_wallet.Store.Memory.{memory}
use ctech_wallet.Wallets.{load_wallets, load_by_markers}
use ctech_wallet.Service.{Charge, active}
use ctech_wallet.Erasure.{Vault, Sources, Change, allows, applied, IsAtomic}
use ctech_wallet.Erasure.Blockers.{check_rows, blockers}
use ctech_wallet.Erasure.Purge.{Counts, purged, purge, retain_deposits}
use ctech_wallet.Erasure.Safe.{SameMoney, LastsAsLong, purge_spares}
use ctech_wallet.Erasure.Clear.{IsClear, purge_clear}
use ctech_wallet.Erasure.Asks.{IsLeftOver, IsAbandoned, check_rows_unbounded}
use ctech_wallet.Erasure.Retains.{IsNotLost, retain_deposits-IsNotLost}
use ctech_wallet.Tests.Sample.{one_day, sample}
use ctech_wallet.Tests.Deposit.{waiting, charge_by}

abbrev unpaid : Charge
unpaid = record (charge_by "" []) { status = active }

abbrev ask : String → Vault → Result Charge
ask txid v = ok unpaid

abbrev make_change : Change → Vault → Written × Vault
make_change c v = if allows c v then (done, applied c v) else (refused, v)

abbrev sources : Sources
sources = record {
  dynamo = memory;
  calendar = one_day;
  now = λ v. pos 9000000000000;
  wallet_url = "https://wallet";
  change = make_change;
  deposits_of = λ user v. ok [];
  withdrawals_of = λ user v. ok [];
  holds_of = λ user v. ok [];
  audit_of = λ user v. ok [];
  sandbox_purchases = λ user v. ok [];
  product_purchases = λ user v. ok [];
  query_charge = some ask;
  get_identity = λ user v. ok none;
}

sources-IsAtomic : IsAtomic sources
sources-IsAtomic = record { atomic = λ c v. ground arith; refused_only = λ c v e. ground arith }

abbrev credited_deposit : PixDeposit
credited_deposit = record waiting {
  status = DepositStatus.confirmed;
  payer_cpf = "***222333**";
  payer_name = "Ana";
}

abbrev vault : Vault
vault = record {
  db = record sample { deposits = write "d1" credited_deposit sample.deposits };
  retained = λ pk. empty;
  carried = empty;
  audit = λ user. [];
}

purge_spares_example :
    SameMoney vault.db (purge sources "ana" vault).1
    × LastsAsLong vault (purge sources "ana" vault).1
purge_spares_example = purge_spares sources "ana" vault sources-IsAtomic

retain_deposits-IsNotLost_example :
    IsNotLost sources "ana" vault
      (retain_deposits sources "ana" (pos 9) 0 (credited_deposit ∷ []) vault).1
retain_deposits-IsNotLost_example =
    retain_deposits-IsNotLost sources "ana" (pos 9) 0 (credited_deposit ∷ []) vault sources-IsAtomic
      (write_self "d1" credited_deposit sample.deposits, tt)

abbrev second : PixDeposit
second = record waiting { txid = "d2" }

-- The rail knows no deposit of the second row.
abbrev ask_first : String → Vault → Result Charge
ask_first txid v = if txid == "d2" then err (outage "no charge") else ok unpaid

abbrev asking : Sources
asking = record sources { query_charge = some ask_first }

left_over : IsLeftOver asking (pos 7) waiting
left_over = (refl, (pos 0, refl, ground arith))

abandoned : IsAbandoned asking ask_first (pos 7) vault waiting
abandoned = (left_over, (unpaid, refl, λ e. absurd (ground (arith, e))))

check_rows_unbounded_example :
    check_rows asking (pos 7) (waiting ∷ waiting ∷ second ∷ []) (0, 0, 0) vault
    ≡ (err (outage "no charge"), vault)
check_rows_unbounded_example =
    check_rows_unbounded asking ask_first (pos 7) vault refl (waiting ∷ waiting ∷ []) second
      (outage "no charge") (abandoned, (abandoned, tt)) left_over refl

abbrev out : SelfExclusion
out = record { period = "30d"; requested_at = "2026-11-26T12:00:00Z"; until = "" }

abbrev leaver : User
leaver = record {
  user_id = "ana";
  terms_addendum_version = "";
  gambling_addendum_version = "";
  self_exclusion = some out;
  game_limits = none;
  game_deposit_counters = none;
  real_daily_counters = none;
}

abbrev counts : Counts
counts = record {
  deposits_retained = 0;
  withdrawals_retained = 0;
  user_erased = false;
  audit_anonymized = 0;
  exclusion_carried = false;
}

vault_purged : (purge sources "ana" vault).0 ≡ ok (purged counts)
unfolding purge blockers load_wallets load_by_markers allows
vault_purged = refl

purge_clear_example : IsClear sources "ana" vault
purge_clear_example = purge_clear sources "ana" vault counts vault_purged
