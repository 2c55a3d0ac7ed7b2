-- ===== src/Tests/Service.antt =====
-- The theorems on the flows at work on the sample state.
use ctech_wallet.Prelude.{
  String, ◌≡◌, ◌↔◌, ◌⊎◌, refl, true, false, Option, none, some, List, [], ◌∷◌, arith, eq_iff, ◌≤◌,
}
use ctech_wallet.Prelude.Int.{pos, int64, ltb_ℤ, eqb_ℤ, ◌+ℤ◌, ◌≤ℤ◌}
use ctech_wallet.Prelude.Table.{write}
use ctech_wallet.Domain.Model.{
  WalletType, Hold, HoldStatus, Withdrawal, WithdrawStatus, GameLimits, GameDepositCounters,
}
use ctech_wallet.Domain.Responsible.{check_deposit}
use ctech_wallet.Domain.Responsible.Windows.{FitsWindow, check_deposit-none_iff}
use ctech_wallet.Store.Problem.{ok, err, outage}
use ctech_wallet.Store.Tables.{Db}
use ctech_wallet.Store.Memory.{memory, memory-IsDynamo}
use ctech_wallet.Store.Lawful.{Invariant}
use ctech_wallet.Store.Keys.{marker_pk, entry_sk}
use ctech_wallet.Store.Tables.{
  find_entry, distinct, conditions, condition, balance_condition, effects, effect,
}
use ctech_wallet.Ledger.{check_replay, transact_write, settle}
use ctech_wallet.Holds.{cashout_holds, cashout_items}
use ctech_wallet.Wallets.{ensure_wallets, load_wallets, load_by_markers}
use ctech_wallet.Wallets.Keeps.{KeepsWallets, ensure_wallets-KeepsWallets}
use ctech_wallet.Payments.{mark_withdrawal_reversed}
use ctech_wallet.Payments.Reversal.{mark_withdrawal_reversed_once}
use ctech_wallet.Service.{World, Env, transfer_done, on_db, timed, acquire_wallet}
use ctech_wallet.Service.Payer.{masked_cpf_matches, IsMaskOf, ShowsDigit, masked_cpf_matches_iff}
use ctech_wallet.Service.Withdraw.{withdraw}
use ctech_wallet.Service.Withdraw.Books.{withdraw-Invariant}
use ctech_wallet.Service.Withdraw.Safety.{PaysAtMostOnce, withdraw_pays_debited}
use ctech_wallet.Service.Games.{cashout_game}
use ctech_wallet.Service.Games.Cashout.{cashout_game_bounded}
use ctech_wallet.Service.Games.Collect.{total, IsDistinct, Consumes, ReadsHolds}
use ctech_wallet.Tests.Sample.{one_day, moment, sample, sample-Invariant}

-- The bank pays everything, the lock is free, nobody is blocked.
abbrev pub env : Env
env = record {
  dynamo = memory;
  calendar = one_day;
  clock = λ w. moment;
  acquire = λ id w. ok true;
  erasure_gate = none;
  erased = none;
  kyc_get = λ user w. ok (record { cpf = "11122233344"; legal_name = "Ana"; email = "" });
  open_deposit = λ req w. err (outage "no charge");
  query_deposit = λ txid w. err (outage "no charge");
  refund_deposit = λ txid e2e amount key w. ok (record { e2e_id = "r"; status = transfer_done });
  payout = λ cpf amount key w. ok (record { e2e_id = "p"; status = transfer_done });
  query_payout = λ key w. ok (record { e2e_id = "p"; status = transfer_done });
  needs_identity = false;
  payout_grace = pos 0;
  sha256_hex = λ s. s;
  inter_idem_key = λ s. s;
  decimal = λ n. "1";
  name_words = λ s. s ∷ [];
  error_text = λ e. "error";
}

abbrev pub world : World
world = record { db = sample; calls = [] }

withdraw-Invariant_example : Invariant (withdraw env "ana" (pos 200) "k1" "enhanced" world).1.db
withdraw-Invariant_example =
    withdraw-Invariant env "ana" (pos 200) "k1" "enhanced" world memory-IsDynamo (ground arith)
      sample-Invariant

withdraw_pays_debited_example :
    PaysAtMostOnce env "ana"
      (pos 200)
      "k1"
      []
      (withdraw env "ana" (pos 200) "k1" "enhanced" world).1
withdraw_pays_debited_example =
    withdraw_pays_debited env "ana" (pos 200) "k1" "enhanced" world memory-IsDynamo (ground arith)

abbrev seat : Hold
seat = record {
  hold_id = "h1";
  wallet_id = "WALLET#1";
  user_id = "ana";
  amount = pos 200;
  table_ref = "t1";
  status = HoldStatus.held;
  idempotency_key = "k3";
  created_at = "2026-11-26T12:00:00Z";
  updated_at = "2026-11-26T12:00:00Z";
}

abbrev seated : World
seated = record {
  db = record sample {
    holds = write "h1" seat sample.holds;
    markers =
        write (marker_pk "ana" WalletType.real)
          (record {
            pk = marker_pk "ana" WalletType.real;
            wallet_id = "WALLET#1";
            type = WalletType.real;
            created_at = "2026-11-25T12:00:00Z";
          })
          sample.markers;
  };
  calls = [];
}

seat_of : Option Hold → Hold
seat_of none = seat
seat_of (some h) = h

seat_reads : ReadsHolds memory seated.db
unfolding write seat_of
seat_reads = record {
  keyed = λ id h e. ground (arith, eq_iff "h1" id);
  sized = λ id h e. ground (arith, eq_iff "h1" id);
  constant = λ id h row e found. ground (arith, eq_iff "h1" id);
}

-- 150 of the 200 that are reserved go back to the wallet, and the hold is settled.
seated_cashes_out :
    let w' = (cashout_game env "ana" (pos 150) "t1" ("h1" ∷ []) "k4" "" seated).1 in
    w'.db.holds "h1"
    ≡ some (record seat { status = HoldStatus.settled; updated_at = moment.now_str })
unfolding cashout_game on_db load_wallets load_by_markers write find_entry cashout_holds
    acquire_wallet ltb_ℤ int64 ◌+ℤ◌ timed check_replay transact_write settle distinct cashout_items
    conditions condition balance_condition eqb_ℤ entry_sk effects effect
seated_cashes_out = refl

cashout_game_bounded_example :
    let w' = (cashout_game env "ana" (pos 150) "t1" ("h1" ∷ []) "k4" "" seated).1 in
    (w'.db ≡ seated.db)
    ⊎ ((rows : List Hold) × (now : String) × IsDistinct ("h1" ∷ [])
        × (1 ≤ 20)
        × Consumes "ana" "t1" now seated.db.holds w'.db.holds ("h1" ∷ []) rows
        × (pos 150 ≤ℤ total rows))
cashout_game_bounded_example =
    cashout_game_bounded env "ana" (pos 150) "t1" ("h1" ∷ []) "k4" "" seated memory-IsDynamo
      seat_reads

ensure_wallets-KeepsWallets_example :
    KeepsWallets sample
      (ensure_wallets memory moment "ana" (WalletType.real ∷ WalletType.sandbox ∷ []) sample).1
ensure_wallets-KeepsWallets_example =
    ensure_wallets-KeepsWallets memory moment "ana" (WalletType.real ∷ WalletType.sandbox ∷ [])
      sample memory-IsDynamo

abbrev undone : Withdrawal
undone = record {
  withdrawal_id = "withdraw#ana#k1";
  wallet_id = "WALLET#1";
  user_id = "ana";
  amount = pos 200;
  pix_key = "11122233344";
  status = WithdrawStatus.reversed;
  e2e_id = "";
  idempotency_key = "k1";
  created_at = "2026-11-26T12:00:00Z";
  updated_at = "2026-11-26T12:00:00Z";
}

abbrev with_undone : Db
with_undone = record sample { withdrawals = write "withdraw#ana#k1" undone sample.withdrawals }

mark_withdrawal_reversed_once_example :
    (mark_withdrawal_reversed memory moment "withdraw#ana#k1" [] with_undone).1 ≡ with_undone
unfolding write
mark_withdrawal_reversed_once_example =
    mark_withdrawal_reversed_once memory moment "withdraw#ana#k1" [] with_undone undone
      memory-IsDynamo refl refl

masked_cpf_matches_iff_example :
    (masked_cpf_matches "***222****4" "11122233344" ≡ true)
    ↔ (IsMaskOf "***222****4" "11122233344" × ShowsDigit "***222****4")
masked_cpf_matches_iff_example = masked_cpf_matches_iff "***222****4" "11122233344"

abbrev caps : GameLimits
caps = record { daily = pos 100; weekly = pos 300; monthly = pos 900; pending = none }

abbrev played : GameDepositCounters
played = record {
  day_key = "2026-11-26";
  day_sum = pos 40;
  week_key = "2026-W48";
  week_sum = pos 40;
  month_key = "2026-10";
  month_sum = pos 700;
}

check_deposit-none_iff_example : (check_deposit one_day caps played (pos 60) (pos 7) ≡ none) ↔ (
    FitsWindow "2026-11-26" "2026-11-26" (pos 40) (pos 60) (pos 100)
    × FitsWindow "2026-W48" "2026-W48" (pos 40) (pos 60) (pos 300)
    × FitsWindow "2026-10" "2026-11" (pos 700) (pos 60) (pos 900))
check_deposit-none_iff_example =
    check_deposit-none_iff one_day caps played (pos 60) (pos 7) (ground arith)
