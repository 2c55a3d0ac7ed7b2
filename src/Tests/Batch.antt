-- ===== src/Tests/Batch.antt =====
-- The theorems on deposits' first step, the batch jobs, events and whole runs at work.
use ctech_wallet.Prelude.{◌≡◌, ◌⊎◌, inl, refl, true, some, List, [], ◌∷◌, arith, ◌≤◌, ap}
use ctech_wallet.Prelude.Int.{pos, ◌+ℤ◌, ◌-ℤ◌}
use ctech_wallet.Prelude.Lists.{All}
use ctech_wallet.Prelude.Table.{write, write_self}
use ctech_wallet.Domain.Model.{Withdrawal, WithdrawStatus}
use ctech_wallet.Store.Problem.{Result, ok, err}
use ctech_wallet.Store.Keys.{entry_sk}
use ctech_wallet.Store.Tables.{find_entry, distinct, conditions}
use ctech_wallet.Store.Memory.{memory, memory-IsDynamo, memory-IsPrompt}
use ctech_wallet.Store.Sound.{SameBooks, Balanced, entries_total}
use ctech_wallet.Store.Guarded.{keyed}
use ctech_wallet.Store.Amounts.{IsTidy}
use ctech_wallet.Store.Log.{Follows}
use ctech_wallet.Payments.Queues.{Indexes, list_processing_withdrawals}
use ctech_wallet.Ledger.Exact.{IsFirst, MovesBalance}
use ctech_wallet.Ledger.{mutation_items}
use ctech_wallet.Service.{World, Env, transfer_failed, transfer_not_found}
use ctech_wallet.Service.Initiate.{initiate_deposit}
use ctech_wallet.Service.Initiate.Once.{OpensAtMostOnce, initiate_deposit-OpensAtMostOnce}
use ctech_wallet.Service.Initiate.Ends.{initiate_deposit_one_pass}
use ctech_wallet.Service.Reconcile.{reconcile_batch, started, reconcile_one, reconcile_withdrawals}
use ctech_wallet.Service.Reconcile.Books.{IsTidyIndex}
use ctech_wallet.Service.Reconcile.Quiet.{IsSpared, reconcile_withdrawals-SameBooks}
use ctech_wallet.Service.Reconcile.Returns.{IsMarked, failed_payout_returns}
use ctech_wallet.Service.Withdraw.Reverse.{reversal_mutation}
use ctech_wallet.Billing.{missing}
use ctech_wallet.Billing.Signature.{Crypto}
use ctech_wallet.Api.Events.{BillingEvents, Delivery, handle, is_signed, Wakes, handle_only-Wakes}
use ctech_wallet.System.{
  asks_withdraw, credits_sandbox, runs_jobs, serve, IsSoundEnv, served, here, next,
}
use ctech_wallet.System.Books.{first_world, Reach-Follows, reachable_books}
use ctech_wallet.Tests.Sample.{sample, real_wallet, sample-Invariant}
use ctech_wallet.Tests.Service.{env, world}

initiate_deposit-OpensAtMostOnce_example :
    OpensAtMostOnce env "ana"
      (pos 300)
      "k9"
      []
      (initiate_deposit env "ana" (pos 300) "k9" 2 "enhanced" world).1
initiate_deposit-OpensAtMostOnce_example =
    initiate_deposit-OpensAtMostOnce env "ana" (pos 300) "k9" 2 "enhanced" world

initiate_deposit_one_pass_example :
    initiate_deposit env "ana" (pos 300) "k9" 7 "enhanced" world
    ≡ initiate_deposit env "ana" (pos 300) "k9" 1 "enhanced" world
initiate_deposit_one_pass_example =
    initiate_deposit_one_pass env "ana" (pos 300) "k9" "enhanced" 6 world memory-IsPrompt

abbrev pending_payout : Withdrawal
pending_payout = record {
  withdrawal_id = "withdraw#ana#k1";
  wallet_id = "WALLET#1";
  user_id = "ana";
  amount = pos 200;
  pix_key = "11122233344";
  status = WithdrawStatus.processing;
  e2e_id = "";
  idempotency_key = "k1";
  created_at = "2026-11-26T12:00:00Z";
  updated_at = "2026-11-26T12:00:00Z";
}

abbrev paying : World
paying = record {
  db = record sample { withdrawals = write "withdraw#ana#k1" pending_payout sample.withdrawals };
  calls = [];
}

-- An index that names the one withdrawal that is being paid.
abbrev queue : Indexes
queue = record {
  deposits_by_status = λ s n db. ok [];
  withdrawals_by_status = λ s n db. ok (pending_payout ∷ []);
  holds_by_status = λ s n db. ok [];
}

-- The bank does not know a payout that is younger than its grace, or it refused.
abbrev slow : Env
slow = record env {
  query_payout = λ key w. ok (record { e2e_id = ""; status = transfer_not_found });
  payout_grace = pos 10;
}

abbrev refusing : Env
refusing = record env {
  query_payout = λ key w. ok (record { e2e_id = ""; status = transfer_failed });
}

abbrev rows_or : List Withdrawal → Result (List Withdrawal) → List Withdrawal
rows_or other (ok rows) = rows
rows_or other (err e) = other

slow_spares :
    (rows : List Withdrawal)
    → (list_processing_withdrawals queue reconcile_batch paying.db).0 ≡ ok rows
    → All (IsSpared slow) rows
unfolding list_processing_withdrawals ◌-ℤ◌
slow_spares rows e =
    let same = ap (rows_or []) e in
    rw⁻¹ same ((λ w. (pos 0, inl refl, ground arith, ground arith)), tt)

reconcile_withdrawals-SameBooks_example :
    SameBooks (reconcile_withdrawals slow queue paying).1.db paying.db
reconcile_withdrawals-SameBooks_example =
    reconcile_withdrawals-SameBooks slow queue paying memory-IsDynamo slow_spares

paying-IsFirst :
    IsFirst memory
      (env.clock paying)
      (reversal_mutation refusing pending_payout)
      (pos 1)
      []
      real_wallet
      paying.db
unfolding reversal_mutation write find_entry mutation_items distinct conditions entry_sk
paying-IsFirst = record {
  no_guard = refl;
  wallet_row = refl;
  free_sk = refl;
  once = refl;
  others = refl;
}

failed_payout_returns_example :
    let (r, w') = reconcile_one refusing started pending_payout paying in
    (r ≡ ok (record started { reversed = 1 }))
    × MovesBalance "WALLET#1" real_wallet (pos 500 +ℤ pos 200) paying.db w'.db
    × IsMarked "withdraw#ana#k1" w'.db
failed_payout_returns_example =
    failed_payout_returns refusing pending_payout started
      (record { e2e_id = ""; status = transfer_failed }) paying real_wallet pending_payout
      memory-IsPrompt refl refl refl
      (write_self "withdraw#ana#k1" pending_payout sample.withdrawals) refl paying-IsFirst

queue-IsTidyIndex : IsTidyIndex queue
queue-IsTidyIndex s n db rows tidy e = let same = ap (rows_or []) e in rw⁻¹ same (ground arith, tt)

env-IsSoundEnv : IsSoundEnv env queue
env-IsSoundEnv = record {
  law = memory-IsDynamo;
  answers = λ txid w c e. ground arith;
  index = queue-IsTidyIndex;
  holds = λ id db h tidy e. tidy.holds id h (ground arith);
}

sample-IsTidy : IsTidy sample
sample-IsTidy = record { holds = λ k v e. ground arith; withdrawals = λ k v e. ground arith }

-- A withdrawal, then the batch jobs.
abbrev two_requests : World
two_requests =
    serve env queue runs_jobs
      (serve env queue (asks_withdraw "ana" (pos 200) "k1" "enhanced" 0) world)

Reach-Follows_example : Follows sample.ledger two_requests.db
Reach-Follows_example = Reach-Follows world sample-Invariant sample-IsTidy two_requests (
    next
      (next here (
        served env queue (asks_withdraw "ana" (pos 200) "k1" "enhanced" 0) env-IsSoundEnv
          (ground arith)))
      (served env queue runs_jobs env-IsSoundEnv tt))

abbrev credited : World
credited = serve env queue (credits_sandbox "ana" (pos 50) "k2" "bonus" "") first_world

reachable_books_example :
    Balanced (credited.db.wallets "WALLET#fresh") (entries_total "WALLET#fresh" credited.db.ledger)
    × (keyed "k2" "WALLET#fresh" credited.db.ledger ≤ 1)
reachable_books_example = reachable_books credited "WALLET#fresh" "k2" (
    next here (
      served env queue (credits_sandbox "ana" (pos 50) "k2" "bonus" "") env-IsSoundEnv
        (ground arith)))

-- A delivery of Billing that names no invoice of ours, signed by a stand-in for HMAC.
abbrev pub stand_in : Crypto
stand_in = record { hmac_hex = λ secret text. secret; parse_int = λ s. some (pos 0) }

abbrev wired : BillingEvents
wired = record {
  secret = "s";
  crypto = stand_in;
  decode = λ body. some (record { type = "payout.done"; object = "payout"; id = "" });
  invoice_by_id = λ id w. missing;
  has_withdrawals = true;
  now = pos 0;
}

abbrev delivery : Delivery
delivery = record { signature = "v1=s"; timestamp = "0"; body = "{}" }

handle_only-Wakes_example :
    let w' = (handle env queue wired delivery paying).1 in
    (w' ≡ paying)
    ⊎ ((is_signed env queue wired delivery ≡ true) × Wakes env queue wired delivery paying w')
handle_only-Wakes_example = handle_only-Wakes env queue wired delivery paying
