-- ===== src/Jobs.antt =====
-- api/cmd/reconcile/main.go: one run of the batch jobs, one after the other, and when it alarms.
use ctech_wallet.Prelude.{◌||◌, ltb, ℕ, if◌then◌else◌}
use ctech_wallet.Store.Problem.{outage, Result, ◌>>=◌, pure, raise, bind_keeps}
use ctech_wallet.Store.Dynamo.{IsDynamo}
use ctech_wallet.Store.Amounts.{IsTidy}
use ctech_wallet.Payments.Queues.{Indexes}
use ctech_wallet.Service.{World, Env}
use ctech_wallet.Service.Keeps.{Keeps, ClosedWorld}
use ctech_wallet.Service.Deposit.SagaKeeps.{KeptByRefunds}
use ctech_wallet.Service.Deposit.Books.{AnswersSoundly}
use ctech_wallet.Service.Reconcile.{
  reconcile_withdrawals, sweep_pending_deposits, sweep_deposit_refunds, sweep_stale_holds,
}
use ctech_wallet.Service.Reconcile.Books.{
  IsTidyIndex, reconcile_withdrawals-Keeps, sweep_pending_deposits-Keeps,
  sweep_deposit_refunds-Keeps, sweep_stale_holds_state,
}

-- Result of main.go; its JSON names are these.
pub record RunResult : Type 0 where
  pub resolved : ℕ
  pub reversed : ℕ
  pub alarmed : ℕ
  pub swept_deposits : ℕ
  pub retried_deposit_refunds : ℕ
  pub stale_holds : ℕ

module _ (env : Env) (q : Indexes) where
  -- run, past the building of its clients.
  unfoldable pub run_jobs : World → Result RunResult × World
  run_jobs = do
    tally ← reconcile_withdrawals env q
    swept ← sweep_pending_deposits env q
    retried ← sweep_deposit_refunds env q
    stale ← sweep_stale_holds env q
    pure (record {
      resolved = tally.resolved;
      reversed = tally.reversed;
      alarmed = tally.alarmed;
      swept_deposits = swept;
      retried_deposit_refunds = retried;
      stale_holds = stale;
    })

  -- handler: the error stands for the alarm; the code hands out the counts beside it.
  unfoldable pub alarm_if : RunResult → World → Result RunResult × World
  alarm_if r =
      if ltb 0 r.alarmed || ltb 0 r.stale_holds
      then raise (outage "reconcile: manual reconciliation needed")
      else pure r

  unfoldable pub handler : World → Result RunResult × World
  unfolding run_jobs alarm_if
  handler = do r ← run_jobs; alarm_if r

  module _ (R : World → Type 0) (law : IsDynamo env.dynamo) (closed : ClosedWorld env R)
      (logs : KeptByRefunds R) (tidy : (w : World) → R w → IsTidy w.db) (index : IsTidyIndex q)
      (answers : AnswersSoundly env) where
    pub run_jobs-Keeps : Keeps R run_jobs
    unfolding run_jobs
    run_jobs-Keeps w h =
        let k1 = reconcile_withdrawals-Keeps env q R law closed tidy index w h in
        bind_keeps R (reconcile_withdrawals env q) _ w k1 (λ r1 e1.
          let w1 = (reconcile_withdrawals env q w).1 in
          let k2 = sweep_pending_deposits-Keeps env q R closed logs answers w1 k1 in
          bind_keeps R (sweep_pending_deposits env q) _ w1 k2 (λ r2 e2.
            let w2 = (sweep_pending_deposits env q w1).1 in
            let k3 = sweep_deposit_refunds-Keeps env q R closed logs answers w2 k2 in
            bind_keeps R (sweep_deposit_refunds env q) _ w2 k3 (λ r3 e3.
              let w3 = (sweep_deposit_refunds env q w2).1 in
              let k4 : R (sweep_stale_holds env q w3).1 = rw sweep_stale_holds_state k3 in
              bind_keeps R (sweep_stale_holds env q) _ w3 k4 (λ r4 e4. k4))))
