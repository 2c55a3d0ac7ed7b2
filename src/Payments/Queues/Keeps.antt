-- ===== src/Payments/Queues/Keeps.antt =====
-- The work queues read and write nothing.
use ctech_wallet.Prelude.{◌≡◌, refl, ℕ, List, [], ◌∷◌, Bool-cases, inl, inr, leb}
use ctech_wallet.Prelude.Int.{ℤ}
use ctech_wallet.Prelude.Lists.{length}
use ctech_wallet.Domain.Model.{PixDeposit, DepositStatus, HoldStatus}
use ctech_wallet.Domain.Calendar.{Calendar}
use ctech_wallet.Store.Problem.{bind_keeps, reads}
use ctech_wallet.Store.Tables.{Db}
use ctech_wallet.Payments.Queues.{
  Indexes, refundable_statuses, list_by_statuses, list_pending_deposits_older_than,
  list_refundable_deposits_older_than, scan_stale_holds,
}

module _ (q : Indexes) (c : Calendar) (cutoff : ℤ) (limit : ℕ) (db : Db) where
  pub list_pending_state : (list_pending_deposits_older_than q c cutoff limit db).1 ≡ db
  unfolding list_pending_deposits_older_than
  list_pending_state =
      bind_keeps (λ s. s ≡ db) (reads (q.deposits_by_status DepositStatus.pending limit)) _ db refl
        (λ rows e. refl)

  list_by_statuses_state :
      (ss : List DepositStatus) (out : List PixDeposit)
      → (list_by_statuses q c cutoff limit ss out db).1 ≡ db
  unfolding list_by_statuses
  list_by_statuses_state [] out = refl
  list_by_statuses_state (s ∷ ss) out = elim (Bool-cases (leb limit (length out))) [
    | inl full ↦ rw full refl
    | inr room ↦ rw room (
        bind_keeps (λ s. s ≡ db) (reads (q.deposits_by_status s _)) _ db refl
          (λ rows e. list_by_statuses_state ss _))
  ]

  pub list_refundable_state : (list_refundable_deposits_older_than q c cutoff limit db).1 ≡ db
  unfolding list_refundable_deposits_older_than
  list_refundable_state = list_by_statuses_state refundable_statuses []

  pub scan_stale_state : (scan_stale_holds q c cutoff limit db).1 ≡ db
  unfolding scan_stale_holds
  scan_stale_state =
      bind_keeps (λ s. s ≡ db) (reads (q.holds_by_status HoldStatus.held limit)) _ db refl
        (λ rows e. refl)
