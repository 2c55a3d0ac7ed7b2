-- ===== src/Payments/Keeps.antt =====
-- The writes of deposit and withdrawal rows keep every property that lawful transactions keep.
use ctech_wallet.Prelude.{String, ◌≡◌, refl, Option, none, some, List, [], ◌∷◌, arith}
use ctech_wallet.Prelude.Lists.{All}
use ctech_wallet.Domain.Model.{PixDeposit, DepositStatus, Withdrawal, WithdrawStatus}
use ctech_wallet.Store.Problem.{Error, deposit_exists, condition_failed, ◌>>=◌, bind_keeps, reads}
use ctech_wallet.Store.Tables.{
  Db, TxItem, put_deposit, set_deposit_status, set_deposit_payer, move_deposit, set_withdrawal,
  reverse_withdrawal,
}
use ctech_wallet.Store.Dynamo.{Dynamo, Written, done, refused, broken, Moment}
use ctech_wallet.Store.Sound.{IsSide}
use ctech_wallet.Store.Lawful.{Closed, sides}
use ctech_wallet.Ledger.{transact_write}
use ctech_wallet.Payments.{
  must, transitioned, put_deposit_if_absent, update_deposit_status, update_deposit_payer,
  transition_deposit_status, update_withdrawal, get_withdrawal, reversed_anyway, reversal_written,
  mark_withdrawal_reversed,
}

must_state : (e : Error) (w : Written) (db : Db) → (must e w db).1 ≡ db
unfolding must
must_state e done db = refl
must_state e refused db = refl
must_state e (broken message) db = refl

transitioned_state : (w : Written) (db : Db) → (transitioned w db).1 ≡ db
unfolding transitioned
transitioned_state done db = refl
transitioned_state refused db = refl
transitioned_state (broken message) db = refl

module _ (d : Dynamo) (P : Db → Type 0) (closed : Closed d P) where
  must_keeps :
      (i : TxItem) (e : Error) (db : Db)
      → IsSide i
      → P db
      → P ((transact_write d (i ∷ []) >>= must e) db).1
  unfolding transact_write
  must_keeps i e db side h =
      rw (must_state e _ _) (closed (i ∷ []) db (sides (i ∷ []) (side, tt)) h)

  pub put_deposit_if_absent_keeps :
      (dep : PixDeposit) (db : Db) → P db → P (put_deposit_if_absent d dep db).1
  unfolding put_deposit_if_absent
  put_deposit_if_absent_keeps dep db h = must_keeps (put_deposit dep) deposit_exists db tt h

  pub update_deposit_status_keeps :
      (txid : String) (status : DepositStatus) (e2e : String) (db : Db)
      → P db
      → P (update_deposit_status d txid status e2e db).1
  unfolding update_deposit_status
  update_deposit_status_keeps txid status e2e db h =
      must_keeps (set_deposit_status txid status e2e) condition_failed db tt h

  pub update_deposit_payer_keeps :
      (txid cpf name : String) (db : Db) → P db → P (update_deposit_payer d txid cpf name db).1
  unfolding update_deposit_payer
  update_deposit_payer_keeps txid cpf name db h =
      must_keeps (set_deposit_payer txid cpf name) condition_failed db tt h

  pub transition_deposit_status_keeps :
      (txid : String) (from to : DepositStatus) (e2e : String) (db : Db)
      → P db
      → P (transition_deposit_status d txid from to e2e db).1
  unfolding transition_deposit_status transact_write
  transition_deposit_status_keeps txid from to e2e db h =
      let i = move_deposit txid from to e2e in
      rw (transitioned_state _ _) (closed (i ∷ []) db (sides (i ∷ []) (tt, tt)) h)

  pub update_withdrawal_keeps :
      (t : Moment) (id : String) (status : WithdrawStatus) (e2e : Option String) (db : Db)
      → P db
      → P (update_withdrawal d t id status e2e db).1
  unfolding update_withdrawal
  update_withdrawal_keeps t id status e2e db h =
      must_keeps (set_withdrawal id status e2e t.now_str) condition_failed db tt h

  reversed_anyway_keeps :
      (t : Moment) (id : String) (o : Option Withdrawal) (db : Db)
      → P db
      → P (reversed_anyway d t id o db).1
  unfolding reversed_anyway
  reversed_anyway_keeps t id none db h =
      update_withdrawal_keeps t id WithdrawStatus.reversed none db h
  reversed_anyway_keeps t id (some w) db h =
      ground (arith, update_withdrawal_keeps t id WithdrawStatus.reversed none db h)

  reversal_written_keeps :
      (t : Moment) (id : String) (w : Written) (db : Db) → P db → P (reversal_written d t id w db).1
  unfolding reversal_written get_withdrawal
  reversal_written_keeps t id done db h = h
  reversal_written_keeps t id (broken message) db h = h
  reversal_written_keeps t id refused db h =
      bind_keeps P (reads (d.get_withdrawal id)) _ db h (λ o e. reversed_anyway_keeps t id o db h)

  pub mark_withdrawal_reversed_keeps :
      (t : Moment) (id : String) (extra : List TxItem) (db : Db)
      → All IsSide extra
      → P db
      → P (mark_withdrawal_reversed d t id extra db).1
  unfolding mark_withdrawal_reversed transact_write
  mark_withdrawal_reversed_keeps t id extra db side h =
      let items = reverse_withdrawal id t.now_str ∷ extra in
      reversal_written_keeps t id _ _ (closed items db (sides items (tt, side)) h)

-- The state after a change of a withdrawal's row.
pub transition_deposit_status_state :
    (d : Dynamo) (txid : String) (from to : DepositStatus) (e2e : String) (db : Db)
    → (transition_deposit_status d txid from to e2e db).1
      ≡ (d.transact (move_deposit txid from to e2e ∷ []) db).1
unfolding transition_deposit_status transact_write
transition_deposit_status_state d txid from to e2e db = transitioned_state _ _

pub update_deposit_payer_state :
    (d : Dynamo) (txid cpf name : String) (db : Db)
    → (update_deposit_payer d txid cpf name db).1
      ≡ (d.transact (set_deposit_payer txid cpf name ∷ []) db).1
unfolding update_deposit_payer transact_write
update_deposit_payer_state d txid cpf name db = must_state condition_failed _ _

pub update_withdrawal_state :
    (d : Dynamo) (t : Moment) (id : String) (status : WithdrawStatus) (e2e : Option String)
    (db : Db)
    → (update_withdrawal d t id status e2e db).1
      ≡ (d.transact (set_withdrawal id status e2e t.now_str ∷ []) db).1
unfolding update_withdrawal transact_write
update_withdrawal_state d t id status e2e db = must_state condition_failed _ _
