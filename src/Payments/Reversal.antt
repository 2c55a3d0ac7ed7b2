-- ===== src/Payments/Reversal.antt =====
-- Marking a withdrawal reversed: it ends reversed, and it frees the daily slot once.
use ctech_wallet.Prelude.{String, ◌≡◌, refl, inl, inr, false, Option, none, some, List, ◌∷◌, arith}
use ctech_wallet.Domain.Model.{Withdrawal, WithdrawStatus}
use ctech_wallet.Store.Problem.{bind_keeps, reads}
use ctech_wallet.Store.Tables.{Db, TxItem, reverse_withdrawal, condition, conditions}
use ctech_wallet.Store.Dynamo.{Dynamo, IsDynamo, Written, done, refused, broken, Moment}
use ctech_wallet.Ledger.{transact_write}
use ctech_wallet.Payments.{
  get_withdrawal, reversed_anyway, reversal_written, mark_withdrawal_reversed,
}

-- A write whose conditions fail leaves the state alone.
pub transact_refused :
    (d : Dynamo) (items : List TxItem) (db : Db)
    → IsDynamo d
    → conditions items db ≡ false
    → (d.transact items db).1 ≡ db
transact_refused d items db law c = elim (law.atomic items db) [
  | inl (same, _) ↦ same
  | inr (h, _, _) ↦ ground arith
]

module _ (d : Dynamo) (t : Moment) (id : String) (db : Db) (law : IsDynamo d) (row : Withdrawal)
    (found : db.withdrawals id ≡ some row) (reversed : row.status ≡ WithdrawStatus.reversed) where
  reversed_anyway_same :
      (o : Option Withdrawal) → db.withdrawals id ≡ o → (reversed_anyway d t id o db).1 ≡ db
  unfolding reversed_anyway
  reversed_anyway_same none e = ground arith
  reversed_anyway_same (some w) e = ground arith

  reversal_written_same : (w : Written) → (reversal_written d t id w db).1 ≡ db
  unfolding reversal_written get_withdrawal
  reversal_written_same done = refl
  reversal_written_same (broken message) = refl
  reversal_written_same refused =
      bind_keeps (λ s. s ≡ db) (reads (d.get_withdrawal id)) (reversed_anyway d t id) db refl
        (λ o e. reversed_anyway_same o (law.withdrawal_current id db o e))

  reversal_refused :
      (extra : List TxItem) → conditions (reverse_withdrawal id t.now_str ∷ extra) db ≡ false
  unfolding conditions condition
  reversal_refused extra = rw (found, reversed) refl

-- Marking a withdrawal that is reversed already changes nothing, whatever DynamoDB answers: the
-- items that ride along, such as the return of the daily slot, are not written again.
pub mark_withdrawal_reversed_once :
    (d : Dynamo) (t : Moment) (id : String) (extra : List TxItem) (db : Db) (row : Withdrawal)
    → IsDynamo d
    → db.withdrawals id ≡ some row
    → row.status ≡ WithdrawStatus.reversed
    → (mark_withdrawal_reversed d t id extra db).1 ≡ db
unfolding mark_withdrawal_reversed transact_write
mark_withdrawal_reversed_once d t id extra db row law found reversed =
    rw
      (transact_refused d (reverse_withdrawal id t.now_str ∷ extra) db law
        (reversal_refused d t id db law row found reversed extra))
      (reversal_written_same d t id db law row found reversed _)
