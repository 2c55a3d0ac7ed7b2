-- ===== src/Service/Reconcile/Returns.antt =====
-- A failed payout comes back: the reconciliation credits the withdrawal and marks it reversed.
use ctech_wallet.Prelude.{
  String, ◌≡◌, refl, false, true, Bool, ◌+◌, Option, none, some, List, [], ◌∷◌, Option-cases, inl,
  inr, Bool-cases, eq_refl, ◌==◌,
}
use ctech_wallet.Prelude.Int.{ℤ, pos, ◌+ℤ◌, eqb_ℤ_iff, ltb_ℤ}
use ctech_wallet.Prelude.Table.{write_self}
use ctech_wallet.Domain.Model.{
  Wallet, LedgerEntry, Withdrawal, WithdrawStatus, RealDailyCounters, User,
}
use ctech_wallet.Store.Problem.{ok}
use ctech_wallet.Store.Tables.{
  Db, TxItem, reverse_withdrawal, is_reversed, same_counters, daily_of, adjust-some, condition,
  conditions, effect, effects, distinct, balance_condition,
}
use ctech_wallet.Store.Dynamo.{IsPrompt, Moment}
use ctech_wallet.Ledger.{credit, transact_write, mutation_items, booked_entry, balance_tx, guard_tx}
use ctech_wallet.Ledger.Exact.{IsFirst, MovesBalance, mutate_applied, version_self, credit_adds}
use ctech_wallet.Payments.{bump_real_daily_counters, reversal_written, mark_withdrawal_reversed}
use ctech_wallet.Service.{World, Env, TransferResult, transfer_failed, timed, on_db, get_user}
use ctech_wallet.Service.Withdraw.Reverse.{
  slot_items, slot_of_day, release_withdrawal_slot, reversal_mutation, reversal_credited, reverse,
}
use ctech_wallet.Service.Reconcile.{
  Tally, reverse_failed, reverse_locked, count_reversed, resolve, payout_queried, reconcile_one,
}

same_counters_self : (c : RealDailyCounters) → same_counters (some c) (some c) ≡ true
same_counters_self c =
    rw
      (
        eq_refl c.day_key,
        (eqb_ℤ_iff c.deposit_sum c.deposit_sum).1 refl,
        (eqb_ℤ_iff c.withdraw_sum c.withdraw_sum).1 refl,
        (eqb_ℤ_iff c.withdraw_count c.withdraw_count).1 refl,
      )
      refl

module _ (env : Env) (row : Withdrawal) (now : String) (db : Db) where
  abbrev Marked : List TxItem → Type 0
  Marked slot =
      let items = reverse_withdrawal row.withdrawal_id now ∷ slot in
      (distinct items ≡ true)
      × (conditions items db ≡ true)
      × ((effects items db).wallets ≡ db.wallets)
      × ((effects items db).withdrawals
          ≡ (effect (reverse_withdrawal row.withdrawal_id now) db).withdrawals)

  module _ (stored : Withdrawal) (found : db.withdrawals row.withdrawal_id ≡ some stored)
      (due : is_reversed stored.status ≡ false) where
    no_slot : Marked []
    unfolding distinct conditions condition effects effect
    no_slot = (refl, rw (found, due) refl, refl, refl)

    day_slot :
        (c : RealDailyCounters) (o : Option ℤ)
        → daily_of (db.users row.user_id) ≡ some c
        → Marked (slot_of_day env row c o)
    unfolding slot_of_day bump_real_daily_counters distinct conditions condition effects effect
    day_slot c none e = no_slot
    day_slot c (some created) e = elim (Bool-cases (c.day_key == env.calendar.day_key created)) [
      | inl today ↦ rw today (refl, rw (found, due, e, same_counters_self c) refl, refl, refl)
      | inr other ↦ rw other no_slot
    ]

    slot_fits :
        (u : Option User)
        → db.users row.user_id ≡ u
        → Marked (release_withdrawal_slot env row (ok u))
    unfolding release_withdrawal_slot slot_items
    slot_fits none e = no_slot
    slot_fits (some u) e = elim (Option-cases u.real_daily_counters) [
      | inl nothing ↦ rw nothing no_slot
      | inr (c, counted) ↦
          rw counted (day_slot c (env.calendar.parse_nano row.created_at) (rw (e, counted) refl))
    ]

-- The row of the withdrawal is marked reversed.
abbrev pub IsMarked : String → Db → Type 0
IsMarked id db =
    (row : Withdrawal) × (db.withdrawals id ≡ some row) × (row.status ≡ WithdrawStatus.reversed)

module _ (env : Env) (row : Withdrawal) (prompt : IsPrompt env.dynamo) where
  mark_applied :
      (t : Moment) (u : Option User) (db : Db) (stored : Withdrawal)
      → db.withdrawals row.withdrawal_id ≡ some stored
      → is_reversed stored.status ≡ false
      → db.users row.user_id ≡ u
      → let db' =
          (mark_withdrawal_reversed env.dynamo t row.withdrawal_id
            (release_withdrawal_slot env row (ok u))
            db).1 in
        (db'.wallets ≡ db.wallets) × IsMarked row.withdrawal_id db'
  unfolding mark_withdrawal_reversed transact_write reversal_written effect
  mark_applied t u db stored found due e =
      let (once, fits, wallets, rows) = slot_fits env row t.now_str db stored found due u e in
      let mark =
        λ (x : Withdrawal). record x { status = WithdrawStatus.reversed; updated_at = t.now_str } in
      let there : (effects
              (reverse_withdrawal row.withdrawal_id t.now_str
                ∷ release_withdrawal_slot env row (ok u))
              db).withdrawals
            row.withdrawal_id
          ≡ some (mark stored) =
        rw (rows, adjust-some row.withdrawal_id mark db.withdrawals found)
          (write_self row.withdrawal_id (mark stored) db.withdrawals) in
      rw (prompt.applied _ db once fits) (wallets, (mark stored, there, refl))

  credited_marks :
      (r : LedgerEntry × Bool) (v : World) (stored : Withdrawal)
      → v.db.withdrawals row.withdrawal_id ≡ some stored
      → is_reversed stored.status ≡ false
      → let (answer, v') = reversal_credited env row (ok r) v in
        (answer ≡ ok true) × (v'.db.wallets ≡ v.db.wallets) × IsMarked row.withdrawal_id v'.db
  unfolding reversal_credited timed on_db get_user
  credited_marks r v stored found due =
      let u = v.db.users row.user_id in
      let (wallets, marked) = mark_applied (env.clock v) u v.db stored found due refl in
      rw (prompt.user_read row.user_id v.db) (refl, wallets, marked)

  module _ (w : World) (purse : Wallet) (stored : Withdrawal)
      (first : IsFirst env.dynamo (env.clock w) (reversal_mutation env row) (pos 1) [] purse w.db)
      (found : w.db.withdrawals row.withdrawal_id ≡ some stored)
      (due : is_reversed stored.status ≡ false) where
    -- The money of the withdrawal is back in its wallet, and the row says so.
    abbrev pub GivenBack : World → Type 0
    GivenBack w' =
        MovesBalance row.wallet_id purse (purse.balance +ℤ row.amount) w.db w'.db
        × IsMarked row.withdrawal_id w'.db

    credit_leaves_rows :
        (credit env.dynamo (env.clock w) (reversal_mutation env row) [] w.db).1.withdrawals
        ≡ w.db.withdrawals
    unfolding credit mutation_items effects effect balance_tx guard_tx reversal_mutation
        balance_condition ltb_ℤ
    credit_leaves_rows =
        rw
          (mutate_applied env.dynamo (env.clock w) (reversal_mutation env row) (pos 1) [] prompt
            purse w.db first (rw (version_self purse) refl))
          refl

    reverse_gives_back : ((reverse env row w).0 ≡ ok true) × GivenBack (reverse env row w).1
    unfolding reverse timed on_db reversal_mutation
    reverse_gives_back =
        let t = env.clock w in
        let (booked, (purse', there, raised, others), ledger) =
          credit_adds env.dynamo t (reversal_mutation env row) [] purse w.db prompt first
            (tt, λ e. tt) in
        let after = (timed env (λ t. credit env.dynamo t (reversal_mutation env row) []) w).1 in
        let (done, wallets, marked) =
          credited_marks
            (booked_entry env.dynamo t (reversal_mutation env row) (pos 1) [] purse, false) after
            stored (rw credit_leaves_rows found) due in
        rw booked
          (done, ((purse', rw wallets there, raised, λ j ne. rw wallets (others j ne)), marked))

    reversed_counts :
        (n : Tally)
        → env.acquire row.wallet_id w ≡ ok true
        → ((reverse_failed env n row w).0 ≡ ok (record n { reversed = n.reversed + 1 }))
          × GivenBack (reverse_failed env n row w).1
    unfolding reverse_failed reverse_locked count_reversed
    reversed_counts n locked =
        let (done, back) = reverse_gives_back in rw (locked, done) (refl, back)

-- Where DynamoDB answers every call, the lock is free, and no other request writes in between, a
-- withdrawal whose payout the rail reports as failed is given back by the run that asks for it: its
-- amount is added to its wallet, whatever the wallet holds, no other wallet changes, the row is
-- marked reversed, and the run counts it. The withdrawal is not reversed yet, and its reversal is not
-- booked.
pub failed_payout_returns :
    (env : Env) (row : Withdrawal) (n : Tally) (res : TransferResult) (w : World) (purse : Wallet)
    (stored : Withdrawal)
    → IsPrompt env.dynamo
    → env.acquire row.wallet_id w ≡ ok true
    → env.query_payout (env.inter_idem_key row.withdrawal_id) w ≡ ok res
    → res.status ≡ transfer_failed
    → w.db.withdrawals row.withdrawal_id ≡ some stored
    → is_reversed stored.status ≡ false
    → IsFirst env.dynamo (env.clock w) (reversal_mutation env row) (pos 1) [] purse w.db
    → let (r, w') = reconcile_one env n row w in
      (r ≡ ok (record n { reversed = n.reversed + 1 }))
      × MovesBalance row.wallet_id purse (purse.balance +ℤ row.amount) w.db w'.db
      × IsMarked row.withdrawal_id w'.db
unfolding reconcile_one payout_queried resolve
failed_payout_returns env row n res w purse stored prompt locked asked failed found due first =
    let (counted, back) = reversed_counts env row prompt w purse stored first found due n locked in
    rw (asked, failed) (counted, back.0, back.1)
