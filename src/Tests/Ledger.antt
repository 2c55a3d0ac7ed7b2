-- ===== src/Tests/Ledger.antt =====
-- The ledger's theorems at work on the sample state.
use ctech_wallet.Prelude.{String, true, false, ◌≡◌, refl, ap, [], ◌∷◌, arith, inr}
use ctech_wallet.Prelude.Int.{ℤ, pos, negsuc, ◌-ℤ◌}
use ctech_wallet.Prelude.Table.{write}
use ctech_wallet.Domain.Model.{EntryType, LedgerEntry}
use ctech_wallet.Store.Problem.{ok, err, problem, insufficient_balance}
use ctech_wallet.Store.Tables.{Db, find_entry, distinct, conditions}
use ctech_wallet.Store.Memory.{memory, memory-IsDynamo, memory-IsPrompt}
use ctech_wallet.Store.Lawful.{Invariant, sides, transact-Invariant}
use ctech_wallet.Store.Keys.{entry_sk}
use ctech_wallet.Store.Sound.{SameBooks}
use ctech_wallet.Ledger.{
  Mutation, mutate, debit, mutation_items, booked_entry, balance_tx, guard_tx, new_entry,
}
use ctech_wallet.Ledger.Books.{mutate-Invariant}
use ctech_wallet.Ledger.Replay.{Booked, mutate_books, mutate_replay}
use ctech_wallet.Ledger.Exact.{IsFirst, MovesBalance, debit_spends, debit_insufficient}
use ctech_wallet.Tests.Sample.{
  moment, real_wallet, first_deposit, deposit_guard, sample, sample-Invariant,
}

abbrev spend : ℤ → Mutation
spend amount = record {
  wallet_id = "WALLET#1";
  amount = amount;
  entry_type = EntryType.billing_debit;
  ref = "r1";
  description = "";
  idempotency_key = "pay#1";
  req_hash = "h1";
  extra = λ e. [];
}

-- The deposit again, with another hash.
abbrev again : String → Mutation
again hash = record (spend (pos 500)) { idempotency_key = "deposit#d0"; req_hash = hash }

mutate-Invariant_example : Invariant (mutate memory moment (spend (pos 200)) (negsuc 0) [] sample).1
mutate-Invariant_example =
    mutate-Invariant memory moment (spend (pos 200)) (negsuc 0) [] sample memory-IsDynamo
      (ground arith) (inr refl) (tt, λ e. tt) sample-Invariant

transact-Invariant_example : Invariant (memory.transact [] sample).1
transact-Invariant_example =
    transact-Invariant memory [] sample memory-IsDynamo (sides [] tt) sample-Invariant

deposit-Booked : Booked "deposit#d0" "h0" first_deposit sample
unfolding write find_entry
deposit-Booked = record {
  guard = deposit_guard;
  guard_row = refl;
  same_hash = refl;
  entry_row = refl;
}

mutate_replay_example :
    ((mutate memory moment (again "h0") (pos 1) [] sample).0 ≡ ok (first_deposit, true))
    × SameBooks (mutate memory moment (again "h0") (pos 1) [] sample).1 sample
unfolding distinct
mutate_replay_example =
    mutate_replay memory moment (again "h0") (pos 1) [] first_deposit sample memory-IsPrompt
      (tt, λ e. tt) refl deposit-Booked

spend-IsFirst : (amount sign : ℤ) → IsFirst memory moment (spend amount) sign [] real_wallet sample
unfolding write find_entry distinct mutation_items conditions booked_entry balance_tx guard_tx
    new_entry entry_sk
spend-IsFirst amount sign = record {
  no_guard = refl;
  wallet_row = refl;
  free_sk = refl;
  once = refl;
  others = refl;
}

debit_spends_example :
    let e = booked_entry memory moment (spend (pos 200)) (negsuc 0) [] real_wallet in
    let (r, db') = debit memory moment (spend (pos 200)) [] sample in
    (r ≡ ok (e, false))
    × MovesBalance "WALLET#1" real_wallet (pos 500 -ℤ pos 200) sample db'
    × (db'.ledger ≡ e ∷ sample.ledger)
debit_spends_example =
    debit_spends memory moment (spend (pos 200)) [] real_wallet sample memory-IsPrompt
      (spend-IsFirst (pos 200) (negsuc 0)) (tt, λ e. tt) (ground arith)

debit_insufficient_example :
    debit memory moment (spend (pos 700)) [] sample ≡ (err (problem insufficient_balance), sample)
debit_insufficient_example =
    debit_insufficient memory moment (spend (pos 700)) [] real_wallet sample memory-IsPrompt
      (spend-IsFirst (pos 700) (negsuc 0)) (ground arith)

-- The state after the spending of 200.
abbrev spent : Db
spent = (mutate memory moment (spend (pos 200)) (negsuc 0) [] sample).1

abbrev spent_entry : LedgerEntry
spent_entry = booked_entry memory moment (spend (pos 200)) (negsuc 0) [] real_wallet

spent_ok :
    mutate memory moment (spend (pos 200)) (negsuc 0) [] sample ≡ (ok (spent_entry, false), spent)
unfolding debit
spent_ok = ap (λ r. (r, spent)) debit_spends_example.0

mutate_books_example : Booked "pay#1" "h1" spent_entry spent
mutate_books_example =
    mutate_books memory moment (spend (pos 200)) (negsuc 0) [] spent_entry sample spent
      memory-IsDynamo (tt, λ e. tt) spent_ok
