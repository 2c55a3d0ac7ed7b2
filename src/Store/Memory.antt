-- ===== src/Store/Memory.antt =====
-- DynamoDB as a value: tables in memory, which answer every call. It shows that the laws hold
-- together, and runs the examples.
use ctech_wallet.Prelude.{refl, List, [], arith, if◌then◌else◌}
use ctech_wallet.Prelude.Table.{empty}
use ctech_wallet.Store.Problem.{ok}
use ctech_wallet.Store.Tables.{Db, TxItem, conditions, effects, distinct, find_entry}
use ctech_wallet.Store.Dynamo.{Dynamo, Written, done, refused, broken, IsDynamo, IsPrompt}

abbrev memory_transact : List TxItem → Db → Written × Db
memory_transact items db =
    if distinct items
    then (if conditions items db then (done, effects items db) else (refused, db))
    else (broken "duplicate", db)

abbrev pub memory : Dynamo
memory = record {
  transact = memory_transact;
  get_wallet = λ k db. ok (db.wallets k);
  get_marker = λ k db. ok (db.markers k);
  get_guard = λ k db. ok (db.guards k);
  get_entry = λ pk sk db. ok (find_entry pk sk db.ledger);
  get_hold = λ k db. ok (db.holds k);
  get_deposit = λ k db. ok (db.deposits k);
  get_withdrawal = λ k db. ok (db.withdrawals k);
  get_user = λ k db. ok (db.users k);
}

abbrev pub empty_db : Db
empty_db = record {
  wallets = empty;
  markers = empty;
  ledger = [];
  guards = empty;
  holds = empty;
  deposits = empty;
  withdrawals = empty;
  users = empty;
}

pub memory-IsDynamo : IsDynamo memory
memory-IsDynamo = record {
  atomic = λ items db. ground arith;
  wallet_current = λ k db o h. ground arith;
  user_current = λ k db o h. ground arith;
  withdrawal_current = λ k db o h. ground arith;
  guard_seen = λ k db g h. ground arith;
  entry_seen = λ pk sk db e h. ground arith;
}

pub memory-IsPrompt : IsPrompt memory
memory-IsPrompt = record {
  applied = λ items db u h. rw (u, h);
  rejected = λ items db u h. rw (u, h);
  wallet_read = λ k db. refl;
  marker_read = λ k db. refl;
  guard_read = λ k db. refl;
  entry_read = λ pk sk db. refl;
  hold_read = λ k db. refl;
  deposit_read = λ k db. refl;
  withdrawal_read = λ k db. refl;
  user_read = λ k db. refl;
}
