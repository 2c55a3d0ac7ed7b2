-- ===== src/Ledger.antt =====
-- api/internal/repositories/wallet.go: the atomic ledger. Each balance change is one conditional
-- transaction that also writes the ledger entry and the idempotency guard.
pub mod Books
pub mod Replay
pub mod Exact
pub mod Grows
use ctech_wallet.Prelude.{
  String, Bool, true, false, not, Option, none, some, List, [], ◌∷◌, ◌++◌, ◌==◌, if◌then◌else◌,
}
use ctech_wallet.Prelude.Int.{ℤ, pos, negsuc, int64, ◌+ℤ◌, ◌*ℤ◌, ltb_ℤ}
use ctech_wallet.Domain.Model.{Wallet, LedgerEntry, EntryType, DepositStatus, version_of}
use ctech_wallet.Store.Problem.{
  Problem, insufficient_balance, idempotency_conflict, not_found, internal_server, Error, problem,
  outage, Result, ok, err, ◌>>=◌, ◌>>◌, pure, raise, reads,
}
use ctech_wallet.Store.Tables.{
  Db, TxItem, Guard, put_entry, put_guard, update_balance, move_deposit,
}
use ctech_wallet.Store.Dynamo.{Dynamo, Written, done, refused, broken, Moment}
use ctech_wallet.Store.Keys.{idem_pk, entry_sk}

-- Go's nil `Extra` is the function that adds nothing.
pub record Mutation : Type 0 where
  pub wallet_id : String
  pub amount : ℤ
  pub entry_type : EntryType
  pub ref : String
  pub description : String
  pub idempotency_key : String
  pub req_hash : String
  pub extra : LedgerEntry → List TxItem

unfoldable pub new_entry :
    Moment → String → EntryType → ℤ → ℤ → String → String → String → LedgerEntry
new_entry t wallet_id type signed balance_after idem_key ref description = record {
  wallet_id = wallet_id;
  sk = entry_sk t.now_str t.entry_id;
  entry_id = t.entry_id;
  type = type;
  amount = signed;
  balance_after = balance_after;
  idempotency_key = idem_key;
  ref = ref;
  description = description;
  created_at = t.now_str;
}

-- balanceTx, ledgerAndGuardTx and guardTx.
unfoldable pub balance_tx : Moment → String → ℤ → ℤ → ℤ → TxItem
balance_tx t wallet_id amount sign expected_version =
    update_balance wallet_id amount sign expected_version t.now_str

unfoldable pub guard_tx : Moment → String → String → String → String → TxItem
guard_tx t wallet_id sk idem_key req_hash = put_guard (record {
  pk = idem_pk idem_key;
  wallet_id = wallet_id;
  entry_sk = sk;
  req_hash = req_hash;
  created_at = t.now_str;
})

module _ (d : Dynamo) where
  -- TransactWrite: what it answers is a value here, and the code branches on it.
  unfoldable pub transact_write : List TxItem → Db → Result Written × Db
  transact_write items db = let (w, db') = d.transact items db in (ok w, db')

  unfoldable pub same_request : String → Option Guard → Db → Result (Option LedgerEntry) × Db
  same_request req_hash none = pure none
  same_request req_hash (some g) =
      if not (g.req_hash == req_hash)
      then raise (problem idempotency_conflict)
      else reads (d.get_entry g.wallet_id g.entry_sk)

  -- checkReplay: the entry that was booked under the key, or a conflict.
  unfoldable pub check_replay : String → String → Db → Result (Option LedgerEntry) × Db
  unfolding same_request
  check_replay idem_key req_hash = do
    g ← reads (d.get_guard (idem_pk idem_key))
    same_request req_hash g

  unfoldable pub lost_race : ℤ → Option LedgerEntry → Db → Result (LedgerEntry × Bool) × Db
  lost_race sign (some prior) = pure (prior, true)
  lost_race sign none =
      if ltb_ℤ sign (pos 0)
      then raise (problem insufficient_balance)
      else raise (problem (internal_server "transação de crédito falhou na condição"))

  -- The answer of a write, and resolveTxErr where it failed.
  unfoldable pub settle :
      String → String → ℤ → LedgerEntry → Written → Db → Result (LedgerEntry × Bool) × Db
  unfolding lost_race
  settle idem_key req_hash sign entry done = pure (entry, false)
  settle idem_key req_hash sign entry (broken message) = raise (outage message)
  settle idem_key req_hash sign entry refused = do
    prior ← check_replay idem_key req_hash
    lost_race sign prior

  repaired : LedgerEntry → Written → Db → Result (LedgerEntry × Bool) × Db
  repaired prior (broken message) = raise (outage message)
  repaired prior _ = pure (prior, true)

  -- A replay writes the lifecycle items that an older release may have left out.
  repair : LedgerEntry → List TxItem → Db → Result (LedgerEntry × Bool) × Db
  unfolding repaired
  repair prior [] = pure (prior, true)
  repair prior (i ∷ is) = do w ← transact_write (i ∷ is); repaired prior w

  module _ (t : Moment) (m : Mutation) (sign : ℤ) (extra : List TxItem) where
    unfoldable pub booked_entry : Wallet → LedgerEntry
    booked_entry w =
        let signed = int64 (sign *ℤ m.amount) in
        new_entry t m.wallet_id m.entry_type signed (int64 (w.balance +ℤ signed)) m.idempotency_key
          m.ref m.description

    -- The transaction of a mutation.
    unfoldable pub mutation_items : Wallet → List TxItem
    unfolding booked_entry balance_tx guard_tx new_entry
    mutation_items w =
        let entry = booked_entry w in
        (balance_tx t m.wallet_id m.amount sign (version_of w.version)
          ∷ put_entry entry
          ∷ guard_tx t entry.wallet_id entry.sk m.idempotency_key m.req_hash
          ∷ [])
        ++ (extra ++ m.extra entry)

    book : Option Wallet → Db → Result (LedgerEntry × Bool) × Db
    book none = raise (problem (not_found "carteira não encontrada"))
    book (some w) = do
      written ← transact_write (mutation_items w)
      settle m.idempotency_key m.req_hash sign (booked_entry w) written

    replay_or_book : Option LedgerEntry → Db → Result (LedgerEntry × Bool) × Db
    unfolding book repair
    replay_or_book (some prior) = repair prior (extra ++ m.extra prior)
    replay_or_book none = do w ← reads (d.get_wallet m.wallet_id); book w

    unfoldable pub mutate : Db → Result (LedgerEntry × Bool) × Db
    unfolding replay_or_book
    mutate = do prior ← check_replay m.idempotency_key m.req_hash; replay_or_book prior

  unfoldable pub credit : Moment → Mutation → List TxItem → Db → Result (LedgerEntry × Bool) × Db
  unfolding mutate
  credit t m extra = mutate t m (pos 1) extra

  unfoldable pub debit : Moment → Mutation → List TxItem → Db → Result (LedgerEntry × Bool) × Db
  unfolding mutate
  debit t m extra = mutate t m (negsuc 0) extra

  -- FindMutation
  unfoldable pub find_mutation : String → String → Db → Result (Option LedgerEntry) × Db
  unfolding check_replay
  find_mutation idem_key req_hash = check_replay idem_key req_hash

  unfoldable pub confirm_deposit_credit :
      Moment → Mutation → String → String → List TxItem → Db → Result (LedgerEntry × Bool) × Db
  unfolding credit
  confirm_deposit_credit t m txid e2e extra =
      credit t m (move_deposit txid DepositStatus.pending DepositStatus.confirmed e2e ∷ extra)
