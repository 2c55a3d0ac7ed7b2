-- ===== src/Holds.antt =====
-- api/internal/repositories/holds.go: reservations against a game wallet. A hold is opened with
-- the debit that funds it, and closed with the credit that returns its value.
pub mod Keeps
pub mod Books
pub mod Lifecycle
pub mod Exact
use ctech_wallet.Prelude.{
  String, Bool, true, false, Option, none, some, List, [], ◌∷◌, ◌++◌, if◌then◌else◌,
}
use ctech_wallet.Prelude.Int.{ℤ, pos, negsuc, int64, ◌+ℤ◌, ◌-ℤ◌}
use ctech_wallet.Domain.Model.{Wallet, LedgerEntry, EntryType, Hold, HoldStatus, version_of}
use ctech_wallet.Store.Problem.{
  insufficient_balance, not_found, problem, condition_failed, outage, panicked, Result, ok, err,
  ◌>>=◌, pure, raise, reads,
}
use ctech_wallet.Store.Tables.{Db, TxItem, put_entry, put_hold, move_hold, same_hold_status}
use ctech_wallet.Store.Dynamo.{Dynamo, Written, done, refused, broken, Moment}
use ctech_wallet.Ledger.{new_entry, balance_tx, guard_tx, transact_write, check_replay, settle}

-- The three items that every movement writes.
unfoldable pub movement_items : Moment → ℤ → ℤ → Wallet → LedgerEntry → String → List TxItem
unfolding balance_tx guard_tx
movement_items t amount sign w e req_hash =
    balance_tx t e.wallet_id amount sign (version_of w.version)
    ∷ put_entry e
    ∷ guard_tx t e.wallet_id e.sk e.idempotency_key req_hash
    ∷ []

module _ (d : Dynamo) where
  -- A hold that was read, as the answer of a replay.
  unfoldable pub replayed_hold : String → Db → Result (Option Hold × Bool) × Db
  replayed_hold id = do h ← reads (d.get_hold id); pure (h, true)

  module _ (t : Moment) (id wallet_id user_id : String) (amount : ℤ)
      (table_ref key hash : String) where
    unfoldable pub opened_hold : Hold
    opened_hold = record {
      hold_id = id;
      wallet_id = wallet_id;
      user_id = user_id;
      amount = amount;
      table_ref = table_ref;
      status = HoldStatus.held;
      idempotency_key = key;
      created_at = t.now_str;
      updated_at = t.now_str;
    }

    unfoldable pub opening_entry : Wallet → LedgerEntry
    unfolding new_entry
    opening_entry w =
        new_entry t wallet_id EntryType.game_hold_debit (int64 (pos 0 -ℤ amount))
          (int64 (w.balance -ℤ amount)) key table_ref ""

    unfoldable pub opening_items : Wallet → List TxItem
    unfolding opening_entry opened_hold movement_items
    opening_items w =
        movement_items t amount (negsuc 0) w (opening_entry w) hash ++ (put_hold opened_hold ∷ [])

    unfoldable pub opening_lost : LedgerEntry × Bool → Db → Result (Option Hold × Bool) × Db
    unfolding replayed_hold
    opening_lost (e, true) = replayed_hold id
    opening_lost (e, false) = raise (problem insufficient_balance)

    unfoldable pub opening_settled : LedgerEntry → Written → Db → Result (Option Hold × Bool) × Db
    unfolding opening_lost
    opening_settled e done = pure (some opened_hold, false)
    opening_settled e w = do r ← settle d key hash (negsuc 0) e w; opening_lost r

    unfoldable pub open_on : Option Wallet → Db → Result (Option Hold × Bool) × Db
    unfolding opening_settled
    open_on none = raise (problem (not_found "carteira não encontrada"))
    open_on (some w) = do
      written ← transact_write d (opening_items w)
      opening_settled (opening_entry w) written

    unfoldable pub open_or_replay : Option LedgerEntry → Db → Result (Option Hold × Bool) × Db
    unfolding open_on
    open_or_replay (some prior) = replayed_hold id
    open_or_replay none = do w ← reads (d.get_wallet wallet_id); open_on w

    -- CreateHold
    unfoldable pub create_hold : Db → Result (Option Hold × Bool) × Db
    unfolding open_or_replay
    create_hold = do prior ← check_replay d key hash; open_or_replay prior

  -- UpdateHoldStatus
  unfoldable pub status_written : Written → Db → Result Bool × Db
  status_written done = pure true
  status_written refused = pure false
  status_written (broken message) = raise (outage message)

  unfoldable pub update_hold_status :
      Moment → String → HoldStatus → HoldStatus → Db → Result Bool × Db
  unfolding status_written
  update_hold_status t id from to = do
    written ← transact_write d (move_hold id from to t.now_str none ∷ [])
    status_written written

  module _ (t : Moment) (h : Hold) (key hash : String) where
    unfoldable pub release_entry : Wallet → LedgerEntry
    unfolding new_entry
    release_entry w =
        new_entry t h.wallet_id EntryType.game_hold_release h.amount (int64 (w.balance +ℤ h.amount))
          key h.table_ref ""

    unfoldable pub release_items : Wallet → List TxItem
    unfolding release_entry movement_items
    release_items w =
        movement_items t h.amount (pos 1) w (release_entry w) hash
        ++ (move_hold h.hold_id HoldStatus.held HoldStatus.released t.now_str none ∷ [])

    -- After a lost race: a hold that is no longer held is a benign replay.
    unfoldable pub release_closed : Option Hold → Db → Result (Option Hold × Bool) × Db
    release_closed none = raise condition_failed
    release_closed (some row) =
        if same_hold_status row.status HoldStatus.held
        then raise condition_failed
        else pure (some row, true)

    unfoldable pub release_unbooked : Db → Result (Option Hold × Bool) × Db
    unfolding release_closed
    release_unbooked = do row ← reads (d.get_hold h.hold_id); release_closed row

    -- A replay check that fails here is passed over.
    unfoldable pub release_lost :
        Result (Option LedgerEntry) → Db → Result (Option Hold × Bool) × Db
    unfolding release_unbooked
    release_lost (ok (some prior)) = replayed_hold h.hold_id
    release_lost (ok none) = release_unbooked
    release_lost (err e) = release_unbooked

    unfoldable pub release_settled : Written → Db → Result (Option Hold × Bool) × Db
    unfolding release_lost
    release_settled done = pure (some (record h { status = HoldStatus.released }), false)
    release_settled (broken message) = raise (outage message)
    release_settled refused = λ db. release_lost (check_replay d key hash db).0 db

    -- The code reads the version of a missing wallet through a nil pointer.
    unfoldable pub release_on : Option Wallet → Db → Result (Option Hold × Bool) × Db
    unfolding release_settled
    release_on none = raise panicked
    release_on (some w) = do written ← transact_write d (release_items w); release_settled written

    unfoldable pub release_or_replay : Option LedgerEntry → Db → Result (Option Hold × Bool) × Db
    unfolding release_on
    release_or_replay (some prior) = replayed_hold h.hold_id
    release_or_replay none = do w ← reads (d.get_wallet h.wallet_id); release_on w

    -- ReleaseHoldAtomic
    unfoldable pub release_hold : Db → Result (Option Hold × Bool) × Db
    unfolding release_or_replay
    release_hold = do prior ← check_replay d key hash; release_or_replay prior

  module _ (t : Moment) (wallet_id user_id : String) (amount : ℤ) (table_ref : String)
      (holds : List Hold) (key hash description : String) where
    unfoldable pub cashout_entry : Wallet → LedgerEntry
    unfolding new_entry
    cashout_entry w =
        new_entry t wallet_id EntryType.game_cashout_credit amount (int64 (w.balance +ℤ amount)) key
          table_ref description

    unfoldable pub settling_items : List Hold → List TxItem
    settling_items [] = []
    settling_items (h ∷ hs) =
        move_hold h.hold_id HoldStatus.held HoldStatus.settled t.now_str (some (user_id, table_ref))
        ∷ settling_items hs

    unfoldable pub cashout_items : Wallet → List TxItem
    unfolding cashout_entry settling_items movement_items
    cashout_items w =
        movement_items t amount (pos 1) w (cashout_entry w) hash ++ settling_items holds

    unfoldable pub cashout_on : Option Wallet → Db → Result (LedgerEntry × Bool) × Db
    cashout_on none = raise panicked
    cashout_on (some w) = do
      written ← transact_write d (cashout_items w)
      settle d key hash (pos 1) (cashout_entry w) written

    unfoldable pub cashout_or_replay : Option LedgerEntry → Db → Result (LedgerEntry × Bool) × Db
    unfolding cashout_on
    cashout_or_replay (some prior) = pure (prior, true)
    cashout_or_replay none = do w ← reads (d.get_wallet wallet_id); cashout_on w

    -- CashoutHoldsAtomic
    unfoldable pub cashout_holds : Db → Result (LedgerEntry × Bool) × Db
    unfolding cashout_or_replay
    cashout_holds = do prior ← check_replay d key hash; cashout_or_replay prior
