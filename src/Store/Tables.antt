-- ===== src/Store/Tables.antt =====
-- The tables of api/internal/repositories, and the items of a TransactWriteItems call: for each
-- the condition expression and the update expression that the code builds. A table is a function
-- from its key, and the ledger is a list of its rows.
use ctech_wallet.Prelude.{
  String, ◌≡◌, Bool, true, false, not, ◌&&◌, ◌||◌, ℕ, nat_eq, Option, none, some, List, [], ◌∷◌,
  ◌==◌, if◌then◌else◌,
}
use ctech_wallet.Prelude.Int.{ℤ, pos, ◌+ℤ◌, ◌-ℤ◌, ltb_ℤ, leb_ℤ, eqb_ℤ}
use ctech_wallet.Prelude.Table.{Table, write, has}
use ctech_wallet.Domain.Model.{
  WalletType, Wallet, LedgerEntry, PixDeposit, Withdrawal, Hold, HoldStatus, DepositStatus,
  WithdrawStatus, RealDailyCounters, User, version_of,
}

-- The idempotency guard of a ledger write, under "IDEM#" and its key.
pub record Guard : Type 0 where
  pub pk : String
  pub wallet_id : String
  pub entry_sk : String
  pub req_hash : String
  pub created_at : String

-- The uniqueness marker of a user's wallet of one type.
pub record Marker : Type 0 where
  pub pk : String
  pub wallet_id : String
  pub type : WalletType
  pub created_at : String

pub record Db : Type 0 where
  pub wallets : Table Wallet
  pub markers : Table Marker
  pub ledger : List LedgerEntry
  pub guards : Table Guard
  pub holds : Table Hold
  pub deposits : Table PixDeposit
  pub withdrawals : Table Withdrawal
  pub users : Table User

pub data TxItem : Type 0 where
  put_wallet : Wallet → TxItem
  put_marker : Marker → TxItem
  put_entry : LedgerEntry → TxItem
  put_guard : Guard → TxItem
  put_hold : Hold → TxItem
  put_deposit : PixDeposit → TxItem
  put_withdrawal : Withdrawal → TxItem
  -- wallet, amount, sign, expected version, now
  update_balance : String → ℤ → ℤ → ℤ → String → TxItem
  -- hold, from, to, now, and the owner and table that a cash-out also requires
  move_hold : String → HoldStatus → HoldStatus → String → Option (String × String) → TxItem
  -- deposit, from, to, end-to-end id
  move_deposit : String → DepositStatus → DepositStatus → String → TxItem
  set_deposit_status : String → DepositStatus → String → TxItem
  set_deposit_payer : String → String → String → TxItem
  -- withdrawal, now: to reversed, unless it is reversed
  reverse_withdrawal : String → String → TxItem
  -- withdrawal, status, end-to-end id if it is written, now
  set_withdrawal : String → WithdrawStatus → Option String → String → TxItem
  -- user, the counters that must stand there, the new counters
  bump_daily : String → Option RealDailyCounters → RealDailyCounters → TxItem

abbrev pub same_hold_status : HoldStatus → HoldStatus → Bool
same_hold_status HoldStatus.held HoldStatus.held = true
same_hold_status HoldStatus.released HoldStatus.released = true
same_hold_status HoldStatus.settled HoldStatus.settled = true
same_hold_status _ _ = false

abbrev pub same_deposit_status : DepositStatus → DepositStatus → Bool
same_deposit_status DepositStatus.pending DepositStatus.pending = true
same_deposit_status DepositStatus.confirmed DepositStatus.confirmed = true
same_deposit_status DepositStatus.rejected_cpf DepositStatus.rejected_cpf = true
same_deposit_status DepositStatus.refund_pending DepositStatus.refund_pending = true
same_deposit_status DepositStatus.expired DepositStatus.expired = true
same_deposit_status DepositStatus.refunded DepositStatus.refunded = true
same_deposit_status DepositStatus.refund_failed DepositStatus.refund_failed = true
same_deposit_status _ _ = false

abbrev pub is_reversed : WithdrawStatus → Bool
is_reversed WithdrawStatus.reversed = true
is_reversed _ = false

abbrev pub same_counters : Option RealDailyCounters → Option RealDailyCounters → Bool
same_counters none none = true
same_counters (some a) (some b) =
    a.day_key == b.day_key
    && eqb_ℤ a.deposit_sum b.deposit_sum
    && eqb_ℤ a.withdraw_sum b.withdraw_sum
    && eqb_ℤ a.withdraw_count b.withdraw_count
same_counters _ _ = false

abbrev pub daily_of : Option User → Option RealDailyCounters
daily_of none = none
daily_of (some u) = u.real_daily_counters

-- "attribute_not_exists(version) OR version = :version"
abbrev pub version_matches : Option ℤ → ℤ → Bool
version_matches none v = true
version_matches (some u) v = eqb_ℤ u v

-- A debit also requires "balance >= :amt".
unfoldable pub balance_condition : Option Wallet → ℤ → ℤ → ℤ → Bool
balance_condition none amount sign v = false
balance_condition (some w) amount sign v =
    version_matches w.version v && (if ltb_ℤ sign (pos 0) then leb_ℤ amount w.balance else true)

hold_condition : Option Hold → HoldStatus → Option (String × String) → Bool
hold_condition none from owner = false
hold_condition (some h) from none = same_hold_status h.status from
hold_condition (some h) from (some (user, table)) =
    same_hold_status h.status from && h.user_id == user && h.table_ref == table

deposit_condition : Option PixDeposit → DepositStatus → Bool
deposit_condition none from = false
deposit_condition (some d) from = same_deposit_status d.status from

reversal_condition : Option Withdrawal → Bool
reversal_condition none = true
reversal_condition (some w) = not (is_reversed w.status)

-- The ledger row under a partition key and a sort key.
unfoldable pub find_entry : String → String → List LedgerEntry → Option LedgerEntry
find_entry pk sk [] = none
find_entry pk sk (e ∷ es) = if e.wallet_id == pk && e.sk == sk then some e else find_entry pk sk es

unfoldable pub condition : TxItem → Db → Bool
unfolding hold_condition deposit_condition reversal_condition
condition (put_wallet w) db = not (has (db.wallets w.wallet_id))
condition (put_marker m) db = not (has (db.markers m.pk))
condition (put_entry e) db = not (has (find_entry e.wallet_id e.sk db.ledger))
condition (put_guard g) db = not (has (db.guards g.pk))
condition (put_hold h) db = not (has (db.holds h.hold_id))
condition (put_deposit d) db = not (has (db.deposits d.txid))
condition (put_withdrawal w) db = not (has (db.withdrawals w.withdrawal_id))
condition (update_balance id amount sign v now) db = balance_condition (db.wallets id) amount sign v
condition (move_hold id from to now owner) db = hold_condition (db.holds id) from owner
condition (move_deposit txid from to e2e) db = deposit_condition (db.deposits txid) from
condition (set_deposit_status txid status e2e) db = true
condition (set_deposit_payer txid cpf name) db = true
condition (reverse_withdrawal id now) db = reversal_condition (db.withdrawals id)
condition (set_withdrawal id status e2e now) db = true
condition (bump_daily user prev next) db = same_counters (daily_of (db.users user)) prev

-- An update of a row that is absent leaves the table alone: no caller relies on more.
abbrev pub adjust : {V : Type 0} → String → (V → V) → Table V → Table V
adjust k f t = elim (t k) [ none ↦ t | some v ↦ write k (f v) t ]

pub adjust-some :
    {V : Type 0} (k : String) (f : V → V) (t : Table V) {v : V}
    → t k ≡ some v
    → adjust k f t ≡ write k (f v) t
adjust-some k f t h = rw (h, adjust)

-- "SET balance = balance ± :amt, version = if_not_exists(version, :zero) + :one"
unfoldable pub moved : ℤ → ℤ → String → Wallet → Wallet
moved amount sign now w = record w {
  balance = if ltb_ℤ sign (pos 0) then w.balance -ℤ amount else w.balance +ℤ amount;
  version = some (version_of w.version +ℤ pos 1);
  updated_at = now;
}

bumped : String → RealDailyCounters → Option User → User
bumped user next none = record {
  user_id = user;
  terms_addendum_version = "";
  gambling_addendum_version = "";
  self_exclusion = none;
  game_limits = none;
  game_deposit_counters = none;
  real_daily_counters = some next;
}
bumped user next (some u) = record u { real_daily_counters = some next }

e2e_or : Option String → String → String
e2e_or none old = old
e2e_or (some new) old = new

unfoldable pub effect : TxItem → Db → Db
unfolding bumped e2e_or
effect (put_wallet w) db = record db { wallets = write w.wallet_id w db.wallets }
effect (put_marker m) db = record db { markers = write m.pk m db.markers }
effect (put_entry e) db = record db { ledger = e ∷ db.ledger }
effect (put_guard g) db = record db { guards = write g.pk g db.guards }
effect (put_hold h) db = record db { holds = write h.hold_id h db.holds }
effect (put_deposit d) db = record db { deposits = write d.txid d db.deposits }
effect (put_withdrawal w) db = record db { withdrawals = write w.withdrawal_id w db.withdrawals }
effect (update_balance id amount sign v now) db = record db {
  wallets = adjust id (moved amount sign now) db.wallets;
}
effect (move_hold id from to now owner) db = record db {
  holds = adjust id (λ h. record h { status = to; updated_at = now }) db.holds;
}
effect (move_deposit txid from to e2e) db = record db {
  deposits = adjust txid (λ d. record d { status = to; e2e_id = e2e }) db.deposits;
}
effect (set_deposit_status txid to e2e) db = record db {
  deposits = adjust txid (λ d. record d { status = to; e2e_id = e2e }) db.deposits;
}
effect (set_deposit_payer txid cpf name) db = record db {
  deposits = adjust txid (λ d. record d { payer_cpf = cpf; payer_name = name }) db.deposits;
}
effect (reverse_withdrawal id now) db = record db {
  withdrawals =
      adjust id (λ w. record w { status = WithdrawStatus.reversed; updated_at = now })
        db.withdrawals;
}
effect (set_withdrawal id status e2e now) db = record db {
  withdrawals =
      adjust id (λ w. record w { status = status; e2e_id = e2e_or e2e w.e2e_id; updated_at = now })
        db.withdrawals;
}
effect (bump_daily user prev next) db = record db {
  users = write user (bumped user next (db.users user)) db.users;
}

-- All conditions are tested on the state before the call.
unfoldable pub conditions : List TxItem → Db → Bool
conditions [] db = true
conditions (i ∷ is) db = condition i db && conditions is db

unfoldable pub effects : List TxItem → Db → Db
effects [] db = db
effects (i ∷ is) db = effects is (effect i db)

-- The row that an item writes: its table, key and sort key. A transaction names a row once.
abbrev target : TxItem → ℕ × String × String
target (put_wallet w) = (0, w.wallet_id, "")
target (update_balance id amount sign v now) = (0, id, "")
target (put_marker m) = (0, m.pk, "")
target (put_entry e) = (1, e.wallet_id, e.sk)
target (put_guard g) = (2, g.pk, "")
target (put_hold h) = (3, h.hold_id, "")
target (move_hold id from to now owner) = (3, id, "")
target (put_deposit d) = (4, d.txid, "")
target (move_deposit txid from to e2e) = (4, txid, "")
target (set_deposit_status txid status e2e) = (4, txid, "")
target (set_deposit_payer txid cpf name) = (4, txid, "")
target (put_withdrawal w) = (5, w.withdrawal_id, "")
target (reverse_withdrawal id now) = (5, id, "")
target (set_withdrawal id status e2e now) = (5, id, "")
target (bump_daily user prev next) = (6, user, "")

abbrev same_target : ℕ × String × String → ℕ × String × String → Bool
same_target (t, k, s) (t', k', s') = nat_eq t t' && k == k' && s == s'

abbrev names_target : ℕ × String × String → List TxItem → Bool
names_target t [] = false
names_target t (i ∷ is) = same_target t (target i) || names_target t is

unfoldable pub distinct : List TxItem → Bool
distinct [] = true
distinct (i ∷ is) = not (names_target (target i) is) && distinct is
