-- ===== src/Store/Log.antt =====
-- What the ledger promises, as a specification of its own: a log that is only appended to, where no
-- wallet's sum falls below zero and no key books twice. Every lawful transaction implements it.
use ctech_wallet.Prelude.{
  ◌≡◌, refl, ap, ◌⊎◌, inl, inr, ◌≤◌, true, Option, none, some, List, [], ◌∷◌, ◌++◌, arith, eq_iff,
}
use ctech_wallet.Prelude.Int.{ℤ, pos, ◌≤ℤ◌}
use ctech_wallet.Domain.Model.{LedgerEntry, Wallet}
use ctech_wallet.Store.Tables.{Db, TxItem, Guard, conditions, effect, effects}
use ctech_wallet.Store.Dynamo.{Dynamo, IsDynamo, transact_keeps}
use ctech_wallet.Store.Sound.{Balanced, entries_total, effects_side, new_wallets-IsSound}
use ctech_wallet.Store.Keys.{idem_pk}
use ctech_wallet.Store.Guarded.{keyed, allowed}
use ctech_wallet.Store.Lawful.{
  Invariant, Lawful, sides, movement, wallets, Lawful-Invariant, Closed,
}

-- An entry may be appended where its wallet's sum stays at least zero, and its key is free there.
pub record MayAppend (e : LedgerEntry) (log : List LedgerEntry) : Type 0 where
  pub covered : pos 0 ≤ℤ entries_total e.wallet_id (e ∷ log)
  pub fresh : keyed e.idempotency_key e.wallet_id log ≡ 0

-- The logs that a log grows to.
pub data Appends (a : List LedgerEntry) : List LedgerEntry → Type 0 where
  same : Appends a a
  append :
      {e : LedgerEntry} {b : List LedgerEntry} → Appends a b → MayAppend e b → Appends a (e ∷ b)

pub Appends-added :
    {a b : List LedgerEntry} → Appends a b → (added : List LedgerEntry) × (b ≡ added ++ a)
Appends-added same = ([], refl)
Appends-added (append {e} h may) =
    let (added, eq) = Appends-added h in (e ∷ added, ap (λ l. e ∷ l) eq)

Balanced-nonneg : (o : Option Wallet) (total : ℤ) → Balanced o total → pos 0 ≤ℤ total
Balanced-nonneg none total h = rw h (ground arith)
Balanced-nonneg (some row) total (eq, nonneg) = rw (← eq) nonneg

pub allowed_one : (o : Option Guard) → allowed o ≤ 1
allowed_one none = ground arith
allowed_one (some g) = ground arith

-- An entry that leads to a state where the invariant holds might be appended.
booked-MayAppend :
    (e : LedgerEntry) (log : List LedgerEntry) (db : Db)
    → db.ledger ≡ e ∷ log
    → Invariant db
    → MayAppend e log
unfolding keyed
booked-MayAppend e log db eq inv = record {
  covered = rw (← eq) (Balanced-nonneg (db.wallets e.wallet_id) _ (inv.sound e.wallet_id));
  fresh = ground (
    arith,
    allowed_one (db.guards (idem_pk e.idempotency_key)),
    rw eq at inv.once e.idempotency_key e.wallet_id,
    eq_iff e.idempotency_key e.idempotency_key,
    eq_iff e.wallet_id e.wallet_id,
  );
}

-- What a lawful transaction does to the ledger: nothing, or one entry goes on top.
abbrev Grows : Db → Db → Type 0
Grows a b = (b.ledger ≡ a.ledger) ⊎ ((e : LedgerEntry) × (b.ledger ≡ e ∷ a.ledger))

Lawful-Grows :
    {items : List TxItem} (db : Db)
    → Lawful items
    → conditions items db ≡ true
    → Invariant db
    → Grows db (effects items db)
unfolding effects effect
Lawful-Grows db (sides items side) c inv = inl (effects_side items db side).ledger
Lawful-Grows db (movement id amount sign v now e g rest nonneg at booked link side) c inv =
    inr (e, (effects_side rest _ side).ledger)
Lawful-Grows db (wallets items new) c inv = inl (new_wallets-IsSound items db new inv.sound c).1

Grows-Appends :
    (a : List LedgerEntry) (db s : Db)
    → Grows db s
    → Invariant s
    → Appends a db.ledger
    → Appends a s.ledger
Grows-Appends a db s (inl eq) inv h = rw eq h
Grows-Appends a db s (inr (e, eq)) inv h = rw eq (append h (booked-MayAppend e db.ledger s eq inv))

-- The invariant holds, and the ledger has grown from an earlier one as the log may.
abbrev pub Follows : List LedgerEntry → Db → Type 0
Follows a db = Invariant db × Appends a db.ledger

pub Follows-Closed : (d : Dynamo) (a : List LedgerEntry) → IsDynamo d → Closed d (Follows a)
Follows-Closed d a law items db lawful (inv, log) =
    transact_keeps (Follows a) d law items db (inv, log)
      (λ c.
        let after = Lawful-Invariant db lawful c inv in
        (after, Grows-Appends a db (effects items db) (Lawful-Grows db lawful c inv) after log))
