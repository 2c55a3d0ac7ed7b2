-- ===== src/Ledger/Grows.antt =====
-- The ledger and its guards only grow: what is booked under a key stays booked, whatever is written
-- later.
use ctech_wallet.Prelude.{String, ◌≡◌, true, some, List, [], ◌∷◌, arith, eq_iff}
use ctech_wallet.Prelude.Table.{write}
use ctech_wallet.Domain.Model.{LedgerEntry}
use ctech_wallet.Store.Tables.{
  Db, TxItem, Guard, put_entry, put_guard, condition, conditions, effect, effects, find_entry,
}
use ctech_wallet.Store.Dynamo.{Dynamo, IsDynamo, transact_keeps}
use ctech_wallet.Store.Lawful.{Closed}
use ctech_wallet.Ledger.Replay.{Booked}

-- Every guard and every ledger row of the first state stands in the second.
pub record Extends (a b : Db) : Type 0 where
  pub guards : (k : String) (g : Guard) → a.guards k ≡ some g → b.guards k ≡ some g
  pub entries :
      (pk sk : String) (e : LedgerEntry)
      → find_entry pk sk a.ledger ≡ some e
      → find_entry pk sk b.ledger ≡ some e

pub Extends-self : (a : Db) → Extends a a
Extends-self a = record { guards = λ k g h. h; entries = λ pk sk e h. h }

effect-Extends :
    (i : TxItem) (db s : Db) → condition i db ≡ true → Extends db s → Extends db (effect i s)
unfolding condition effect write find_entry
effect-Extends (put_guard g) db s c ext = record {
  guards = λ k h found. ground (arith, ext.guards k h found, eq_iff g.pk k);
  entries = ext.entries;
}
effect-Extends (put_entry f) db s c ext = record {
  guards = ext.guards;
  entries = λ pk sk e found.
      ground (arith, ext.entries pk sk e found, eq_iff f.wallet_id pk, eq_iff f.sk sk);
}
effect-Extends _ db s c ext = record { guards = ext.guards; entries = ext.entries }

pub effects-Extends :
    (items : List TxItem) (db s : Db)
    → conditions items db ≡ true
    → Extends db s
    → Extends db (effects items s)
unfolding conditions effects
effects-Extends [] db s c ext = ext
effects-Extends (i ∷ is) db s c ext =
    effects-Extends is db (effect i s) (ground arith) (effect-Extends i db s (ground arith) ext)

-- A write extends the ledger and the guards, whatever it asks for and whatever DynamoDB answers.
pub transact-Extends :
    (d : Dynamo) (items : List TxItem) (db : Db) → IsDynamo d → Extends db (d.transact items db).1
transact-Extends d items db law =
    transact_keeps (Extends db) d law items db (Extends-self db)
      (λ c. effects-Extends items db db c (Extends-self db))

pub Booked-Extends :
    (key hash : String) (e : LedgerEntry) (a b : Db)
    → Extends a b
    → Booked key hash e a
    → Booked key hash e b
Booked-Extends key hash e a b ext booked = record {
  guard = booked.guard;
  guard_row = ext.guards _ booked.guard booked.guard_row;
  same_hash = booked.same_hash;
  entry_row = ext.entries _ _ e booked.entry_row;
}

-- A booked entry stays booked.
pub Booked-Closed :
    (d : Dynamo) (key hash : String) (e : LedgerEntry) → IsDynamo d → Closed d (Booked key hash e)
Booked-Closed d key hash e law items db lawful booked =
    Booked-Extends key hash e db _ (transact-Extends d items db law) booked
