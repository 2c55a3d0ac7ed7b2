-- ===== src/Store/Lawful.antt =====
-- The transactions that the code builds, by their shape, and that each keeps the invariant of the
-- ledger: the books balance, a key books at most once, and a guard leads to its entry.
use ctech_wallet.Prelude.{String, ◌≡◌, ◌∙◌, true, List, ◌∷◌, arith}
use ctech_wallet.Prelude.Int.{ℤ, pos, ◌≤ℤ◌}
use ctech_wallet.Prelude.Lists.{All}
use ctech_wallet.Domain.Model.{LedgerEntry}
use ctech_wallet.Store.Tables.{
  Db, TxItem, Guard, put_entry, put_guard, update_balance, condition, conditions, effect, effects,
}
use ctech_wallet.Store.Dynamo.{Dynamo, IsDynamo, transact_keeps}
use ctech_wallet.Store.Sound.{
  IsSound, IsSide, IsNewWallet, SameBooks, delta, movement-IsSound, effects_side,
  new_wallets-IsSound,
}
use ctech_wallet.Store.Guarded.{IsOnce, IsGuarded, GuardsEntry, booking-IsOnce, booking-IsGuarded}

-- What holds of the database between any two calls.
pub record Invariant (db : Db) : Type 0 where
  pub sound : IsSound db
  pub once : IsOnce db
  pub guarded : IsGuarded db

pub data Lawful : List TxItem → Type 0 where
  -- Rows beside the ledger.
  sides : (items : List TxItem) → All IsSide items → Lawful items
  -- One balance moves, with its entry and guard, and rows beside the ledger.
  movement :
      (id : String) (amount sign v : ℤ) (now : String) (e : LedgerEntry) (g : Guard)
      (rest : List TxItem)
      → pos 0 ≤ℤ amount
      → e.wallet_id ≡ id
      → e.amount ≡ delta amount sign
      → GuardsEntry g e
      → All IsSide rest
      → Lawful (update_balance id amount sign v now ∷ put_entry e ∷ put_guard g ∷ rest)
  -- New wallets with their markers.
  wallets : (items : List TxItem) → All IsNewWallet items → Lawful items

pub SameBooks-trans : (a b c : Db) → SameBooks a b → SameBooks b c → SameBooks a c
SameBooks-trans a b c p q = record {
  wallets = p.wallets ∙ q.wallets;
  ledger = p.ledger ∙ q.ledger;
  guards = p.guards ∙ q.guards;
}

pub SameBooks-Invariant : (a b : Db) → SameBooks a b → Invariant b → Invariant a
SameBooks-Invariant a b same inv = record {
  sound = λ w. rw (same.wallets, same.ledger) (inv.sound w);
  once = λ key w. rw (same.ledger, same.guards) (inv.once key w);
  guarded = λ pk. rw (same.ledger, same.guards) (inv.guarded pk);
}

sides-Invariant :
    (items : List TxItem) (db : Db) → All IsSide items → Invariant db → Invariant (effects items db)
sides-Invariant items db side inv =
    SameBooks-Invariant (effects items db) db (effects_side items db side) inv

movement-Invariant :
    (id : String) (amount sign v : ℤ) (now : String) (e : LedgerEntry) (g : Guard)
    (rest : List TxItem) (db : Db)
    → pos 0 ≤ℤ amount
    → e.wallet_id ≡ id
    → e.amount ≡ delta amount sign
    → GuardsEntry g e
    → All IsSide rest
    → conditions (update_balance id amount sign v now ∷ put_entry e ∷ put_guard g ∷ rest) db ≡ true
    → Invariant db
    → Invariant
        (effects (update_balance id amount sign v now ∷ put_entry e ∷ put_guard g ∷ rest) db)
unfolding conditions effects effect condition
movement-Invariant id amount sign v now e g rest db nonneg at booked link side c inv =
    let moved_db = effect (update_balance id amount sign v now) db in
    sides-Invariant rest (effect (put_guard g) (effect (put_entry e) moved_db)) side (record {
      sound = movement-IsSound id amount sign v now e db inv.sound (ground arith) nonneg at booked;
      once = booking-IsOnce e g moved_db link inv.once (ground arith);
      guarded = booking-IsGuarded e g moved_db link inv.guarded (ground arith);
    })

wallets-Invariant :
    (items : List TxItem) (db : Db)
    → All IsNewWallet items
    → conditions items db ≡ true
    → Invariant db
    → Invariant (effects items db)
wallets-Invariant items db new c inv =
    let (sound, ledger, guards) = new_wallets-IsSound items db new inv.sound c in
    record {
      sound = sound;
      once = λ key w. rw (ledger, guards) (inv.once key w);
      guarded = λ pk. rw (ledger, guards) (inv.guarded pk);
    }

pub Lawful-Invariant :
    {items : List TxItem} (db : Db)
    → Lawful items
    → conditions items db ≡ true
    → Invariant db
    → Invariant (effects items db)
Lawful-Invariant db (sides items side) c inv = sides-Invariant items db side inv
Lawful-Invariant db (movement id amount sign v now e g rest nonneg at booked link side) c inv =
    movement-Invariant id amount sign v now e g rest db nonneg at booked link side c inv
Lawful-Invariant db (wallets items new) c inv = wallets-Invariant items db new c inv

-- Whatever DynamoDB answers to a lawful transaction, the invariant holds afterwards: also when it
-- fails without saying whether the transaction was applied.
pub transact-Invariant :
    (d : Dynamo) (items : List TxItem) (db : Db)
    → IsDynamo d
    → Lawful items
    → Invariant db
    → Invariant (d.transact items db).1
transact-Invariant d items db law lawful inv =
    transact_keeps Invariant d law items db inv (λ c. Lawful-Invariant db lawful c inv)

-- A property of the state that every lawful transaction keeps, whatever DynamoDB answers to it.
abbrev pub Closed : Dynamo → (Db → Type 0) → Type 0
Closed d P = (items : List TxItem) (db : Db) → Lawful items → P db → P (d.transact items db).1

pub Invariant-Closed : (d : Dynamo) → IsDynamo d → Closed d Invariant
Invariant-Closed d law items db lawful inv = transact-Invariant d items db law lawful inv

-- Rows beside the ledger leave the books alone, whatever DynamoDB answers.
pub transact-SameBooks :
    (d : Dynamo) (law : IsDynamo d) (items : List TxItem) (db a : Db)
    → All IsSide items
    → SameBooks db a
    → SameBooks (d.transact items db).1 a
transact-SameBooks d law items db a side same =
    transact_keeps (λ b. SameBooks b a) d law items db same
      (λ c. SameBooks-trans (effects items db) db a (effects_side items db side) same)

pub pair-Closed :
    (d : Dynamo) (P Q : Db → Type 0) → Closed d P → Closed d Q → Closed d (λ db. P db × Q db)
pair-Closed d P Q closed closed2 items db lawful (p, q) =
    (closed items db lawful p, closed2 items db lawful q)
