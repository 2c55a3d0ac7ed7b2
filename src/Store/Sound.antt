-- ===== src/Store/Sound.antt =====
-- The books balance: every wallet's balance is the sum of its ledger entries, and not negative.
use ctech_wallet.Prelude.{
  String, ◌≡◌, refl, ◌∙◌, true, Option, none, some, List, [], ◌∷◌, arith, if◌then◌else◌, ◌==◌,
  eq_iff,
}
use ctech_wallet.Prelude.Int.{
  IsMagnitude, ℤ, pos, ◌+ℤ◌, ◌-ℤ◌, ◌≤ℤ◌, ltb_ℤ, int_laws, ltb_ℤ_iff, leb_ℤ_iff,
}
use ctech_wallet.Prelude.Table.{write}
use ctech_wallet.Prelude.Lists.{All}
use ctech_wallet.Domain.Model.{Wallet, LedgerEntry}
use ctech_wallet.Store.Tables.{
  Db, TxItem, put_wallet, put_entry, put_guard, put_marker, put_hold, put_withdrawal,
  update_balance, balance_condition, condition, conditions, effect, effects, moved,
}

-- The sum of a wallet's ledger entries.
unfoldable pub entries_total : String → List LedgerEntry → ℤ
entries_total w [] = pos 0
entries_total w (e ∷ es) =
    if e.wallet_id == w then e.amount +ℤ entries_total w es else entries_total w es

abbrev pub Balanced : Option Wallet → ℤ → Type 0
Balanced none total = total ≡ pos 0
Balanced (some row) total = (row.balance ≡ total) × (pos 0 ≤ℤ row.balance)

abbrev pub IsSound : Db → Type 0
IsSound db = (w : String) → Balanced (db.wallets w) (entries_total w db.ledger)

-- What a balance update adds to the balance.
abbrev pub delta : ℤ → ℤ → ℤ
delta amount sign = if ltb_ℤ sign (pos 0) then pos 0 -ℤ amount else amount

-- An entry and the balance update that it records, together, keep the books.
pub movement-IsSound :
    (id : String) (amount sign v : ℤ) (now : String) (e : LedgerEntry) (db : Db)
    → IsSound db
    → condition (update_balance id amount sign v now) db ≡ true
    → pos 0 ≤ℤ amount
    → e.wallet_id ≡ id
    → e.amount ≡ delta amount sign
    → IsSound (effect (put_entry e) (effect (update_balance id amount sign v now) db))
unfolding condition effect balance_condition moved entries_total write
movement-IsSound id amount sign v now e db sound c nonneg at booked w = grind (
  int_laws,
  sound w,
  sound id,
  eq_iff e.wallet_id w,
  eq_iff id w,
  ltb_ℤ_iff sign (pos 0),
  leb_ℤ_iff amount,
)

-- A new wallet has no balance, under a key that has no entries.
put_wallet-IsSound :
    (row : Wallet) (db : Db)
    → IsSound db
    → entries_total row.wallet_id db.ledger ≡ pos 0
    → row.balance ≡ pos 0
    → IsSound (effect (put_wallet row) db)
unfolding effect write
put_wallet-IsSound row db sound c zero_balance w = grind (arith, sound w, eq_iff row.wallet_id w)

-- An item that writes neither wallets, nor the ledger, nor guards, and puts holds and withdrawals
-- of int64 amounts of at least zero.
abbrev pub IsSide : TxItem → Type 0
IsSide (put_wallet w) = ⊥
IsSide (put_entry e) = ⊥
IsSide (put_guard g) = ⊥
IsSide (update_balance id amount sign v now) = ⊥
IsSide (put_hold h) = IsMagnitude h.amount
IsSide (put_withdrawal w) = IsMagnitude w.amount
IsSide _ = Unit

-- Two states with the same wallets, ledger and guards.
pub record SameBooks (a b : Db) : Type 0 where
  pub wallets : a.wallets ≡ b.wallets
  pub ledger : a.ledger ≡ b.ledger
  pub guards : a.guards ≡ b.guards

pub SameBooks-self : (a : Db) → SameBooks a a
SameBooks-self a = record { wallets = refl; ledger = refl; guards = refl }

effect_side : (i : TxItem) (db : Db) → IsSide i → SameBooks (effect i db) db
unfolding effect
effect_side (put_wallet w) db h = elim h [ ]
effect_side (put_entry e) db h = elim h [ ]
effect_side (put_guard g) db h = elim h [ ]
effect_side (update_balance id amount sign v now) db h = elim h [ ]
effect_side _ db h = record { wallets = refl; ledger = refl; guards = refl }

pub effects_side :
    (items : List TxItem) (db : Db) → All IsSide items → SameBooks (effects items db) db
unfolding effects
effects_side [] db h = record { wallets = refl; ledger = refl; guards = refl }
effects_side (i ∷ is) db (h, hs) =
    let first = effect_side i db h in
    let rest = effects_side is (effect i db) hs in
    record {
      wallets = rest.wallets ∙ first.wallets;
      ledger = rest.ledger ∙ first.ledger;
      guards = rest.guards ∙ first.guards;
    }

-- A row of a new wallet, or of its marker.
abbrev pub IsNewWallet : TxItem → Type 0
IsNewWallet (put_wallet w) = w.balance ≡ pos 0
IsNewWallet (put_marker m) = Unit
IsNewWallet _ = ⊥

abbrev HasNoEntries : List LedgerEntry → TxItem → Type 0
HasNoEntries ledger (put_wallet w) = entries_total w.wallet_id ledger ≡ pos 0
HasNoEntries ledger _ = Unit

absent_HasNoEntries :
    (i : TxItem) (db : Db)
    → IsNewWallet i
    → IsSound db
    → condition i db ≡ true
    → HasNoEntries db.ledger i
unfolding condition
absent_HasNoEntries (put_wallet w) db new sound c = ground (arith, sound w.wallet_id)
absent_HasNoEntries (put_marker m) db new sound c = tt
absent_HasNoEntries _ db new sound c = elim new [ ]

All-HasNoEntries :
    (items : List TxItem) (db : Db)
    → All IsNewWallet items
    → IsSound db
    → conditions items db ≡ true
    → All (HasNoEntries db.ledger) items
unfolding conditions
All-HasNoEntries [] db new sound c = tt
All-HasNoEntries (i ∷ is) db (n, new) sound c = (
  absent_HasNoEntries i db n sound (ground arith),
  All-HasNoEntries is db new sound (ground arith),
)

-- The items of new wallets keep the books, and touch neither the ledger nor the guards.
new_wallet_effect :
    (i : TxItem) (db : Db)
    → IsNewWallet i
    → HasNoEntries db.ledger i
    → IsSound db
    → IsSound (effect i db)
      × ((effect i db).ledger ≡ db.ledger)
      × ((effect i db).guards ≡ db.guards)
unfolding effect
new_wallet_effect (put_wallet w) db new h sound = (put_wallet-IsSound w db sound h new, refl, refl)
new_wallet_effect (put_marker m) db new h sound = (sound, refl, refl)
new_wallet_effect _ db new h sound = elim new [ ]

new_wallet_effects :
    (items : List TxItem) (db : Db)
    → All IsNewWallet items
    → All (HasNoEntries db.ledger) items
    → IsSound db
    → IsSound (effects items db)
      × ((effects items db).ledger ≡ db.ledger)
      × ((effects items db).guards ≡ db.guards)
unfolding effects
new_wallet_effects [] db new h sound = (sound, refl, refl)
new_wallet_effects (i ∷ is) db (n, new) (h, hs) sound =
    let (sound', ledger, guards) = new_wallet_effect i db n h sound in
    let (sound'', ledger', guards') =
      new_wallet_effects is (effect i db) new (rw ledger hs) sound' in
    (sound'', ledger' ∙ ledger, guards' ∙ guards)

pub new_wallets-IsSound :
    (items : List TxItem) (db : Db)
    → All IsNewWallet items
    → IsSound db
    → conditions items db ≡ true
    → IsSound (effects items db)
      × ((effects items db).ledger ≡ db.ledger)
      × ((effects items db).guards ≡ db.guards)
new_wallets-IsSound items db new sound c =
    new_wallet_effects items db new (All-HasNoEntries items db new sound c) sound
