-- ===== src/Store/Guarded.antt =====
-- Each idempotency key books at most once, and a guard leads to the entry that it guards.
use ctech_wallet.Prelude.{
  String, ◌≡◌, sym, ◌∙◌, ℕ, suc, ◌≤◌, true, Option, none, some, List, [], ◌∷◌, arith, if◌then◌else◌,
  ◌==◌, eq_iff, ◌&&◌, Bool-cases, inl, inr,
}
use ctech_wallet.Prelude.Table.{write}
use ctech_wallet.Domain.Model.{LedgerEntry}
use ctech_wallet.Store.Keys.{idem_pk, idem_pk-injective}
use ctech_wallet.Store.Tables.{Db, Guard, put_entry, put_guard, find_entry, condition, effect}

-- How many entries a wallet has under an idempotency key.
unfoldable pub keyed : String → String → List LedgerEntry → ℕ
keyed key w [] = 0
keyed key w (e ∷ es) =
    let rest = keyed key w es in
    if e.idempotency_key == key && e.wallet_id == w then suc rest else rest

abbrev pub allowed : Option Guard → ℕ
allowed none = 0
allowed (some g) = 1

-- No entry without its guard, and at most one to a wallet with it.
abbrev pub IsOnce : Db → Type 0
IsOnce db = (key w : String) → keyed key w db.ledger ≤ allowed (db.guards (idem_pk key))

-- The guard's row leads to an entry that was booked under its key.
abbrev pub LeadsToEntry : Option Guard → String → List LedgerEntry → Type 0
LeadsToEntry none pk ledger = Unit
LeadsToEntry (some g) pk ledger =
    (e : LedgerEntry) × (find_entry g.wallet_id g.entry_sk ledger ≡ some e)
    × (idem_pk e.idempotency_key ≡ pk)

abbrev pub IsGuarded : Db → Type 0
IsGuarded db = (pk : String) → LeadsToEntry (db.guards pk) pk db.ledger

-- The guard written with an entry.
abbrev pub GuardsEntry : Guard → LedgerEntry → Type 0
GuardsEntry g e =
    (g.pk ≡ idem_pk e.idempotency_key) × (g.wallet_id ≡ e.wallet_id) × (g.entry_sk ≡ e.sk)

find_entry_kept :
    (pk sk : String) (e f : LedgerEntry) (ledger : List LedgerEntry)
    → find_entry e.wallet_id e.sk ledger ≡ none
    → find_entry pk sk ledger ≡ some f
    → find_entry pk sk (e ∷ ledger) ≡ some f
unfolding find_entry
find_entry_kept pk sk e f ledger fresh found = ground (arith, eq_iff e.wallet_id pk, eq_iff e.sk sk)

pub find_entry_self :
    (e : LedgerEntry) (ledger : List LedgerEntry)
    → find_entry e.wallet_id e.sk (e ∷ ledger) ≡ some e
unfolding find_entry
find_entry_self e ledger = ground (arith, eq_iff e.wallet_id e.wallet_id, eq_iff e.sk e.sk)

module _ (e : LedgerEntry) (g : Guard) (db : Db) (link : GuardsEntry g e) where
  pub booking-IsOnce :
      IsOnce db
      → condition (put_guard g) db ≡ true
      → IsOnce (effect (put_guard g) (effect (put_entry e) db))
  unfolding condition effect keyed write
  booking-IsOnce once c key w = ground (
    arith,
    once key w,
    eq_iff e.idempotency_key key,
    eq_iff g.pk (idem_pk key),
    idem_pk-injective e.idempotency_key key,
  )

  LeadsToEntry-kept :
      (pk : String) (o : Option Guard)
      → find_entry e.wallet_id e.sk db.ledger ≡ none
      → LeadsToEntry o pk db.ledger
      → LeadsToEntry o pk (e ∷ db.ledger)
  LeadsToEntry-kept pk none fresh h = tt
  LeadsToEntry-kept pk (some k) fresh (f, found, key) =
      (f, find_entry_kept k.wallet_id k.entry_sk e f db.ledger fresh found, key)

  pub booking-IsGuarded :
      IsGuarded db
      → condition (put_entry e) db ≡ true
      → IsGuarded (effect (put_guard g) (effect (put_entry e) db))
  unfolding condition effect write
  booking-IsGuarded guarded c pk = elim (Bool-cases (g.pk == pk)) [
    | inl same ↦
        rw same (
          e,
          rw (link.1, link.2) (find_entry_self e db.ledger),
          sym link.0 ∙ (eq_iff g.pk pk).0 same,
        )
    | inr other ↦ rw other (LeadsToEntry-kept pk (db.guards pk) (ground arith) (guarded pk))
  ]
