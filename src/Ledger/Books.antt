-- ===== src/Ledger/Books.antt =====
-- Every repository mutation keeps the books, whatever DynamoDB answers.
use ctech_wallet.Prelude.{
  String, ◌≡◌, refl, ◌∙◌, ◌⊎◌, inl, inr, Option, none, some, List, [], ◌∷◌, ◌++◌, arith,
}
use ctech_wallet.Prelude.Int.{IsMagnitude, ℤ, pos, negsuc, int64, int64_in_range, ◌-ℤ◌, ◌*ℤ◌, ltb_ℤ}
use ctech_wallet.Prelude.Lists.{All, All-append}
use ctech_wallet.Domain.Model.{Wallet, LedgerEntry, version_of}
use ctech_wallet.Store.Problem.{bind_keeps, reads}
use ctech_wallet.Store.Tables.{Db, TxItem, effect, effects, put_entry}
use ctech_wallet.Store.Dynamo.{Dynamo, IsDynamo, Written, Moment}
use ctech_wallet.Store.Sound.{IsSide, delta, SameBooks, effects_side}
use ctech_wallet.Store.Keys.{entry_sk}
use ctech_wallet.Store.Lawful.{Lawful, sides, movement, Invariant, Invariant-Closed, Closed}
use ctech_wallet.Ledger.{
  balance_tx, guard_tx, Mutation, check_replay, settle, repaired, repair, mutation_items, book,
  replay_or_book, mutate, booked_entry, transact_write,
}

abbrev pub IsSign : ℤ → Type 0
IsSign sign = (sign ≡ pos 1) ⊎ (sign ≡ negsuc 0)

-- The signed amount of the entry is what the balance moves by.
signed_exact :
    (amount sign : ℤ)
    → IsMagnitude amount
    → IsSign sign
    → int64 (sign *ℤ amount) ≡ delta amount sign
unfolding ◌*ℤ◌ ltb_ℤ ◌-ℤ◌
signed_exact amount sign h s = elim s [
  | inl p ↦ rw p (int64_in_range _ (ground arith) ∙ ground arith)
  | inr p ↦ rw p (int64_in_range _ (ground arith) ∙ ground arith)
]

module _ (d : Dynamo) where
  pub check_replay_state : (key hash : String) (db : Db) → (check_replay d key hash db).1 ≡ db
  unfolding check_replay
  check_replay_state key hash db = ground arith

  pub settle_state :
      (key hash : String) (sign : ℤ) (e : LedgerEntry) (w : Written) (db : Db)
      → (settle d key hash sign e w db).1 ≡ db
  unfolding settle
  settle_state key hash sign e w db = ground (arith, check_replay_state key hash db)

  repaired_state : (prior : LedgerEntry) (w : Written) (db : Db) → (repaired d prior w db).1 ≡ db
  unfolding repaired
  repaired_state prior w db = ground arith

  module _ (t : Moment) (m : Mutation) (sign : ℤ) (extra : List TxItem) where
    -- The items that a caller adds write neither wallets, nor the ledger, nor guards.
    abbrev pub AddsOnlySide : Type 0
    AddsOnlySide = All IsSide extra × ((e : LedgerEntry) → All IsSide (m.extra e))

    mutation_items-Lawful :
        (w : Wallet)
        → IsMagnitude m.amount
        → IsSign sign
        → AddsOnlySide
        → Lawful (mutation_items d t m sign extra w)
    unfolding mutation_items
    mutation_items-Lawful w mag s side =
        let e = booked_entry d t m sign extra w in
        movement m.wallet_id m.amount sign (version_of w.version) t.now_str e _ (extra ++ m.extra e)
          mag.0 refl (signed_exact m.amount sign mag s) (refl, refl, refl)
          (All-append IsSide extra (m.extra e) side.0 (side.1 e))

    -- The state after a mutation, as far as the books go.
    abbrev pub mutation_base : Wallet → Db → Db
    mutation_base w db =
        let e = booked_entry d t m sign extra w in
        effect (guard_tx t m.wallet_id (entry_sk t.now_str t.entry_id) m.idempotency_key m.req_hash)
          (effect (put_entry e)
            (effect (balance_tx t m.wallet_id m.amount sign (version_of w.version)) db))

    pub mutation_effects :
        (w : Wallet) (db : Db)
        → AddsOnlySide
        → SameBooks (effects (mutation_items d t m sign extra w) db) (mutation_base w db)
    unfolding mutation_items effects
    mutation_effects w db side =
        let e = booked_entry d t m sign extra w in
        effects_side (extra ++ m.extra e) (mutation_base w db)
          (All-append IsSide extra (m.extra e) side.0 (side.1 e))

    module _ (P : Db → Type 0) (closed : Closed d P) (mag : IsMagnitude m.amount) (s : IsSign sign)
        (side : AddsOnlySide) where
      book_keeps : (o : Option Wallet) (db : Db) → P db → P (book d t m sign extra o db).1
      unfolding book transact_write
      book_keeps none db inv = inv
      book_keeps (some w) db inv =
          rw (settle_state m.idempotency_key m.req_hash sign (booked_entry d t m sign extra w) _ _)
            (closed _ db (mutation_items-Lawful w mag s side) inv)

      repair_keeps :
          (prior : LedgerEntry) (items : List TxItem) (db : Db)
          → All IsSide items
          → P db
          → P (repair d prior items db).1
      unfolding repair transact_write repaired
      repair_keeps prior [] db h inv = inv
      repair_keeps prior (i ∷ is) db h inv =
          rw (repaired_state prior _ _) (closed (i ∷ is) db (sides (i ∷ is) h) inv)

      replay_or_book_keeps :
          (o : Option LedgerEntry) (db : Db) → P db → P (replay_or_book d t m sign extra o db).1
      unfolding replay_or_book
      replay_or_book_keeps (some prior) db inv =
          repair_keeps prior (extra ++ m.extra prior) db
            (All-append IsSide extra (m.extra prior) side.0 (side.1 prior)) inv
      replay_or_book_keeps none db inv =
          bind_keeps P (reads (d.get_wallet m.wallet_id)) (book d t m sign extra) db inv
            (λ o e. book_keeps o db inv)

      pub mutate_keeps : (db : Db) → P db → P (mutate d t m sign extra db).1
      unfolding mutate
      mutate_keeps db inv =
          bind_keeps P (check_replay d m.idempotency_key m.req_hash)
            (replay_or_book d t m sign extra) db (rw check_replay_state inv)
            (λ o e. rw check_replay_state (replay_or_book_keeps o db inv))

    -- A mutation by an int64 amount of at least zero, with items that leave wallets, the ledger and
    -- guards alone, keeps the invariant whatever DynamoDB answers: each balance is the sum of its
    -- entries and not negative, a key has at most one entry on a wallet and none without a guard,
    -- and a guard leads to an entry of its key.
    pub mutate-Invariant :
        (db : Db)
        → IsDynamo d
        → IsMagnitude m.amount
        → IsSign sign
        → AddsOnlySide
        → Invariant db
        → Invariant (mutate d t m sign extra db).1
    mutate-Invariant db law mag s side inv =
        mutate_keeps Invariant (Invariant-Closed d law) mag s side db inv
