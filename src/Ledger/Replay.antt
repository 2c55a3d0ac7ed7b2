-- ===== src/Ledger/Replay.antt =====
-- Idempotency: what a key has booked is answered again and never booked twice.
use ctech_wallet.Prelude.{
  String, ◌≡◌, refl, sym, ◌∙◌, ap, inl, inr, true, false, Bool-cases, Option, none, some, List, [],
  ◌∷◌, ◌++◌, arith, eq_iff,
}
use ctech_wallet.Prelude.Int.{ℤ}
use ctech_wallet.Prelude.Lists.{All, All-append}
use ctech_wallet.Prelude.Table.{write_self}
use ctech_wallet.Domain.Model.{Wallet, LedgerEntry}
use ctech_wallet.Store.Problem.{ok, reads, bind_ok}
use ctech_wallet.Store.Keys.{idem_pk, entry_sk}
use ctech_wallet.Store.Tables.{Db, TxItem, Guard, conditions, effect, effects, distinct, find_entry}
use ctech_wallet.Store.Dynamo.{Dynamo, IsDynamo, IsPrompt, Written, done, refused, broken, Moment}
use ctech_wallet.Store.Sound.{IsSide, SameBooks, SameBooks-self, effects_side}
use ctech_wallet.Store.Guarded.{find_entry_self}
use ctech_wallet.Ledger.{
  Mutation, check_replay, lost_race, settle, repaired, repair, mutation_items, book, replay_or_book,
  mutate, booked_entry, new_entry, guard_tx, balance_tx, transact_write,
}
use ctech_wallet.Ledger.Books.{AddsOnlySide, check_replay_state, mutation_effects}

-- The database holds an entry that a key booked with a request hash.
pub record Booked (key hash : String) (e : LedgerEntry) (db : Db) : Type 0 where
  pub guard : Guard
  pub guard_row : db.guards (idem_pk key) ≡ some guard
  pub same_hash : guard.req_hash ≡ hash
  pub entry_row : find_entry guard.wallet_id guard.entry_sk db.ledger ≡ some e

module _ (d : Dynamo) (prompt : IsPrompt d) (key hash : String) (db : Db) where
  pub check_replay_fresh :
      db.guards (idem_pk key) ≡ none → check_replay d key hash db ≡ (ok none, db)
  unfolding check_replay
  check_replay_fresh h = rw (prompt.guard_read (idem_pk key) db) (rw h)

  pub check_replay-Booked :
      (e : LedgerEntry) → Booked key hash e db → check_replay d key hash db ≡ (ok (some e), db)
  unfolding check_replay
  check_replay-Booked e b = ground (
    arith,
    prompt.guard_read (idem_pk key) db,
    prompt.entry_read b.guard.wallet_id b.guard.entry_sk db,
    b.guard_row,
    b.same_hash,
    b.entry_row,
    eq_iff b.guard.req_hash hash,
  )

module _ (d : Dynamo) (t : Moment) (m : Mutation) (sign : ℤ) (extra : List TxItem) where
  -- A write that answered was applied.
  transact_done :
      (items : List TxItem) (db : Db)
      → IsDynamo d
      → (d.transact items db).0 ≡ done
      → (conditions items db ≡ true) × ((d.transact items db).1 ≡ effects items db)
  transact_done items db law h = elim (law.atomic items db) [
    | inl (_, not_done) ↦ absurd (not_done h)
    | inr (c, applied, _) ↦ (c, applied)
  ]

  lost_race_old :
      (o : Option LedgerEntry) (f : LedgerEntry) (db db' : Db)
      → lost_race d sign o db ≡ (ok (f, false), db')
      → ⊥
  unfolding lost_race
  lost_race_old (some prior) f db db' h = ground arith
  lost_race_old none f db db' h = ground arith

  settle_new :
      (key hash : String) (e f : LedgerEntry) (w : Written) (db db' : Db)
      → settle d key hash sign e w db ≡ (ok (f, false), db')
      → (w ≡ done) × (f ≡ e) × (db' ≡ db)
  unfolding settle lost_race
  settle_new key hash e f done db db' h = ground arith
  settle_new key hash e f (broken message) db db' h = ground arith
  settle_new key hash e f refused db db' h =
      let (o, _, k) = bind_ok (check_replay d key hash) (lost_race d sign) db h in
      absurd (lost_race_old o f (check_replay d key hash db).1 db' k)

  repair_old :
      (prior f : LedgerEntry) (items : List TxItem) (db db' : Db)
      → repair d prior items db ≡ (ok (f, false), db')
      → ⊥
  unfolding repair repaired transact_write
  repair_old prior f [] db db' h = ground arith
  repair_old prior f (i ∷ is) db db' h = ground arith

  -- What a new entry says of the state before and after its mutation.
  abbrev pub NewEntry : LedgerEntry → Db → Db → Type 0
  NewEntry e db db' =
      (w : Wallet) × (db.wallets m.wallet_id ≡ some w)
      × (e ≡ booked_entry d t m sign extra w)
      × (conditions (mutation_items d t m sign extra w) db ≡ true)
      × (db' ≡ effects (mutation_items d t m sign extra w) db)

  module _ (law : IsDynamo d) (e : LedgerEntry) (db db' : Db) where
    book_new :
        (o : Option Wallet)
        → db.wallets m.wallet_id ≡ o
        → book d t m sign extra o db ≡ (ok (e, false), db')
        → NewEntry e db db'
    unfolding book transact_write
    book_new none row h = ground arith
    book_new (some w) row h =
        let items = mutation_items d t m sign extra w in
        let (written, same, after) =
          settle_new m.idempotency_key m.req_hash (booked_entry d t m sign extra w) e
            (d.transact items db).0 (d.transact items db).1 db' h in
        let (c, applied) = transact_done items db law written in (w, row, same, c, after ∙ applied)

    replay_or_book_new :
        (o : Option LedgerEntry)
        → replay_or_book d t m sign extra o db ≡ (ok (e, false), db')
        → NewEntry e db db'
    unfolding replay_or_book
    replay_or_book_new (some prior) h =
        absurd (repair_old prior e (extra ++ m.extra prior) db db' h)
    replay_or_book_new none h =
        let (o, read, k) =
          bind_ok (reads (d.get_wallet m.wallet_id)) (book d t m sign extra) db h in
        book_new o (law.wallet_current m.wallet_id db o read) k

    -- A mutation that answers a new entry read the wallet and applied its transaction.
    pub mutate_new : mutate d t m sign extra db ≡ (ok (e, false), db') → NewEntry e db db'
    unfolding mutate
    mutate_new h =
        let (o, read, k) =
          bind_ok (check_replay d m.idempotency_key m.req_hash) (replay_or_book d t m sign extra) db
            h in
        replay_or_book_new o (rw check_replay_state at k)

  -- A new entry is booked under its key.
  pub mutate_books :
      (e : LedgerEntry) (db db' : Db)
      → IsDynamo d
      → AddsOnlySide d t m sign extra
      → mutate d t m sign extra db ≡ (ok (e, false), db')
      → Booked m.idempotency_key m.req_hash e db'
  unfolding effect guard_tx booked_entry new_entry balance_tx
  mutate_books e db db' law side h =
      let (w, row, same, c, after) = mutate_new law e db db' h in
      let books = mutation_effects d t m sign extra w db side in
      record {
        guard = record {
          pk = idem_pk m.idempotency_key;
          wallet_id = m.wallet_id;
          entry_sk = entry_sk t.now_str t.entry_id;
          req_hash = m.req_hash;
          created_at = t.now_str;
        };
        guard_row = rw (after, books.guards) (write_self _ _ _);
        same_hash = refl;
        entry_row =
            ap (λ (x : Db). find_entry m.wallet_id (entry_sk t.now_str t.entry_id) x.ledger) after
            ∙ ap (find_entry m.wallet_id (entry_sk t.now_str t.entry_id)) books.ledger
            ∙ find_entry_self (booked_entry d t m sign extra w) db.ledger
            ∙ ap some (sym same);
      }

  repair_prompt :
      (prior : LedgerEntry) (items : List TxItem) (db : Db)
      → IsPrompt d
      → All IsSide items
      → distinct items ≡ true
      → ((repair d prior items db).0 ≡ ok (prior, true)) × SameBooks (repair d prior items db).1 db
  unfolding repair repaired transact_write
  repair_prompt prior [] db prompt side u = (refl, SameBooks-self db)
  repair_prompt prior (i ∷ is) db prompt side u = elim (Bool-cases (conditions (i ∷ is) db)) [
    | inl c ↦ rw (prompt.applied (i ∷ is) db u c) (refl, effects_side (i ∷ is) db side)
    | inr c ↦ rw (prompt.rejected (i ∷ is) db u c) (refl, SameBooks-self db)
  ]

  -- A call with a key and a request hash that are booked answers the booked entry, and changes
  -- neither a wallet, nor the ledger, nor a guard: whatever else the call asks for. DynamoDB answers
  -- every call, and the call's further items name no row twice.
  pub mutate_replay :
      (e : LedgerEntry) (db : Db)
      → IsPrompt d
      → AddsOnlySide d t m sign extra
      → distinct (extra ++ m.extra e) ≡ true
      → Booked m.idempotency_key m.req_hash e db
      → ((mutate d t m sign extra db).0 ≡ ok (e, true))
        × SameBooks (mutate d t m sign extra db).1 db
  unfolding mutate replay_or_book
  mutate_replay e db prompt side u b =
      rw (check_replay-Booked d prompt m.idempotency_key m.req_hash db e b) (
        repair_prompt e (extra ++ m.extra e) db prompt
          (All-append IsSide extra (m.extra e) side.0 (side.1 e)) u)
