-- ===== src/Ledger/Exact.antt =====
-- What a credit and a debit do when DynamoDB answers: the balance moves by exactly the amount, or
-- the debit is refused and nothing changes.
use ctech_wallet.Prelude.{
  String, ◌≡◌, refl, ◌∙◌, ◌≢◌, inl, inr, true, false, none, some, List, ◌∷◌, ◌++◌, arith,
  Option-cases,
}
use ctech_wallet.Prelude.Int.{ℤ, pos, negsuc, ◌+ℤ◌, ◌-ℤ◌, ◌≤ℤ◌, ◌<ℤ◌, leb_ℤ_iff, ltb_ℤ, eqb_ℤ_iff}
use ctech_wallet.Prelude.Table.{write, write_self, write_ne}
use ctech_wallet.Domain.Model.{Wallet, version_of}
use ctech_wallet.Store.Problem.{ok, err, problem, insufficient_balance}
use ctech_wallet.Store.Keys.{idem_pk, entry_sk}
use ctech_wallet.Store.Tables.{
  Db, TxItem, adjust-some, condition, conditions, balance_condition, moved, effect, effects,
  distinct, find_entry, version_matches,
}
use ctech_wallet.Store.Dynamo.{Dynamo, IsPrompt, Moment}
use ctech_wallet.Ledger.{
  Mutation, settle, lost_race, mutation_items, book, replay_or_book, mutate, booked_entry,
  new_entry, guard_tx, balance_tx, transact_write, debit, credit,
}
use ctech_wallet.Ledger.Books.{AddsOnlySide, mutation_effects}
use ctech_wallet.Ledger.Replay.{check_replay_fresh}

pub version_self : (w : Wallet) → version_matches w.version (version_of w.version) ≡ true
version_self w = elim (Option-cases w.version) [
  | inl e ↦ rw e refl
  | inr (v, e) ↦ rw e ((eqb_ℤ_iff v v).1 refl)
]

module _ (d : Dynamo) (t : Moment) (m : Mutation) (sign : ℤ) (extra : List TxItem) where
  -- The state a first call finds: no guard under its key, its wallet, and a free sort key.
  pub record IsFirst (w : Wallet) (db : Db) : Type 0 where
    pub no_guard : db.guards (idem_pk m.idempotency_key) ≡ none
    pub wallet_row : db.wallets m.wallet_id ≡ some w
    pub free_sk : find_entry m.wallet_id (entry_sk t.now_str t.entry_id) db.ledger ≡ none
    pub once : distinct (mutation_items d t m sign extra w) ≡ true
    pub others : conditions (extra ++ m.extra (booked_entry d t m sign extra w)) db ≡ true

  module _ (prompt : IsPrompt d) (w : Wallet) (db : Db) (first : IsFirst w db) where
    mutate_first : mutate d t m sign extra db ≡ book d t m sign extra (some w) db
    unfolding mutate replay_or_book
    mutate_first =
        rw (check_replay_fresh d prompt m.idempotency_key m.req_hash db first.no_guard)
          (rw (prompt.wallet_read m.wallet_id db) (rw first.wallet_row))

    first_conditions :
        balance_condition (some w) m.amount sign (version_of w.version) ≡ true
        → conditions (mutation_items d t m sign extra w) db ≡ true
    unfolding mutation_items conditions condition balance_tx guard_tx booked_entry new_entry
    first_conditions c = rw (first.wallet_row, c, first.free_sk, first.no_guard) first.others

    pub mutate_applied :
        balance_condition (some w) m.amount sign (version_of w.version) ≡ true
        → mutate d t m sign extra db ≡ (
          ok (booked_entry d t m sign extra w, false),
          effects (mutation_items d t m sign extra w) db,
        )
    unfolding book transact_write settle
    mutate_applied c = rw (mutate_first, prompt.applied _ db first.once (first_conditions c))

    -- The refusal of a first call whose condition on the balance fails.
    pub mutate_refused :
        balance_condition (some w) m.amount sign (version_of w.version) ≡ false
        → mutate d t m sign extra db ≡ lost_race d sign none db
    unfolding book transact_write settle mutation_items conditions condition balance_tx guard_tx
        booked_entry new_entry
    mutate_refused c =
        let items = mutation_items d t m sign extra w in
        let fails : conditions items db ≡ false = rw (first.wallet_row, c) refl in
        rw (mutate_first, prompt.rejected items db first.once fails)
          (rw (check_replay_fresh d prompt m.idempotency_key m.req_hash db first.no_guard))

    -- The wallets and the ledger after a mutation that was applied.
    pub applied_wallets :
        AddsOnlySide d t m sign extra
        → ((effects (mutation_items d t m sign extra w) db).wallets
            ≡ write m.wallet_id (moved m.amount sign t.now_str w) db.wallets)
          × ((effects (mutation_items d t m sign extra w) db).ledger
              ≡ booked_entry d t m sign extra w ∷ db.ledger)
    unfolding effect balance_tx guard_tx
    applied_wallets side =
        let books = mutation_effects d t m sign extra w db side in
        (books.wallets ∙ adjust-some m.wallet_id _ db.wallets first.wallet_row, books.ledger)

-- A wallet's row after its balance moved, and all other rows as they were.
abbrev pub MovesBalance : String → Wallet → ℤ → Db → Db → Type 0
MovesBalance id w balance db db' =
    (w' : Wallet) × (db'.wallets id ≡ some w')
    × (w'.balance ≡ balance)
    × ((j : String) → id ≢ j → db'.wallets j ≡ db.wallets j)

pub moved_row :
    (id : String) (amount sign balance : ℤ) (now : String) (w : Wallet) (db db' : Db)
    → db'.wallets ≡ write id (moved amount sign now w) db.wallets
    → (moved amount sign now w).balance ≡ balance
    → MovesBalance id w balance db db'
moved_row id amount sign balance now w db db' e b = (
  moved amount sign now w,
  rw e (write_self id (moved amount sign now w) db.wallets),
  b,
  λ j ne. rw e (write_ne id j (moved amount sign now w) db.wallets ne),
)

module _ (d : Dynamo) (t : Moment) (m : Mutation) (extra : List TxItem) (w : Wallet) (db : Db) where
  -- The first debit of a key, of no more than the balance, answers its entry, lowers the balance by
  -- exactly the amount, leaves every other wallet, and puts the one entry on the ledger. DynamoDB
  -- answers every call, the further items' conditions hold, and they leave wallets and ledger alone.
  pub debit_spends :
      IsPrompt d
      → IsFirst d t m (negsuc 0) extra w db
      → AddsOnlySide d t m (negsuc 0) extra
      → m.amount ≤ℤ w.balance
      → let e = booked_entry d t m (negsuc 0) extra w in
        let (r, db') = debit d t m extra db in
        (r ≡ ok (e, false))
        × MovesBalance m.wallet_id w (w.balance -ℤ m.amount) db db'
        × (db'.ledger ≡ e ∷ db.ledger)
  unfolding debit balance_condition moved ltb_ℤ
  debit_spends prompt first side covered =
      let c : balance_condition (some w) m.amount (negsuc 0) (version_of w.version) ≡ true =
        rw (version_self w) ((leb_ℤ_iff m.amount w.balance).1 covered) in
      let (wallets, ledger) = applied_wallets d t m (negsuc 0) extra prompt w db first side in
      rw (mutate_applied d t m (negsuc 0) extra prompt w db first c) (
        refl,
        moved_row m.wallet_id m.amount (negsuc 0) _ t.now_str w db
            (effects (mutation_items d t m (negsuc 0) extra w) db) wallets refl,
        ledger,
      )

  -- Where DynamoDB answers every call and no read is stale, a debit of more than the balance is refused
  -- as insufficient, and nothing changes, if its key has no guard yet, its entry's sort key is free,
  -- and its further items have their conditions met and name no row twice.
  pub debit_insufficient :
      IsPrompt d
      → IsFirst d t m (negsuc 0) extra w db
      → w.balance <ℤ m.amount
      → debit d t m extra db ≡ (err (problem insufficient_balance), db)
  unfolding debit balance_condition lost_race ltb_ℤ
  debit_insufficient prompt first short =
      let c : balance_condition (some w) m.amount (negsuc 0) (version_of w.version) ≡ false =
        ground (arith, leb_ℤ_iff m.amount w.balance) in
      rw (mutate_refused d t m (negsuc 0) extra prompt w db first c)

  -- The first credit of a key answers its entry and raises the balance by exactly the amount.
  pub credit_adds :
      IsPrompt d
      → IsFirst d t m (pos 1) extra w db
      → AddsOnlySide d t m (pos 1) extra
      → let e = booked_entry d t m (pos 1) extra w in
        let (r, db') = credit d t m extra db in
        (r ≡ ok (e, false))
        × MovesBalance m.wallet_id w (w.balance +ℤ m.amount) db db'
        × (db'.ledger ≡ e ∷ db.ledger)
  unfolding credit balance_condition moved ltb_ℤ
  credit_adds prompt first side =
      let c : balance_condition (some w) m.amount (pos 1) (version_of w.version) ≡ true =
        rw (version_self w) in
      let (wallets, ledger) = applied_wallets d t m (pos 1) extra prompt w db first side in
      rw (mutate_applied d t m (pos 1) extra prompt w db first c) (
        refl,
        moved_row m.wallet_id m.amount (pos 1) _ t.now_str w db
            (effects (mutation_items d t m (pos 1) extra w) db) wallets refl,
        ledger,
      )
