-- ===== src/Service/Games.antt =====
-- api/internal/services/wallet.go: what the machine-to-machine clients do: sandbox credits and
-- debits, a billing debit, and holds and cash-outs of the real wallet.
pub mod Keeps
pub mod Collect
pub mod Cashout
pub mod Settle
use ctech_wallet.Prelude.{
  String, Bool, true, false, not, ◌||◌, ◌&&◌, ltb, Option, none, some, List, [], ◌∷◌, if◌then◌else◌,
  ◌==◌,
}
use ctech_wallet.Prelude.Int.{ℤ, pos, int64, ◌+ℤ◌, ltb_ℤ}
use ctech_wallet.Prelude.Lists.{length}
use ctech_wallet.Domain.Model.{
  Wallet, LedgerEntry, EntryType, Hold, HoldStatus, User, SelfExclusion,
}
use ctech_wallet.Domain.Responsible.{is_self_excluded}
use ctech_wallet.Store.Problem.{
  gambling_not_activated, self_excluded, not_found, forbidden, bad_request, conflict, problem,
  panicked, Result, ok, err, ◌>>=◌, ◌>>◌, pure, raise, reads,
}
use ctech_wallet.Store.Tables.{same_hold_status}
use ctech_wallet.Ledger.{Mutation, credit, debit}
use ctech_wallet.Wallets.{load_wallets, ensure_real_wallet, ensure_sandbox_wallet}
use ctech_wallet.Holds.{create_hold, release_hold, cashout_holds}
use ctech_wallet.Service.{
  World, Env, on_db, timed, read_clock, acquire_wallet, check_erasure, get_user,
}
use ctech_wallet.Service.Digest.{req_hash, hold_id, entry_key, prefixed, joined}

abbrev pub user_exclusion : Option User → Option SelfExclusion
user_exclusion none = none
user_exclusion (some u) = u.self_exclusion

abbrev pub exclusion_end : Option SelfExclusion → String
exclusion_end none = ""
exclusion_end (some x) = x.until

module _ (env : Env) where
  unfoldable pub real_or_refused :
      Option Wallet × Option Wallet × Option Wallet → World → Result Wallet × World
  real_or_refused (none, game, sandbox) = raise (problem gambling_not_activated)
  real_or_refused (some w, game, sandbox) = pure w

  -- realWallet
  unfoldable pub find_real_wallet : String → World → Result Wallet × World
  unfolding real_or_refused
  find_real_wallet user = do ws ← on_db (load_wallets env.dynamo user); real_or_refused ws

  unfoldable pub balance_or_zero : Option Wallet → ℤ
  balance_or_zero none = pos 0
  balance_or_zero (some w) = w.balance

  -- BalancesFor: the game balance is the real one.
  unfoldable pub balances_for : String → World → Result (ℤ × ℤ) × World
  unfolding balance_or_zero
  balances_for user = do
    (real, game, sandbox) ← on_db (load_wallets env.dynamo user)
    pure (balance_or_zero real, balance_or_zero sandbox)

  unfoldable pub exclusion_answer : Option User → ℤ → World → Result Unit × World
  exclusion_answer u now =
      if is_self_excluded env.calendar u now
      then raise (problem (self_excluded (exclusion_end (user_exclusion u))))
      else pure tt

  unfoldable pub refuse_if_excluded : String → World → Result Unit × World
  unfolding exclusion_answer
  refuse_if_excluded user = do u ← get_user env user; t ← read_clock env; exclusion_answer u t.now

  unfoldable pub move : Bool → Mutation → World → Result (LedgerEntry × Bool) × World
  move true m = timed env (λ t. credit env.dynamo t m [])
  move false m = timed env (λ t. debit env.dynamo t m [])

  unfoldable pub client_mutation :
      Wallet → ℤ → EntryType → String → String → String → String → Mutation
  unfolding entry_key req_hash
  client_mutation w amount type user key reason description = record {
    wallet_id = w.wallet_id;
    amount = amount;
    entry_type = type;
    ref = reason;
    description = description;
    idempotency_key = entry_key type user key;
    req_hash = req_hash env reason amount;
    extra = λ e. [];
  }

  -- The code reads the identifier of a missing wallet through a nil pointer.
  unfoldable pub move_on :
      Option Wallet
      → String
      → ℤ
      → String
      → String
      → String
      → EntryType
      → Bool
      → World
      → Result LedgerEntry × World
  unfolding move client_mutation
  move_on none user amount key reason description type is_credit = raise panicked
  move_on (some w) user amount key reason description type is_credit = do
    acquire_wallet env w.wallet_id
    (entry, replayed) ← move is_credit (client_mutation w amount type user key reason description)
    pure entry

  unfoldable pub sandbox_op :
      String → ℤ → String → String → String → EntryType → Bool → World → Result LedgerEntry × World
  unfolding move_on
  sandbox_op user amount key reason description type is_credit = do
    w ← timed env (λ t. ensure_sandbox_wallet env.dynamo t user)
    move_on w user amount key reason description type is_credit

  unfoldable pub credit_sandbox :
      String → ℤ → String → String → String → World → Result LedgerEntry × World
  unfolding sandbox_op
  credit_sandbox user amount key reason description = do
    check_erasure env user
    sandbox_op user amount key reason description EntryType.game_credit true

  unfoldable pub debit_sandbox :
      String → ℤ → String → String → String → World → Result LedgerEntry × World
  unfolding sandbox_op
  debit_sandbox user amount key reason description = do
    check_erasure env user
    sandbox_op user amount key reason description EntryType.game_debit false

  unfoldable pub debit_real :
      String → ℤ → String → String → String → World → Result LedgerEntry × World
  unfolding move_on
  debit_real user amount key reason description = do
    check_erasure env user
    w ← timed env (λ t. ensure_real_wallet env.dynamo t user)
    move_on w user amount key reason description EntryType.billing_debit false

  unfoldable pub hold_game : String → ℤ → String → String → World → Result (Option Hold) × World
  unfolding find_real_wallet refuse_if_excluded hold_id entry_key req_hash
  hold_game user amount table_ref key = do
    check_erasure env user
    game ← find_real_wallet user
    refuse_if_excluded user
    acquire_wallet env game.wallet_id
    (h, replayed) ← timed env (λ t.
        create_hold env.dynamo t (hold_id user key) game.wallet_id user amount table_ref
          (entry_key EntryType.game_hold_debit user key) (req_hash env table_ref amount))
    pure h

  unfoldable pub get_hold : String → World → Result (Option Hold) × World
  get_hold id = on_db (reads (env.dynamo.get_hold id))

  -- A hold that names another wallet is paid to the user's real one.
  unfoldable pub retarget : String → Hold → Hold
  retarget target h = if h.wallet_id == target then h else record h { wallet_id = target }

  -- The second look, under the lock. A hold that has gone missing is read through a nil pointer.
  unfoldable pub release_locked :
      String → String → Option Hold → World → Result (Option Hold) × World
  unfolding retarget req_hash prefixed
  release_locked target id none = raise panicked
  release_locked target id (some h) =
      if not (same_hold_status h.status HoldStatus.held) then pure (some h) else (do
        (row, replayed) ← timed env (λ t.
            release_hold env.dynamo t (retarget target h) (prefixed "game_hold_release#" id)
              (req_hash env id h.amount))
        pure row)

  unfoldable pub release_to : String → Option Wallet → World → Result (Option Hold) × World
  unfolding release_locked get_hold
  release_to id none = raise panicked
  release_to id (some w) = do
    acquire_wallet env w.wallet_id
    h ← get_hold id
    release_locked w.wallet_id id h

  unfoldable pub release_found :
      String → String → Option Hold → World → Result (Option Hold) × World
  unfolding release_to
  release_found user id none = raise (problem (not_found "hold não encontrado"))
  release_found user id (some h) =
      if not (h.user_id == user)
      then raise (problem (forbidden "hold não pertence ao usuário"))
      else if not (same_hold_status h.status HoldStatus.held)
      then pure (some h)
      else (do w ← timed env (λ t. ensure_real_wallet env.dynamo t user); release_to id w)

  -- ReleaseHold; the client's own key is not used.
  unfoldable pub release_game_hold : String → String → World → Result (Option Hold) × World
  unfolding release_found get_hold
  release_game_hold user id = do h ← get_hold id; release_found user id h

  abbrev pub includes : String → List String → Bool
  includes id [] = false
  includes id (x ∷ xs) = x == id || includes id xs

  unfoldable pub unless_seen : Bool → World → Result Unit × World
  unless_seen true = raise (problem (bad_request "hold duplicado"))
  unless_seen false = pure tt

  -- What a hold that a cash-out names must be.
  unfoldable pub usable : String → String → Option Hold → World → Result Hold × World
  usable user table_ref none = raise (problem (forbidden "hold não pertence ao usuário"))
  usable user table_ref (some h) =
      if not (h.user_id == user)
      then raise (problem (forbidden "hold não pertence ao usuário"))
      else if not (same_hold_status h.status HoldStatus.held) || not (h.table_ref == table_ref)
      then raise (problem (conflict "hold não está disponível para esta liquidação"))
      else pure h

  -- One round of the loop: the hold of an identifier that was not seen before.
  unfoldable pub next_hold : String → String → List String → String → World → Result Hold × World
  unfolding usable get_hold unless_seen
  next_hold user table_ref seen id = do
    unless_seen (includes id seen)
    found ← get_hold id
    usable user table_ref found

  -- The loop over the holds, with the identifiers that were seen and the sum so far.
  unfoldable pub collect :
      String → String → List String → List String → ℤ → World → Result (List Hold × ℤ) × World
  unfolding next_hold
  collect user table_ref [] seen reserved = pure ([], reserved)
  collect user table_ref (id ∷ ids) seen reserved = do
    h ← next_hold user table_ref seen id
    (hs, total) ← collect user table_ref ids (id ∷ seen) (int64 (reserved +ℤ h.amount))
    pure (h ∷ hs, total)

  unfoldable pub consume_holds :
      String
      → String
      → ℤ
      → String
      → List String
      → String
      → String
      → List Hold
      → World
      → Result LedgerEntry × World
  unfolding entry_key req_hash joined
  consume_holds wallet_id user amount table_ref ids key description holds = do
    (e, replayed) ← timed env (λ t.
        cashout_holds env.dynamo t wallet_id user amount table_ref holds
          (entry_key EntryType.game_cashout_credit user key)
          (req_hash env (joined table_ref ids) amount) description)
    pure e

  unfoldable pub settle_holds :
      String
      → String
      → ℤ
      → String
      → List String
      → String
      → String
      → List Hold × ℤ
      → World
      → Result LedgerEntry × World
  unfolding consume_holds
  settle_holds wallet_id user amount table_ref ids key description (holds, reserved) =
      if ltb_ℤ reserved amount
      then raise (problem (bad_request "cashout excede o valor reservado"))
      else consume_holds wallet_id user amount table_ref ids key description holds

  unfoldable pub cashout_locked :
      String
      → String
      → ℤ
      → String
      → List String
      → String
      → String
      → World
      → Result LedgerEntry × World
  unfolding collect settle_holds
  cashout_locked wallet_id user amount table_ref ids key description =
      if ltb 20 (length ids)
      then raise (problem (bad_request "quantidade de holds excede o limite"))
      else (do
        collected ← collect user table_ref ids [] (pos 0)
        settle_holds wallet_id user amount table_ref ids key description collected)

  unfoldable pub cashout_game :
      String → ℤ → String → List String → String → String → World → Result LedgerEntry × World
  unfolding cashout_locked find_real_wallet
  cashout_game user amount table_ref ids key description = do
    game ← find_real_wallet user
    acquire_wallet env game.wallet_id
    cashout_locked game.wallet_id user amount table_ref ids key description
