-- ===== src/Service/Withdraw/Safety.antt =====
-- A payout leaves only after its debit is booked, and at most one leaves per call.
use ctech_wallet.Prelude.{
  String, ◌≡◌, ◌≢◌, refl, sym, ap, ◌∙◌, ◌⊎◌, inl, inr, Bool, true, false, ◌==◌, ◌&&◌, Option, none,
  some, List, ◌∷◌, Bool-cases, arith, eq_iff,
}
use ctech_wallet.Prelude.Int.{IsMagnitude, ℤ, negsuc, int64, ◌*ℤ◌, eqb_ℤ}
use ctech_wallet.Domain.Model.{
  Wallet, LedgerEntry, EntryType, Withdrawal, RealDailyCounters, kyc_verified,
}
use ctech_wallet.Domain.Limits.{withdrawal_amount_ok}
use ctech_wallet.Domain.Daily.{check_daily_withdraw, effective_daily_limits}
use ctech_wallet.Store.Problem.{bind_keeps, ok, reads}
use ctech_wallet.Store.Tables.{Db}
use ctech_wallet.Store.Dynamo.{Moment, IsDynamo}
use ctech_wallet.Ledger.{debit, booked_entry, new_entry}
use ctech_wallet.Ledger.Replay.{Booked, mutate_new, mutate_books}
use ctech_wallet.Ledger.Grows.{Booked-Closed}
use ctech_wallet.Wallets.{ensure_real_wallet}
use ctech_wallet.Payments.{get_withdrawal, bump_real_daily_counters, withdrawal_put_tx}
use ctech_wallet.Service.{
  World, Env, Kyc, RailCall, paid, on_db, timed, get_user, log_call, acquire_wallet, breach_problem,
  current_counters, counters_of, read_clock,
}
use ctech_wallet.Service.Keeps.{
  ClosedWorld, acquire_wallet-Keeps, get_user-Keeps, breach_problem-Keeps,
}
use ctech_wallet.Service.Digest.{req_hash, withdrawal_id}
use ctech_wallet.Service.Withdraw.{
  withdrawal_row, withdraw_mutation, pay_out, existing_or_busy, debit_items, debit_then_pay, spend,
  limited, checked, fresh_or, withdraw_or_replay, withdraw_from, withdraw,
}
use ctech_wallet.Service.Withdraw.Keeps.{payout_answered-Keeps}

module _ (env : Env) (user : String) (amount : ℤ) (key : String) (calls : List RailCall) where
  -- One payout was asked for, to a CPF that is not empty, and its debit of the amount is booked.
  pub record PaysDebited (cpf : String) (e : LedgerEntry) (w : World) : Type 0 where
    pub call : w.calls ≡ paid cpf amount (env.inter_idem_key (withdrawal_id user key)) ∷ calls
    pub booked : Booked (withdrawal_id user key) (req_hash env cpf amount) e w.db
    pub debited : e.amount ≡ int64 (negsuc 0 *ℤ amount)
    pub type : e.type ≡ EntryType.withdraw
    pub named : cpf ≢ ""

  abbrev pub PaysAtMostOnce : World → Type 0
  PaysAtMostOnce w = (w.calls ≡ calls) ⊎ ((cpf : String) × (e : LedgerEntry) × PaysDebited cpf e w)

  abbrev Quiet : World → Type 0
  Quiet w = w.calls ≡ calls

  replay-Quiet :
      (w : Wallet) (row : Withdrawal) (world : World)
      → Quiet world
      → Quiet (withdraw_or_replay env user amount key w (some row) world).1
  unfolding withdraw_or_replay
  replay-Quiet w row world quiet =
      elim (Bool-cases (row.user_id == user && eqb_ℤ row.amount amount)) [
        | inl same ↦ rw same quiet
        | inr other ↦ rw other quiet
      ]

  module _ (law : IsDynamo env.dynamo) (mag : IsMagnitude amount) where
    PaysDebited-ClosedWorld : (cpf : String) (e : LedgerEntry) → ClosedWorld env (PaysDebited cpf e)
    PaysDebited-ClosedWorld cpf e items w lawful h = record {
      call = h.call;
      booked = Booked-Closed env.dynamo _ _ e law items w.db lawful h.booked;
      debited = h.debited;
      type = h.type;
      named = h.named;
    }

    existing_or_busy_quiet :
        (o : Option Withdrawal) (w : World)
        → w.calls ≡ calls
        → (existing_or_busy env user amount key o w).1.calls ≡ calls
    unfolding existing_or_busy
    existing_or_busy_quiet none w quiet = quiet
    existing_or_busy_quiet (some row) w quiet = quiet

    -- The part after the debit.
    pay_out_once :
        (row : Withdrawal) (e : LedgerEntry) (replayed : Bool) (w : World)
        → row.withdrawal_id ≡ withdrawal_id user key
        → row.amount ≡ amount
        → row.pix_key ≢ ""
        → w.calls ≡ calls
        → (replayed ≡ false
            → Booked (withdrawal_id user key) (req_hash env row.pix_key amount) e w.db
              × (e.amount ≡ int64 (negsuc 0 *ℤ amount))
              × (e.type ≡ EntryType.withdraw))
        → PaysAtMostOnce (pay_out env user amount key row (e, replayed) w).1
    unfolding pay_out on_db get_withdrawal log_call
    pay_out_once row e true w id same named quiet booked =
        bind_keeps PaysAtMostOnce (on_db (get_withdrawal env.dynamo row.withdrawal_id)) _ w
          (inl quiet) (λ o eq. inl (existing_or_busy_quiet o _ quiet))
    pay_out_once row e false w id same named quiet booked =
        let (entry, debited, type) = booked refl in
        let pay_key = env.inter_idem_key row.withdrawal_id in
        let asked =
          log_call (paid row.pix_key amount pay_key) (env.payout row.pix_key amount pay_key) w in
        let before : PaysDebited row.pix_key e asked.1 = record {
          call = rw (sym id, quiet) refl;
          booked = entry;
          debited = debited;
          type = type;
          named = named;
        } in
        inr (
          row.pix_key,
          e,
          payout_answered-Keeps env (PaysDebited row.pix_key e)
              (PaysDebited-ClosedWorld row.pix_key e) user amount key mag row asked.0 same asked.1
              before,
        )

    debit_books :
        (t : Moment) (w : Wallet) (cpf : String) (prev : Option RealDailyCounters) (now : ℤ)
        (t2 : Moment) (e : LedgerEntry) (db : Db)
        → let m = withdraw_mutation env user amount key w cpf in
          let items = debit_items env user amount key t w cpf prev now in
          (debit env.dynamo t2 m items db).0 ≡ ok (e, false)
          → Booked
              (withdrawal_id user key)
              (req_hash env cpf amount)
              e
              (debit env.dynamo t2 m items db).1
            × (e.amount ≡ int64 (negsuc 0 *ℤ amount))
            × (e.type ≡ EntryType.withdraw)
    unfolding debit withdraw_mutation debit_items withdrawal_row bump_real_daily_counters
        withdrawal_put_tx booked_entry new_entry
    debit_books t w cpf prev now t2 e db answered =
        let m = withdraw_mutation env user amount key w cpf in
        let items = debit_items env user amount key t w cpf prev now in
        let db' = (debit env.dynamo t2 m items db).1 in
        let run = ap (λ r. (r, db')) answered in
        let (row, _, same, _, _) = mutate_new env.dynamo t2 m (negsuc 0) items law e db db' run in
        (
          mutate_books env.dynamo t2 m (negsuc 0) items e db db' law ((mag, (tt, tt)), λ x. tt) run,
          ap (λ (x : LedgerEntry). x.amount) same,
          ap (λ (x : LedgerEntry). x.type) same,
        )

    debit_then_pay_once :
        (w : Wallet) (cpf : String) (prev : Option RealDailyCounters) (now : ℤ) (t : Moment)
        (world : World)
        → cpf ≢ ""
        → world.calls ≡ calls
        → PaysAtMostOnce (debit_then_pay env user amount key w cpf prev now t world).1
    unfolding debit_then_pay timed on_db withdrawal_row
    debit_then_pay_once w cpf prev now t world named quiet =
        let t2 = env.clock world in
        let m = withdraw_mutation env user amount key w cpf in
        let items = debit_items env user amount key t w cpf prev now in
        bind_keeps PaysAtMostOnce (timed env (λ t2. debit env.dynamo t2 m items)) _ world
          (inl quiet)
          (λ r eq.
            pay_out_once (withdrawal_row env user amount key t w cpf) r.0 r.1 _ refl refl named
              quiet
              (λ first.
                debit_books t w cpf prev now t2 r.0 world.db (eq ∙ ap (λ b. ok (r.0, b)) first)))

    spend_once :
        (w : Wallet) (prev : Option RealDailyCounters) (now : ℤ) (kyc : Kyc) (world : World)
        → world.calls ≡ calls
        → PaysAtMostOnce (spend env user amount key w prev now kyc world).1
    unfolding spend read_clock
    spend_once w prev now kyc world quiet = elim (Bool-cases (kyc.cpf == "")) [
      | inl empty ↦ rw empty (inl quiet)
      | inr named ↦ rw named (
          debit_then_pay_once w kyc.cpf prev now (env.clock world) world
            (λ same. ground (arith, named, eq_iff kyc.cpf "")) quiet)
    ]

    limited_once :
        (w : Wallet) (prev : Option RealDailyCounters) (world : World)
        → world.calls ≡ calls
        → PaysAtMostOnce (limited env user amount key w prev world).1
    unfolding limited read_clock
    limited_once w prev world quiet =
        let t = env.clock world in
        let breach =
          check_daily_withdraw env.calendar (effective_daily_limits (some w))
            (current_counters prev) amount t.now in
        let q = breach_problem-Keeps Quiet breach world quiet in
        bind_keeps PaysAtMostOnce (breach_problem breach) _ world (inl q) (λ u eq.
          bind_keeps PaysAtMostOnce (reads (env.kyc_get user)) _ (breach_problem breach world).1
            (inl q) (λ kyc eq2. spend_once w prev t.now kyc (breach_problem breach world).1 q))

    checked_once :
        (w : Wallet) (world : World)
        → world.calls ≡ calls
        → PaysAtMostOnce (checked env user amount key w world).1
    unfolding checked
    checked_once w world quiet =
        let ok? = withdrawal_amount_ok amount (some w) (eqb_ℤ amount w.balance) false in
        let q = get_user-Keeps Quiet env user world quiet in
        elim (Bool-cases ok?) [
          | inl good ↦ rw good (
              bind_keeps PaysAtMostOnce (get_user env user) _ world (inl q)
                (λ u eq. limited_once w (counters_of u) (get_user env user world).1 q))
          | inr bad ↦ rw bad (inl quiet)
        ]

    withdraw_or_replay_once :
        (w : Wallet) (o : Option Withdrawal) (world : World)
        → world.calls ≡ calls
        → PaysAtMostOnce (withdraw_or_replay env user amount key w o world).1
    unfolding withdraw_or_replay on_db
    withdraw_or_replay_once w (some row) world quiet = inl (replay-Quiet w row world quiet)
    withdraw_or_replay_once w none world quiet =
        bind_keeps PaysAtMostOnce (on_db (reads (env.dynamo.get_wallet w.wallet_id))) _ world
          (inl quiet) (λ fresh eq. checked_once (fresh_or env user amount key w fresh) world quiet)

    withdraw_from_once :
        (o : Option Wallet) (world : World)
        → world.calls ≡ calls
        → PaysAtMostOnce (withdraw_from env user amount key o world).1
    unfolding withdraw_from on_db get_withdrawal
    withdraw_from_once none world quiet = inl quiet
    withdraw_from_once (some w) world quiet =
        let locked = acquire_wallet env w.wallet_id world in
        let q = acquire_wallet-Keeps Quiet env w.wallet_id world quiet in
        bind_keeps PaysAtMostOnce (acquire_wallet env w.wallet_id) _ world (inl q) (λ u eq.
          bind_keeps PaysAtMostOnce (on_db (get_withdrawal env.dynamo (withdrawal_id user key))) _
            locked.1 (inl q) (λ o eq2. withdraw_or_replay_once w o locked.1 q))

    withdraw_once :
        (kyc_level : String) (world : World)
        → world.calls ≡ calls
        → PaysAtMostOnce (withdraw env user amount key kyc_level world).1
    unfolding withdraw timed on_db
    withdraw_once kyc_level world quiet = elim (Bool-cases (kyc_level == kyc_verified)) [
      | inl good ↦ rw good (
          bind_keeps PaysAtMostOnce (timed env (λ t. ensure_real_wallet env.dynamo t user)) _ world
            (inl quiet) (λ o eq. withdraw_from_once o _ quiet))
      | inr bad ↦ rw bad (inl quiet)
    ]

-- A withdrawal asks the rail for at most one payout, and for none unless its debit is booked: then
-- the payout is of the amount asked, under the withdrawal's key, to a CPF that is not empty, and
-- the ledger holds the withdrawal's entry of minus that amount, under the withdrawal's key with
-- that CPF's request hash. It holds whatever DynamoDB, the KYC service and the rail answer; the
-- amount is an int64 of at least zero.
pub withdraw_pays_debited :
    (env : Env) (user : String) (amount : ℤ) (key kyc_level : String) (w : World)
    → IsDynamo env.dynamo
    → IsMagnitude amount
    → PaysAtMostOnce env user amount key w.calls (withdraw env user amount key kyc_level w).1
withdraw_pays_debited env user amount key kyc_level w law mag =
    withdraw_once env user amount key w.calls law mag kyc_level w refl
