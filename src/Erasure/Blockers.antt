-- ===== src/Erasure/Blockers.antt =====
-- api/internal/services/erasure.go: what stops a user's data from being erased.
use ctech_wallet.Prelude.{
  String, Bool, true, false, not, ◌&&◌, ◌||◌, ◌==◌, ℕ, ◌+◌, ◌/◌, leb, ltb, Option, none, some, List,
  [], ◌∷◌, ◌++◌, if◌then◌else◌,
}
use ctech_wallet.Prelude.Int.{ℤ, pos, negsuc, int64, ◌+ℤ◌, ◌-ℤ◌, ltb_ℤ, leb_ℤ, eqb_ℤ}
use ctech_wallet.Prelude.Lists.{length}
use ctech_wallet.Domain.Model.{
  Wallet, WalletType, PixDeposit, DepositStatus, Withdrawal, WithdrawStatus, Hold,
}
use ctech_wallet.Domain.Daily.{DailyLimits, effective_daily_limits}
use ctech_wallet.Store.Problem.{Result, ok, ◌>>=◌, pure, reads}
use ctech_wallet.Store.Tables.{same_deposit_status}
use ctech_wallet.Wallets.{load_wallets}
use ctech_wallet.Service.{Charge, ChargeStatus, completed}
use ctech_wallet.Service.Initiate.{deposit_ttl}
use ctech_wallet.Erasure.{Vault, Sources, Purchase, open_holds_for_user}

-- The codes, each with its details.
pub data Blocker : Type 0 where
  -- wallet type, amount, whether the wallet's page is linked, and for the real wallet the daily cap
  -- and count of withdrawals and the days needed
  balance_nonzero : WalletType → ℤ → Bool → Option (ℤ × ℤ × ℤ) → Blocker
  hold_open deposit_pending withdrawal_pending purchase_pending : ℕ → Blocker
  -- payable, paid without a credit, not asked
  deposit_quarantined : ℕ → ℕ → ℕ → Blocker

-- Go's division, which truncates.
abbrev quot_ℤ : ℤ → ℤ → ℤ
quot_ℤ (pos a) (pos b) = pos (a / b)
quot_ℤ (pos a) (negsuc b) = pos 0 -ℤ pos (a / (b + 1))
quot_ℤ (negsuc a) (pos b) = pos 0 -ℤ pos ((a + 1) / b)
quot_ℤ (negsuc a) (negsuc b) = pos ((a + 1) / (b + 1))

-- How many groups of the size hold the amount, as the code rounds up.
abbrev rounded_up : ℤ → ℤ → ℤ
rounded_up amount size = quot_ℤ (int64 (int64 (amount +ℤ size) -ℤ pos 1)) size

-- withdrawDaysNeeded
unfoldable pub withdraw_days_needed : ℤ → DailyLimits → ℤ
withdraw_days_needed balance lim =
    if leb_ℤ balance (pos 0) || leb_ℤ lim.withdraw_cap (pos 0) || leb_ℤ lim.withdraw_count (pos 0)
    then pos 0
    else rounded_up (rounded_up balance lim.withdraw_cap) lim.withdraw_count

abbrev real_details : WalletType → Wallet → Option (ℤ × ℤ × ℤ)
real_details WalletType.real w =
    let lim = effective_daily_limits (some w) in
    some (lim.withdraw_cap, lim.withdraw_count, withdraw_days_needed w.balance lim)
real_details _ w = none

-- DepositChargeValidity, ten minutes in nanoseconds.
abbrev pub charge_validity : ℤ
charge_validity = pos 600000000000

abbrev pub max_deposit_checks : ℕ
max_deposit_checks = 10

unfoldable pub is_deposit_pending : PixDeposit → Bool
is_deposit_pending d =
    same_deposit_status d.status DepositStatus.refund_pending
    || same_deposit_status d.status DepositStatus.rejected_cpf
    || same_deposit_status d.status DepositStatus.refund_failed

abbrev pub is_withdraw_status_pending : WithdrawStatus → Bool
is_withdraw_status_pending WithdrawStatus.processing = true
is_withdraw_status_pending WithdrawStatus.refund_fail = true
is_withdraw_status_pending _ = false

unfoldable pub is_withdrawal_pending : Withdrawal → Bool
is_withdrawal_pending w = is_withdraw_status_pending w.status

-- countIn
unfoldable pub count_in : {A : Type 0} → (A → Bool) → List A → ℕ
count_in test [] = 0
count_in test (a ∷ more) = let rest = count_in test more in if test a then rest + 1 else rest

-- An optional blocker before the others.
abbrev pub counted : (ℕ → Blocker) → ℕ → List Blocker
counted blocker n = if ltb 0 n then blocker n ∷ [] else []

abbrev pub after_or : Bool → ℤ → Option ℤ → Bool
after_or unread limit none = unread
after_or unread limit (some created) = ltb_ℤ limit created

-- payable, paid, unchecked
abbrev pub Checks : Type 0
Checks = ℕ × ℕ × ℕ

unfoldable pub quarantined : Checks → List Blocker
quarantined (payable, paid, unchecked) =
    if ltb 0 (payable + paid + unchecked)
    then deposit_quarantined payable paid unchecked ∷ []
    else []

abbrev pub is_completed_charge : ChargeStatus → Bool
is_completed_charge completed = true
is_completed_charge _ = false

unfoldable pub count_paid : Checks → Charge → Checks
count_paid (payable, paid, unchecked) c =
    if is_completed_charge c.status
    then (payable, paid + 1, unchecked)
    else (payable, paid, unchecked)

module _ (s : Sources) where
  unfoldable pub wallet_blocker : Option Wallet → List Blocker
  unfolding withdraw_days_needed
  wallet_blocker none = []
  wallet_blocker (some w) =
      if eqb_ℤ w.balance (pos 0)
      then []
      else balance_nonzero w.type w.balance (not (s.wallet_url == "")) (real_details w.type w) ∷ []

  -- One old pending row: asked about, while the bound on questions allows it.
  unfoldable pub ask_paid :
      PixDeposit → Checks → Option (String → Vault → Result Charge) → Vault → Result Checks × Vault
  unfolding count_paid
  ask_paid d (payable, paid, unchecked) none = pure (payable, paid, unchecked + 1)
  ask_paid d (payable, paid, unchecked) (some query) =
      if leb max_deposit_checks (paid + unchecked)
      then pure (payable, paid, unchecked + 1)
      else (do c ← reads (query d.txid); pure (count_paid (payable, paid, unchecked) c))

  unfoldable pub check_row : ℤ → PixDeposit → Checks → Vault → Result Checks × Vault
  unfolding ask_paid
  check_row valid_until d (payable, paid, unchecked) =
      if not (same_deposit_status d.status DepositStatus.pending)
      then pure (payable, paid, unchecked)
      else if after_or false valid_until (s.calendar.parse_nano d.created_at)
      then pure (payable + 1, paid, unchecked)
      else ask_paid d (payable, paid, unchecked) s.query_charge

  unfoldable pub check_rows : ℤ → List PixDeposit → Checks → Vault → Result Checks × Vault
  unfolding check_row
  check_rows valid_until [] n = pure n
  check_rows valid_until (d ∷ ds) n = do
    n' ← check_row valid_until d n
    check_rows valid_until ds n'

  -- paidDepositBlockers
  unfoldable pub paid_deposit_blockers : List PixDeposit → Vault → Result (List Blocker) × Vault
  unfolding check_rows quarantined
  paid_deposit_blockers deps = do
    now ← reads (λ v. ok (s.now v))
    n ← check_rows (now -ℤ charge_validity) deps (0, 0, 0)
    pure (quarantined n)

  -- createdAfter: a time that cannot be read counts as recent.
  unfoldable pub created_after : String → ℤ → Bool
  created_after created limit = after_or true limit (s.calendar.parse_nano created)

  unfoldable pub is_sandbox_pending : ℤ → Purchase → Bool
  unfolding created_after
  is_sandbox_pending since p =
      p.status == "refund_pending" || (p.status == "pending" && created_after p.created_at since)

  unfoldable pub is_product_pending : ℤ → Purchase → Bool
  unfolding created_after
  is_product_pending since p = p.status == "pending" && created_after p.created_at since

  -- pendingPurchases
  unfoldable pub pending_purchases : String → Vault → Result ℕ × Vault
  unfolding count_in is_sandbox_pending is_product_pending
  pending_purchases sub = do
    now ← reads (λ v. ok (s.now v))
    sandbox ← reads (s.sandbox_purchases sub)
    products ← reads (s.product_purchases sub)
    pure (
        count_in (is_sandbox_pending (now -ℤ deposit_ttl)) sandbox
        + count_in (is_product_pending (now -ℤ deposit_ttl)) products)

  -- What the reads of Blockers show, in the order of the code.
  unfoldable pub found_blockers :
      Option Wallet × Option Wallet × Option Wallet
      → List Hold
      → List PixDeposit
      → List Blocker
      → List Withdrawal
      → ℕ
      → List Blocker
  unfolding wallet_blocker count_in is_deposit_pending is_withdrawal_pending
  found_blockers (real, game, sandbox) holds deps quarantine wds n =
      wallet_blocker real
      ++ (wallet_blocker game
          ++ (counted hold_open (length holds)
              ++ (counted deposit_pending (count_in is_deposit_pending deps)
                  ++ (quarantine
                      ++ (counted withdrawal_pending (count_in is_withdrawal_pending wds)
                          ++ counted purchase_pending n)))))

  -- Blockers
  unfoldable pub blockers : String → Vault → Result (List Blocker) × Vault
  unfolding found_blockers open_holds_for_user paid_deposit_blockers pending_purchases
  blockers sub = do
    ws ← reads (λ v. (load_wallets s.dynamo sub v.db).0)
    holds ← open_holds_for_user s sub
    deps ← reads (s.deposits_of sub)
    quarantine ← paid_deposit_blockers deps
    wds ← reads (s.withdrawals_of sub)
    n ← pending_purchases sub
    pure (found_blockers ws holds deps quarantine wds n)
