-- ===== src/Domain/Model.antt =====
-- api/internal/domain/wallet/model.go and user.go: the rows the wallet keeps. A Go string that
-- holds one of a fixed set of constants is a data type; an absent pointer is `none`.
use ctech_wallet.Prelude.{String, Bool, false, Option, none, some, ◌==◌}
use ctech_wallet.Prelude.Int.{ℤ, pos, int64, ◌*ℤ◌}

pub data WalletType : Type 0 where
  real game sandbox : WalletType

-- The text that stands for a wallet type in a marker key.
abbrev pub wallet_type_text : WalletType → String
wallet_type_text WalletType.real = "real"
wallet_type_text WalletType.game = "game"
wallet_type_text WalletType.sandbox = "sandbox"

pub data EntryType : Type 0 where
  deposit withdraw game_debit game_credit sandbox_purchase sandbox_credit reversal : EntryType
  deposit_refund game_fund_debit game_fund_credit game_return_debit : EntryType
  game_return_credit billing_debit sandbox_refund_reversal game_hold_debit : EntryType
  game_hold_release game_cashout_credit game_merge_debit game_merge_credit : EntryType
  game_unmerge_debit game_unmerge_credit : EntryType

-- The entry types that open an idempotency key.
abbrev pub entry_type_text : EntryType → String
entry_type_text EntryType.deposit = "deposit"
entry_type_text EntryType.withdraw = "withdraw"
entry_type_text EntryType.game_debit = "game_debit"
entry_type_text EntryType.game_credit = "game_credit"
entry_type_text EntryType.sandbox_purchase = "sandbox_purchase"
entry_type_text EntryType.sandbox_credit = "sandbox_credit"
entry_type_text EntryType.reversal = "reversal"
entry_type_text EntryType.deposit_refund = "deposit_refund"
entry_type_text EntryType.game_fund_debit = "game_fund_debit"
entry_type_text EntryType.game_fund_credit = "game_fund_credit"
entry_type_text EntryType.game_return_debit = "game_return_debit"
entry_type_text EntryType.game_return_credit = "game_return_credit"
entry_type_text EntryType.billing_debit = "billing_debit"
entry_type_text EntryType.sandbox_refund_reversal = "sandbox_refund_reversal"
entry_type_text EntryType.game_hold_debit = "game_hold_debit"
entry_type_text EntryType.game_hold_release = "game_hold_release"
entry_type_text EntryType.game_cashout_credit = "game_cashout_credit"
entry_type_text EntryType.game_merge_debit = "game_merge_debit"
entry_type_text EntryType.game_merge_credit = "game_merge_credit"
entry_type_text EntryType.game_unmerge_debit = "game_unmerge_debit"
entry_type_text EntryType.game_unmerge_credit = "game_unmerge_credit"

pub data HoldStatus : Type 0 where
  held released settled : HoldStatus

pub data DepositStatus : Type 0 where
  pending confirmed rejected_cpf refund_pending expired refunded refund_failed : DepositStatus

pub data WithdrawStatus : Type 0 where
  processing completed reversed refund_fail : WithdrawStatus

-- Centavos: the ceiling on one inbound operation, and the sandbox rate.
abbrev pub max_inbound_amount : ℤ
max_inbound_amount = pos 100000000

abbrev pub sandbox_credits_per_cent : ℤ
sandbox_credits_per_cent = pos 100

unfoldable pub to_sandbox_credits : ℤ → ℤ
to_sandbox_credits centavos = int64 (centavos *ℤ sandbox_credits_per_cent)

-- `version` is `none` on a row written before the attribute existed; Go then decodes 0.
pub record Wallet : Type 0 where
  pub wallet_id : String
  pub user_id : String
  pub type : WalletType
  pub balance : ℤ
  pub version : Option ℤ
  pub min_deposit : ℤ
  pub max_deposit : ℤ
  pub min_withdrawal : ℤ
  pub daily_deposit_cap : ℤ
  pub daily_withdraw_cap : ℤ
  pub daily_withdraw_count : ℤ
  pub retired_at : String
  pub created_at : String
  pub updated_at : String

abbrev pub version_of : Option ℤ → ℤ
version_of none = pos 0
version_of (some v) = v

pub record LedgerEntry : Type 0 where
  pub wallet_id : String
  pub sk : String
  pub entry_id : String
  pub type : EntryType
  pub amount : ℤ
  pub balance_after : ℤ
  pub idempotency_key : String
  pub ref : String
  pub description : String
  pub created_at : String

pub record PixDeposit : Type 0 where
  pub txid : String
  pub wallet_id : String
  pub user_id : String
  pub amount_expected : ℤ
  pub status : DepositStatus
  pub e2e_id : String
  pub payer_cpf : String
  pub payer_name : String
  pub qr_code_payload : String
  pub qr_code_image : String
  pub created_at : String
  pub ttl : ℤ

pub record Withdrawal : Type 0 where
  pub withdrawal_id : String
  pub wallet_id : String
  pub user_id : String
  pub amount : ℤ
  pub pix_key : String
  pub status : WithdrawStatus
  pub e2e_id : String
  pub idempotency_key : String
  pub created_at : String
  pub updated_at : String

pub record Hold : Type 0 where
  pub hold_id : String
  pub wallet_id : String
  pub user_id : String
  pub amount : ℤ
  pub table_ref : String
  pub status : HoldStatus
  pub idempotency_key : String
  pub created_at : String
  pub updated_at : String

pub record SelfExclusion : Type 0 where
  pub period : String
  pub requested_at : String
  pub until : String

-- daily_limits.go: the real wallet's Pix activity on one calendar day.
pub record RealDailyCounters : Type 0 where
  pub day_key : String
  pub deposit_sum : ℤ
  pub withdraw_sum : ℤ
  pub withdraw_count : ℤ

-- responsible.go: caps on game deposits, an increase that waits, and the sums of each window.
pub record PendingLimits : Type 0 where
  pub daily : ℤ
  pub weekly : ℤ
  pub monthly : ℤ
  pub applies_at : String

pub record GameLimits : Type 0 where
  pub daily : ℤ
  pub weekly : ℤ
  pub monthly : ℤ
  pub pending : Option PendingLimits

pub record GameDepositCounters : Type 0 where
  pub day_key : String
  pub day_sum : ℤ
  pub week_key : String
  pub week_sum : ℤ
  pub month_key : String
  pub month_sum : ℤ

-- user.go, without the times of consent, creation and update.
pub record User : Type 0 where
  pub user_id : String
  pub terms_addendum_version : String
  pub gambling_addendum_version : String
  pub self_exclusion : Option SelfExclusion
  pub game_limits : Option GameLimits
  pub game_deposit_counters : Option GameDepositCounters
  pub real_daily_counters : Option RealDailyCounters

-- user.go: consent is an equality with the current version, never a stored flag.
unfoldable pub terms_accepted : Option User → Bool
terms_accepted none = false
terms_accepted (some u) = u.terms_addendum_version == "2.2"

unfoldable pub gambling_accepted : Option User → Bool
gambling_accepted none = false
gambling_accepted (some u) = u.gambling_addendum_version == "2.1"

-- KYC levels of the token's claim.
abbrev pub kyc_basic : String
kyc_basic = "basic"

abbrev pub kyc_verified : String
kyc_verified = "enhanced"
