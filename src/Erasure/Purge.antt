-- ===== src/Erasure/Purge.antt =====
-- api/internal/services/erasure.go: the purge. Every personal field is copied to retention before it
-- is taken off its row, and an active self-exclusion is kept.
use ctech_wallet.Prelude.{
  String, Bool, true, false, ◌&&◌, ◌==◌, ℕ, ◌+◌, Option, none, some, List, [], ◌∷◌, if◌then◌else◌,
}
use ctech_wallet.Prelude.Int.{ℤ}
use ctech_wallet.Domain.Model.{PixDeposit, Withdrawal, SelfExclusion}
use ctech_wallet.Store.Problem.{Result, ok, outage, ◌>>=◌, ◌>>◌, pure, raise, reads}
use ctech_wallet.Service.Games.{user_exclusion}
use ctech_wallet.Service.Initiate.{unix}
use ctech_wallet.Erasure.{
  Vault, Sources, deposit_item, withdrawal_item, Identity, retain_row, strip_deposit_pii,
  strip_withdrawal_pii, erase_user_profile, anonymize_audit, put_carried_self_exclusion,
}
use ctech_wallet.Erasure.Exclusion.{retention_years, carried_self_exclusion}
use ctech_wallet.Erasure.Blockers.{Blocker, blockers}

-- The counts of an ack: deposits and withdrawals retained, the profile, audit rows, and whether an
-- exclusion was carried.
pub record Counts : Type 0 where
  pub deposits_retained : ℕ
  pub withdrawals_retained : ℕ
  pub user_erased : Bool
  pub audit_anonymized : ℕ
  pub exclusion_carried : Bool

pub data Ack : Type 0 where
  blocked : List Blocker → Ack
  purged : Counts → Ack

-- The names of the source tables in a retained record.
abbrev pub deposits_table : String
deposits_table = "wallet_pix_deposits"

abbrev pub withdrawals_table : String
withdrawals_table = "wallet_withdrawals"

module _ (s : Sources) (sub : String) where
  unfoldable pub carry_known : SelfExclusion → ℤ → Option Identity → Vault → Result Bool × Vault
  unfolding put_carried_self_exclusion unix
  carry_known ex end none = pure false
  carry_known ex end (some k) =
      if k.cpf == ""
      then pure false
      else if k.cpf_hmac == ""
      then raise (outage "erasure: ctech-account returned no cpf_hmac")
      else (do put_carried_self_exclusion s k.cpf_hmac ex (unix end); pure true)

  unfoldable pub carry_decided : Option (SelfExclusion × ℤ) → Vault → Result Bool × Vault
  unfolding carry_known
  carry_decided none = pure false
  carry_decided (some (ex, end)) = do k ← reads (s.get_identity sub); carry_known ex end k

  -- carrySelfExclusion
  unfoldable pub carry_self_exclusion : ℤ → Vault → Result Bool × Vault
  unfolding carry_decided carried_self_exclusion
  carry_self_exclusion now = do
    u ← reads (λ v. s.dynamo.get_user sub v.db)
    carry_decided (carried_self_exclusion s.calendar now (user_exclusion u))

  module _ (until : ℤ) where
    unfoldable pub retain_deposits : ℕ → List PixDeposit → Vault → Result ℕ × Vault
    unfolding retain_row strip_deposit_pii
    retain_deposits n [] = pure n
    retain_deposits n (d ∷ ds) =
        if d.payer_cpf == "" && d.payer_name == "" then retain_deposits n ds else (do
          retain_row s sub deposits_table d.txid (deposit_item d) until
          strip_deposit_pii s d.txid
          retain_deposits (n + 1) ds)

    unfoldable pub retain_withdrawals : ℕ → List Withdrawal → Vault → Result ℕ × Vault
    unfolding retain_row strip_withdrawal_pii
    retain_withdrawals n [] = pure n
    retain_withdrawals n (w ∷ ws) = if w.pix_key == "" then retain_withdrawals n ws else (do
      retain_row s sub withdrawals_table w.withdrawal_id (withdrawal_item w) until
      strip_withdrawal_pii s w.withdrawal_id
      retain_withdrawals (n + 1) ws)

  unfoldable pub purge_all : ℤ → Vault → Result Ack × Vault
  unfolding carry_self_exclusion retain_deposits retain_withdrawals erase_user_profile
      anonymize_audit
  purge_all now = do
    let until = s.calendar.add_years now retention_years
    carried ← carry_self_exclusion now
    deps ← reads (s.deposits_of sub)
    deposits ← retain_deposits until 0 deps
    wds ← reads (s.withdrawals_of sub)
    withdrawals ← retain_withdrawals until 0 wds
    erased ← erase_user_profile s sub
    n ← anonymize_audit s sub
    pure (
        purged (record {
          deposits_retained = deposits;
          withdrawals_retained = withdrawals;
          user_erased = erased;
          audit_anonymized = n;
          exclusion_carried = carried;
        }))

  unfoldable pub purge_unblocked : List Blocker → Vault → Result Ack × Vault
  unfolding purge_all
  purge_unblocked [] = do now ← reads (λ v. ok (s.now v)); purge_all now
  purge_unblocked (b ∷ bs) = pure (blocked (b ∷ bs))

  -- Purge
  unfoldable pub purge : Vault → Result Ack × Vault
  unfolding purge_unblocked
  purge = do bs ← blockers s sub; purge_unblocked bs
