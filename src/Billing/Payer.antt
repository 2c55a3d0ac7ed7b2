-- ===== src/Billing/Payer.antt =====
-- What the verdict on a deposit that is paid through Billing says of its payer.
use ctech_wallet.Prelude.{
  String, ◌≡◌, ◌≢◌, ◌⊎◌, inl, inr, refl, true, ◌==◌, Option, none, some, Bool-cases, arith, eq_iff,
}
use ctech_wallet.Prelude.Int.{eqb_ℤ_iff}
use ctech_wallet.Domain.Model.{PixDeposit}
use ctech_wallet.Service.{Env, Kyc, Charge}
use ctech_wallet.Service.Payer.{
  masked_cpf_matches, masked_cpf_matches_iff, IsMaskOf, ShowsDigit, IsMaskOf-eq,
}
use ctech_wallet.Service.PayerName.{payer_name_matches}
use ctech_wallet.Service.Deposit.{accept, verdict}
use ctech_wallet.Billing.Client.{Payer, Invoice}
use ctech_wallet.Billing.Rail.{mismatch_payer, is_vouched, payer_fields}

-- The four checks of a verdict.
pub record Passes (env : Env) (dep : PixDeposit) (c : Charge) (kyc : Kyc) : Type 0 where
  pub named : dep.payer_cpf ≢ ""
  pub fits : masked_cpf_matches dep.payer_cpf kyc.cpf ≡ true
  pub same_name : (c.payer_name ≡ "") ⊎ (payer_name_matches env c.payer_name kyc.legal_name ≡ true)
  pub exact : c.amount ≡ dep.amount_expected

pub verdict-Passes :
    (env : Env) (dep : PixDeposit) (c : Charge) (kyc : Kyc)
    → verdict env dep c kyc ≡ accept
    → Passes env dep c kyc
unfolding verdict
verdict-Passes env dep c kyc h = record {
  named = λ e. ground (arith, eq_iff dep.payer_cpf "");
  fits = ground arith;
  same_name = ground (arith, eq_iff c.payer_name "");
  exact = ground (arith, eqb_ℤ_iff c.amount dep.amount_expected);
}

pub mismatch_masks_only_itself :
    (cpf : String) → masked_cpf_matches mismatch_payer cpf ≡ true → mismatch_payer ≡ cpf
mismatch_masks_only_itself cpf h =
    IsMaskOf-eq mismatch_payer cpf (ground arith)
      ((masked_cpf_matches_iff mismatch_payer cpf).0 h).0

-- A document that is the CPF of the account, digit by digit where it is not masked.
abbrev pub FitsCpf : String → Kyc → Type 0
FitsCpf document kyc = IsMaskOf document kyc.cpf × ShowsDigit document

-- A payer that Billing vouches for, whose document is the one that the charge names.
abbrev pub IsVouchedPayer : Invoice → Kyc → Option Payer → Type 0
IsVouchedPayer inv kyc none = ⊥
IsVouchedPayer inv kyc (some p) =
    ((inv.payer_match ≡ "match") ⊎ (inv.payer_match ≡ "partial")) × FitsCpf p.document kyc

pub fields-IsVouchedPayer :
    (inv : Invoice) (kyc : Kyc) (o : Option Payer)
    → (payer_fields inv.payer_match o).0 ≢ ""
    → (payer_fields inv.payer_match o).0 ≢ mismatch_payer
    → masked_cpf_matches (payer_fields inv.payer_match o).0 kyc.cpf ≡ true
    → IsVouchedPayer inv kyc o
unfolding payer_fields
fields-IsVouchedPayer inv kyc none named real fits =
    elim (Bool-cases (inv.payer_match == "mismatch")) [
      | inl bad ↦ absurd (real (rw bad refl))
      | inr other ↦ absurd (named (rw other refl))
    ]
fields-IsVouchedPayer inv kyc (some p) named real fits =
    elim (Bool-cases (is_vouched inv.payer_match)) [
      | inl good ↦ (
        ground (arith, eq_iff inv.payer_match "match", eq_iff inv.payer_match "partial"),
        (masked_cpf_matches_iff p.document kyc.cpf).0 (rw good at fits),
      )
      | inr not_good ↦ elim (Bool-cases (inv.payer_match == "mismatch")) [
        | inl bad ↦ absurd (real (rw (not_good, bad) refl))
        | inr other ↦ absurd (named (rw (not_good, other) refl))
      ]
    ]
