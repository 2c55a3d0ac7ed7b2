-- ===== src/Billing/Credits.antt =====
-- Which deposits paid through Billing the deposit flow (judge in api/internal/services/wallet.go)
-- credits: those of the account's own CPF.
use ctech_wallet.Prelude.{
  ◌≡◌, ◌≢◌, ◌⊎◌, inl, inr, refl, sym, ◌∙◌, ap, ◌==◌, ◌&&◌, not, true, false, Bool-cases, [], ◌∷◌,
  arith, eq_iff,
}
use ctech_wallet.Domain.Model.{PixDeposit}
use ctech_wallet.Store.Problem.{ok, bind_keeps, bind_ok, pure_ok, reads, pure, ◌>>=◌}
use ctech_wallet.Store.Tables.{set_deposit_payer}
use ctech_wallet.Store.Dynamo.{IsDynamo}
use ctech_wallet.Store.Sound.{SameBooks, SameBooks-self}
use ctech_wallet.Store.Lawful.{transact-SameBooks}
use ctech_wallet.Payments.{update_deposit_payer}
use ctech_wallet.Payments.Keeps.{update_deposit_payer_state}
use ctech_wallet.Service.{World, Env, Kyc, Charge, on_db}
use ctech_wallet.Service.Payer.{masked_cpf_matches, masked_cpf_matches_iff}
use ctech_wallet.Service.PayerName.{payer_name_matches}
use ctech_wallet.Service.Deposit.{
  Verdict, quarantine, send_back, accept, verdict, judged, with_charge_payer, judge,
}
use ctech_wallet.Service.Deposit.SagaKeeps.{transition-SameBooks, reject_mismatch-Keeps}
use ctech_wallet.Billing.Client.{Invoice}
use ctech_wallet.Billing.Rail.{mismatch_payer, paid_charge, payer_fields}
use ctech_wallet.Billing.Payer.{
  Passes, verdict-Passes, mismatch_masks_only_itself, FitsCpf, IsVouchedPayer,
  fields-IsVouchedPayer,
}

module _ (env : Env) (dep : PixDeposit) (charge : Charge) where
  -- The row keeps the payer it has, or takes the charge's.
  abbrev HasPayer : PixDeposit → Type 0
  HasPayer known =
      (known.amount_expected ≡ dep.amount_expected)
      × (((dep.payer_cpf ≢ "") × (known.payer_cpf ≡ dep.payer_cpf))
          ⊎ ((dep.payer_cpf ≡ "") × (known.payer_cpf ≡ charge.payer_cpf)))

  with_charge_payer-HasPayer :
      (known : PixDeposit) (w : World)
      → (with_charge_payer env dep charge w).0 ≡ ok known
      → HasPayer known
  unfolding with_charge_payer
  with_charge_payer-HasPayer known w e =
      let write =
        on_db (update_deposit_payer env.dynamo dep.txid charge.payer_cpf dep.payer_name) in
      let filled : PixDeposit = record dep { payer_cpf = charge.payer_cpf } in
      elim (Bool-cases (dep.payer_cpf == "" && not (charge.payer_cpf == ""))) [
        | inl fresh ↦
            let answer = rw fresh at e in
            let (u, written, rest) =
              bind_ok write (λ _. pure filled) w
                (ap (λ x. (x, ((write >>= λ _. pure filled) w).1)) answer) in
            let (same, _) = pure_ok filled known (write w).1 _ rest in
            rw same (refl, inr (ground (arith, fresh, eq_iff dep.payer_cpf ""), refl))
        | inr named ↦
            let (same, _) = pure_ok dep known w w (ap (λ x. (x, w)) (rw named at e)) in
            rw same (refl, kept named)
      ]
    where
      kept :
          (dep.payer_cpf == "" && not (charge.payer_cpf == "")) ≡ false
          → ((dep.payer_cpf ≢ "") × (dep.payer_cpf ≡ dep.payer_cpf))
            ⊎ ((dep.payer_cpf ≡ "") × (dep.payer_cpf ≡ charge.payer_cpf))
      kept named = elim (Bool-cases (dep.payer_cpf == "")) [
        | inl empty ↦
            let e = (eq_iff dep.payer_cpf "").0 empty in
            inr (e, e ∙ sym ((eq_iff charge.payer_cpf "").0 (ground (arith, empty, named))))
        | inr full ↦ inl ((λ e. ground (arith, full, eq_iff dep.payer_cpf "", e)), refl)
      ]

  with_charge_payer-SameBooks :
      (law : IsDynamo env.dynamo) (w : World)
      → SameBooks (with_charge_payer env dep charge w).1.db w.db
  unfolding with_charge_payer on_db
  with_charge_payer-SameBooks law w =
      let write =
        on_db (update_deposit_payer env.dynamo dep.txid charge.payer_cpf dep.payer_name) in
      let kept : SameBooks (write w).1.db w.db =
        rw (update_deposit_payer_state env.dynamo dep.txid charge.payer_cpf dep.payer_name w.db) (
          transact-SameBooks env.dynamo law
            (set_deposit_payer dep.txid charge.payer_cpf dep.payer_name ∷ []) w.db w.db (tt, tt)
            (SameBooks-self w.db)) in
      elim (Bool-cases (dep.payer_cpf == "" && not (charge.payer_cpf == ""))) [
        | inl fresh ↦ rw fresh (bind_keeps (λ x. SameBooks x.db w.db) write _ w kept (λ u e. kept))
        | inr named ↦ rw named (SameBooks-self w.db)
      ]

module _ (env : Env) (dep : PixDeposit) (inv : Invoice) where
  -- Why a deposit may be credited: the payer that its row names, or where it names none, a payer whom
  -- Billing vouches for, has the CPF of the account and its name, and paid the amount of the deposit.
  abbrev pub IsCredible : Kyc → Type 0
  IsCredible kyc =
      (((dep.payer_cpf ≢ "") × FitsCpf dep.payer_cpf kyc)
        ⊎ ((dep.payer_cpf ≡ "") × IsVouchedPayer inv kyc inv.payer))
      × (((paid_charge inv).payer_name ≡ "")
          ⊎ (payer_name_matches env (paid_charge inv).payer_name kyc.legal_name ≡ true))
      × (inv.paid_cents ≡ dep.amount_expected)

  Passes-IsCredible :
      (known : PixDeposit) (kyc : Kyc)
      → HasPayer env dep (paid_charge inv) known
      → kyc.cpf ≢ mismatch_payer
      → Passes env known (paid_charge inv) kyc
      → IsCredible kyc
  unfolding paid_charge
  Passes-IsCredible known kyc (amount, payer) account passes = (
    elim payer [
      | inl (named, same) ↦
          inl (named, (masked_cpf_matches_iff dep.payer_cpf kyc.cpf).0 (rw (← same) passes.fits))
      | inr (empty, filled) ↦
          let fits : masked_cpf_matches (payer_fields inv.payer_match inv.payer).0 kyc.cpf ≡ true =
            rw (← filled) passes.fits in
          inr (
            empty,
            fields-IsVouchedPayer inv kyc inv.payer (λ e. passes.named (filled ∙ e))
                (λ e. account (sym (mismatch_masks_only_itself kyc.cpf (rw (← e) fits)))) fits,
          )
    ],
    passes.same_name,
    passes.exact ∙ amount,
  )

  -- The money stays where it is, or there is reason to credit.
  abbrev pub CreditsOnlyCredible : World → World → Type 0
  CreditsOnlyCredible before w =
      SameBooks w.db before.db
      ⊎ ((kyc : Kyc) × (env.kyc_get dep.user_id before ≡ ok kyc) × IsCredible kyc)

  judged-CreditsOnlyCredible :
      (law : IsDynamo env.dynamo) (before : World) (known : PixDeposit) (kyc : Kyc) (v : Verdict)
      → HasPayer env dep (paid_charge inv) known
      → kyc.cpf ≢ mismatch_payer
      → env.kyc_get dep.user_id before ≡ ok kyc
      → verdict env known (paid_charge inv) kyc ≡ v
      → (w : World) → SameBooks w.db before.db
      → CreditsOnlyCredible before (judged env known (paid_charge inv) v w).1
  unfolding judged
  judged-CreditsOnlyCredible law before known kyc quarantine payer account read e w same = inl same
  judged-CreditsOnlyCredible law before known kyc send_back payer account read e w same = inl (
      reject_mismatch-Keeps env (λ x. SameBooks x.db before.db)
        (transition-SameBooks env law before.db) (λ c x stable h. h) known (paid_charge inv) w same)
  judged-CreditsOnlyCredible law before known kyc accept payer account read e w same = inr (
    kyc,
    read,
    Passes-IsCredible known kyc payer account (verdict-Passes env known (paid_charge inv) kyc e),
  )

-- The judgement on a deposit that Billing says is paid leaves wallets, ledger and guards as they
-- were, or the KYC service knows the user, the payer of the deposit has the CPF of that user's
-- account, digit by digit where it is not masked, the name that the charge gives, if any, matches, and
-- the amount paid is the amount of the deposit. The payer is the one that the row names, from the
-- webhook or an earlier answer; where it names none, it is the one that Billing has recorded, which
-- Billing vouches for as a match or a partial one. No account's CPF is the code that stands for
-- another payer.
pub judge-CreditsOnlyCredible :
    (env : Env) (dep : PixDeposit) (inv : Invoice) (w : World)
    → IsDynamo env.dynamo
    → ((kyc : Kyc) → env.kyc_get dep.user_id w ≡ ok kyc → kyc.cpf ≢ mismatch_payer)
    → CreditsOnlyCredible env dep inv w (judge env dep (paid_charge inv) w).1
unfolding judge
judge-CreditsOnlyCredible env dep inv w law account =
    let charge = paid_charge inv in
    let P = CreditsOnlyCredible env dep inv w in
    bind_keeps P (reads (env.kyc_get dep.user_id)) _ w (inl (SameBooks-self w.db)) (λ kyc read.
      let same = with_charge_payer-SameBooks env dep charge law w in
      bind_keeps P (with_charge_payer env dep charge) _ w (inl same) (λ known e.
        judged-CreditsOnlyCredible env dep inv law w known kyc (verdict env known charge kyc)
          (with_charge_payer-HasPayer env dep charge known w e) (account kyc read) read refl _
          same))
