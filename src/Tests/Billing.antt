-- ===== src/Tests/Billing.antt =====
-- The theorems on Billing as the rail at work.
use Prim.Native.String.{◌++◌}
use ctech_wallet.Prelude.{String, ◌≡◌, ◌≢◌, ◌↔◌, refl, true, false, some, arith, eq_iff, ap}
use ctech_wallet.Prelude.Int.{pos, eqb_ℤ}
use ctech_wallet.Store.Problem.{Result, ok, err}
use ctech_wallet.Store.Memory.{memory-IsDynamo}
use ctech_wallet.Service.{Kyc, transfer_done, transfer_failed, transfer_not_found}
use ctech_wallet.Service.Deposit.{verdict, accept, judge}
use ctech_wallet.Service.Payer.{masked_cpf_matches}
use ctech_wallet.Billing.{answered, missing, Routes}
use ctech_wallet.Billing.Client.{Invoice, payout_by_reference}
use ctech_wallet.Billing.Rail.{paid_charge, payer_fields, mismatch_payer, query_payout}
use ctech_wallet.Billing.Credits.{CreditsOnlyCredible, judge-CreditsOnlyCredible}
use ctech_wallet.Billing.Payouts.{Says, HasState, IsMissing, query_payout_iff}
use ctech_wallet.Billing.Signature.{IsInWindow, verify_signature, verify_signature_iff}
use ctech_wallet.Tests.Service.{env}
use ctech_wallet.Tests.Deposit.{waiting, due}
use ctech_wallet.Tests.Batch.{stand_in}

abbrev cpf_or : String → Result Kyc → String
cpf_or other (ok k) = k.cpf
cpf_or other (err e) = other

abbrev settled : Invoice
settled = record {
  id = "inv1";
  status = "PAID";
  amount_cents = pos 300;
  paid_cents = pos 300;
  txid = "d1";
  checkout_url = "";
  pix_copia_e_cola = "";
  payer = some (record { name = ""; document = "***222333**"; institution = "bank" });
  payer_match = "match";
}

abbrev ana : Kyc
ana = record { cpf = "11122233344"; legal_name = "Ana"; email = "" }

-- Ana is known to the KYC service, and her deposit is judged on what Billing says.
judge-CreditsOnlyCredible_example :
    CreditsOnlyCredible env waiting settled due (judge env waiting (paid_charge settled) due).1
judge-CreditsOnlyCredible_example =
    judge-CreditsOnlyCredible env waiting settled due memory-IsDynamo (λ kyc e.
      let same = ap (cpf_or "") e in
      rw⁻¹ same (λ f. ground (arith, f, eq_iff "11122233344" mismatch_payer)))

-- A partial match is enough for the verdict.
partly_accepted :
    verdict env
      (record waiting { payer_cpf = "***222333**" })
      (paid_charge (record settled { payer_match = "partial" }))
      ana
    ≡ accept
unfolding verdict paid_charge payer_fields masked_cpf_matches eqb_ℤ
partly_accepted = refl

-- Routes that know one payout, and nothing else.
abbrev one_payout : Routes Unit
one_payout = record {
  customer_by_user = λ user s. (missing, s);
  set_tax_id = λ id tax key s. (missing, s);
  post_customer = λ user tax name email key s. (missing, s);
  post_invoice = λ key order s. (missing, s);
  invoice_by_id = λ id s. (missing, s);
  invoice_by_reference = λ reference s. (missing, s);
  pay = λ token s. (missing, s);
  post_credit_note = λ id reason amount key s. (missing, s);
  post_payout = λ key cpf amount reference s. (missing, s);
  payout_by_reference = λ reference s. (
    answered (record {
      id = "p1";
      reference = reference;
      status = "failed";
      amount_cents = pos 200;
      payment_id = "";
      failure_reason = "key_not_found";
    }),
    s,
  );
  checkout_token = λ url. "";
  equal_fold = λ a b. false;
}

query_payout_iff_example :
    let a = (payout_by_reference one_payout "k1" tt).0 in
    let said = (query_payout one_payout "k1" tt).0 in
    (Says transfer_done said ↔ HasState "done" a)
    × (Says transfer_failed said ↔ HasState "failed" a)
    × (Says transfer_not_found said ↔ IsMissing a)
query_payout_iff_example = query_payout_iff one_payout "k1" tt

abbrev secret : String
secret = "s"

verify_signature_iff_example :
    (verify_signature stand_in "s" "v1=s" "0" "{}" (pos 7) (pos 10) ≡ true) ↔ (
      (secret ≢ "")
      × ("v1=s" ≡ "v1=" ++ stand_in.hmac_hex "s" (("0" ++ ".") ++ "{}"))
      × IsInWindow (pos 7) (pos 10) (some (pos 0)))
verify_signature_iff_example = verify_signature_iff stand_in "s" "v1=s" "0" "{}" (pos 7) (pos 10)
