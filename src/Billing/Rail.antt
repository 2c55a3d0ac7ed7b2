-- ===== src/Billing/Rail.antt =====
-- api/internal/rail/billing.go: what Billing says, in the words of the deposit and withdrawal flows.
-- The picture of a QR code is left out of a charge.
use ctech_wallet.Prelude.{String, Bool, ◌||◌, ◌==◌, Option, none, some, [], ◌∷◌, if◌then◌else◌}
use ctech_wallet.Prelude.Int.{ℤ, pos}
use ctech_wallet.Store.Problem.{
  key_not_found, outage, Result, ok, err, ◌>>=◌, ◌>>◌, pure, raise, reads,
}
use ctech_wallet.Service.{
  Charge, active, completed, removed, DepositRequest, TransferResult, transfer_done,
  transfer_not_found, transfer_processing, transfer_failed,
}
use ctech_wallet.Billing.{Reply, answered, missing, clash, failed, Routes}
use ctech_wallet.Billing.Client.{
  Payer, Invoice, Payout, status_paid, status_open, ensure_customer, create_invoice,
  invoice_by_reference, open_pix, refund_invoice, create_payout, payout_by_reference,
}

abbrev pub mismatch_payer : String
mismatch_payer = "BILLING-MISMATCH"

abbrev pub deposit_description : String
deposit_description = "Depósito na carteira"

-- Ten minutes, in seconds as the invoice wants it.
abbrev pub deposit_pix_lifetime : ℤ
deposit_pix_lifetime = pos 600

abbrev pub payout_message : String
payout_message = "Saque da carteira"

abbrev pub refund_reason : String
refund_reason = "Devolução de depósito da carteira"

abbrev pub empty_charge : Charge
empty_charge = record {
  txid = "";
  amount = pos 0;
  qr_code = "";
  status = active;
  payer_name = "";
  payer_cpf = "";
  e2e_id = "";
  refunds = [];
  payments = [];
}

-- Billing vouches for the payer.
abbrev pub is_vouched : String → Bool
is_vouched m = m == "match" || m == "partial"

-- The payer's document and name as the flows read them.
unfoldable pub payer_fields : String → Option Payer → String × String
payer_fields m none = if m == "mismatch" then (mismatch_payer, "") else ("", "")
payer_fields m (some p) =
    if is_vouched m
    then (p.document, p.name)
    else if m == "mismatch"
    then (mismatch_payer, "")
    else ("", "")

unfoldable pub open_invoice_charge : Invoice → Charge
open_invoice_charge inv = record empty_charge {
  txid = inv.txid;
  amount = inv.amount_cents;
  qr_code = inv.pix_copia_e_cola;
}

unfoldable pub paid_charge : Invoice → Charge
unfolding payer_fields
paid_charge inv =
    let (payer, name) = payer_fields inv.payer_match inv.payer in
    record {
      txid = inv.txid;
      amount = inv.paid_cents;
      qr_code = "";
      status = completed;
      payer_name = name;
      payer_cpf = payer;
      e2e_id = inv.id;
      refunds = [];
      payments =
          record {
            e2e_id = inv.id;
            amount = inv.paid_cents;
            payer_cpf = payer;
            payer_name = name;
            refunds = [];
          }
          ∷ [];
    }

unfoldable pub removed_charge : Invoice → Charge
removed_charge inv = record empty_charge {
  txid = inv.txid;
  amount = inv.amount_cents;
  status = removed;
}

-- An error of the client.
unfoldable pub reply_result : {A : Type 0} → Reply A → Result A
reply_result (answered a) = ok a
reply_result missing = err (outage "billing: not found")
reply_result clash = err (outage "billing: idempotency or reference conflict")
reply_result (failed e) = err (outage e)

-- payoutResult
unfoldable pub payout_result : (String → String → Bool) → Payout → Result TransferResult
payout_result equal_fold p =
    if p.status == "done"
    then ok (record { e2e_id = p.payment_id; status = transfer_done })
    else if p.status == "failed"
    then (if equal_fold p.failure_reason "key_not_found"
        then err key_not_found
        else ok (record { e2e_id = ""; status = transfer_failed }))
    else ok (record { e2e_id = ""; status = transfer_processing })

unfoldable pub no_key_failed : Result TransferResult → Result TransferResult
no_key_failed (err key_not_found) = ok (record { e2e_id = ""; status = transfer_failed })
no_key_failed res = res

module _ {S : Type 0} (r : Routes S) where
  abbrev called : {A : Type 0} → (S → Reply A × S) → S → Result A × S
  called f s = let (a, s') = f s in (reply_result a, s')

  -- charge
  unfoldable pub charge : Invoice → S → Result Charge × S
  unfolding reply_result open_invoice_charge paid_charge removed_charge
  charge inv =
      if inv.status == status_open
      then (do opened ← called (open_pix r inv); pure (open_invoice_charge opened))
      else if inv.status == status_paid
      then pure (paid_charge inv)
      else pure (removed_charge inv)

  -- OpenDeposit
  unfoldable pub open_deposit : DepositRequest → S → Result Charge × S
  unfolding reply_result charge
  open_deposit req =
      if req.tax_id == "" then raise (outage "billing rail: the user has no CPF on record") else (do
        customer ← called (ensure_customer r req.user_id req.tax_id req.name req.email)
        inv ← called (
            create_invoice r customer req.txid deposit_description req.amount_cents
              deposit_pix_lifetime)
        charge inv)

  -- QueryDeposit
  unfoldable pub query_deposit : String → S → Result Charge × S
  unfolding reply_result charge
  query_deposit txid = do inv ← called (invoice_by_reference r txid); charge inv

  -- RefundDeposit
  unfoldable pub refund_deposit : String → ℤ → String → S → Result TransferResult × S
  unfolding reply_result
  refund_deposit txid amount idem_key = do
    inv ← called (invoice_by_reference r txid)
    called (refund_invoice r inv.id amount refund_reason idem_key)
    pure (record { e2e_id = inv.id; status = transfer_done })

  -- Payout
  unfoldable pub payout : String → ℤ → String → S → Result TransferResult × S
  unfolding payout_result reply_result
  payout cpf amount idem_key = do
    p ← called (create_payout r cpf amount idem_key payout_message)
    reads (λ s. payout_result r.equal_fold p)

  unfoldable pub payout_state : Reply Payout → Result TransferResult
  unfolding payout_result reply_result no_key_failed
  payout_state missing = ok (record { e2e_id = ""; status = transfer_not_found })
  payout_state (answered p) = no_key_failed (payout_result r.equal_fold p)
  payout_state clash = err (outage "billing: idempotency or reference conflict")
  payout_state (failed e) = err (outage e)

  -- QueryPayout
  unfoldable pub query_payout : String → S → Result TransferResult × S
  unfolding payout_state
  query_payout idem_key s = let (p, s') = payout_by_reference r idem_key s in (payout_state p, s')
