-- ===== src/Billing/Client.antt =====
-- api/internal/billingclient/client.go: the client's calls over Billing's routes.
use ctech_wallet.Prelude.{String, not, ◌||◌, ◌==◌, Option, none, some, if◌then◌else◌}
use ctech_wallet.Prelude.Int.{ℤ}
use ctech_wallet.Service.Digest.{prefixed}
use ctech_wallet.Billing.{
  Reply, answered, missing, clash, failed, CustomerJson, PayerJson, InvoiceJson, PayoutJson, Routes,
}

pub record Payer : Type 0 where
  pub name : String
  pub document : String
  pub institution : String

pub record Invoice : Type 0 where
  pub id : String
  pub status : String
  pub amount_cents : ℤ
  pub paid_cents : ℤ
  pub txid : String
  pub checkout_url : String
  pub pix_copia_e_cola : String
  pub payer : Option Payer
  pub payer_match : String

pub record Payout : Type 0 where
  pub id : String
  pub reference : String
  pub status : String
  pub payment_id : String
  pub failure_reason : String
  pub amount_cents : ℤ

abbrev pub status_paid : String
status_paid = "PAID"

abbrev pub status_open : String
status_open = "OPEN"

unfoldable pub payer_of : Option PayerJson → Option Payer
payer_of none = none
payer_of (some p) =
    some (record { name = p.name; document = p.document; institution = p.institution })

-- invoiceJSON.invoice
unfoldable pub invoice_of : InvoiceJson → Invoice
unfolding payer_of
invoice_of j = record {
  id = j.id;
  status = j.status;
  amount_cents = j.total;
  paid_cents = j.amount_paid;
  txid = j.metadata_txid;
  checkout_url = j.checkout_url;
  pix_copia_e_cola = "";
  payer = payer_of j.payer;
  payer_match = j.payer_match;
}

-- payoutJSON.payout
unfoldable pub payout_of : PayoutJson → Payout
payout_of j = record {
  id = j.id;
  reference = j.reference;
  status = j.status;
  payment_id = j.payment_id;
  failure_reason = j.failure_reason;
  amount_cents = j.amount_cents;
}

abbrev pub map_reply : {A B : Type 0} → (A → B) → Reply A → Reply B
map_reply f (answered a) = answered (f a)
map_reply f missing = missing
map_reply f clash = clash
map_reply f (failed e) = failed e

module _ {S : Type 0} (r : Routes S) where
  abbrev reply : {A : Type 0} → Reply A → S → Reply A × S
  reply a s = (a, s)

  -- An answer is mapped in place.
  abbrev mapped : {A B : Type 0} → (A → B) → Reply A × S → Reply B × S
  mapped f (a, s) = (map_reply f a, s)

  unfoldable pub tax_id_set : String → Reply Unit × S → Reply String × S
  tax_id_set id (answered u, s) = (answered id, s)
  tax_id_set id (missing, s) = (missing, s)
  tax_id_set id (clash, s) = (clash, s)
  tax_id_set id (failed e, s) = (failed e, s)

  unfoldable pub customer_made : String → Reply CustomerJson × S → Reply String × S
  customer_made user (clash, s) = mapped (λ c. c.id) (r.customer_by_user user s)
  customer_made user (answered c, s) = (answered c.id, s)
  customer_made user (missing, s) = (missing, s)
  customer_made user (failed e, s) = (failed e, s)

  unfoldable pub customer_found :
      String → String → String → String → Reply CustomerJson × S → Reply String × S
  unfolding tax_id_set customer_made prefixed
  customer_found user tax_id name email (answered c, s) =
      if c.tax_id_masked == ""
      then tax_id_set c.id (r.set_tax_id (prefixed "wallet-taxid-" c.id) c.id tax_id s)
      else (answered c.id, s)
  customer_found user tax_id name email (missing, s) =
      customer_made user
        (r.post_customer (prefixed "wallet-customer-" user) user name email tax_id s)
  customer_found user tax_id name email (clash, s) = (clash, s)
  customer_found user tax_id name email (failed e, s) = (failed e, s)

  -- EnsureCustomer
  unfoldable pub ensure_customer : String → String → String → String → S → Reply String × S
  unfolding customer_found
  ensure_customer user tax_id name email s =
      customer_found user tax_id name email (r.customer_by_user user s)

  -- CreateInvoice
  unfoldable pub create_invoice : String → String → String → ℤ → ℤ → S → Reply Invoice × S
  unfolding invoice_of
  create_invoice customer reference description amount lifetime s = mapped invoice_of (
      r.post_invoice reference
        (record {
          customer_id = customer;
          description = description;
          amount_cents = amount;
          payer_message = description;
          pix_expires_in_seconds = lifetime;
          reference = reference;
          owner_key = "wallet";
          metadata_txid = reference;
        })
        s)

  -- InvoiceByReference
  unfoldable pub invoice_by_reference : String → S → Reply Invoice × S
  unfolding invoice_of
  invoice_by_reference reference s = mapped invoice_of (r.invoice_by_reference reference s)

  -- InvoiceByID
  unfoldable pub invoice_by_id : String → S → Reply Invoice × S
  unfolding invoice_of
  invoice_by_id id s = mapped invoice_of (r.invoice_by_id id s)

  abbrev no_pix : Reply Invoice
  no_pix = failed "billing: invoice has no payable Pix"

  unfoldable pub paid_by_pix : Invoice → Reply (Option String) × S → Reply Invoice × S
  paid_by_pix inv (answered (some code), s) =
      if code == "" then (no_pix, s) else (answered (record inv { pix_copia_e_cola = code }), s)
  paid_by_pix inv (answered none, s) = (no_pix, s)
  paid_by_pix inv (missing, s) = (missing, s)
  paid_by_pix inv (clash, s) = (clash, s)
  paid_by_pix inv (failed e, s) = (failed e, s)

  -- OpenPix, which fills the invoice's Pix code.
  unfoldable pub open_pix : Invoice → S → Reply Invoice × S
  unfolding paid_by_pix
  open_pix inv s =
      if not (inv.status == status_open) || inv.checkout_url == ""
      then (no_pix, s)
      else if r.checkout_token inv.checkout_url == ""
      then (no_pix, s)
      else paid_by_pix inv (r.pay (r.checkout_token inv.checkout_url) s)

  -- RefundInvoice
  unfoldable pub refund_invoice : String → ℤ → String → String → S → Reply Unit × S
  refund_invoice invoice amount reason idem_key s =
      r.post_credit_note idem_key invoice amount reason s

  -- CreatePayout
  unfoldable pub create_payout : String → ℤ → String → String → S → Reply Payout × S
  unfolding payout_of
  create_payout cpf amount reference message s =
      mapped payout_of (r.post_payout reference cpf amount message s)

  -- PayoutByReference
  unfoldable pub payout_by_reference : String → S → Reply Payout × S
  unfolding payout_of
  payout_by_reference reference s = mapped payout_of (r.payout_by_reference reference s)
