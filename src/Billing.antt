-- ===== src/Billing.antt =====
-- api/internal/billingclient/client.go and api/internal/rail/billing.go: Billing as the rail. The
-- routes of Billing are a parameter, with a state of their own, and so are HMAC, the reading of URLs
-- and numbers, and the case folding of texts.
pub mod Client
pub mod Rail
pub mod Payer
pub mod Credits
pub mod Payouts
pub mod Signature
use ctech_wallet.Prelude.{String, Bool, Option}
use ctech_wallet.Prelude.Int.{ℤ}

-- How a call of Billing ends: with an answer, with 404, with 409, or otherwise.
pub data Reply (A : Type 0) : Type 0 where
  answered : A → Reply A
  missing : Reply A
  clash : Reply A
  failed : String → Reply A

pub record CustomerJson : Type 0 where
  pub id : String
  pub tax_id_masked : String

pub record PayerJson : Type 0 where
  pub name : String
  pub document : String
  pub institution : String

-- metadata_txid is the entry of the metadata under "txid", or "".
pub record InvoiceJson : Type 0 where
  pub id : String
  pub status : String
  pub total : ℤ
  pub amount_paid : ℤ
  pub checkout_url : String
  pub metadata_txid : String
  pub payer : Option PayerJson
  pub payer_match : String

pub record PayoutJson : Type 0 where
  pub id : String
  pub reference : String
  pub status : String
  pub amount_cents : ℤ
  pub payment_id : String
  pub failure_reason : String

-- The bodies that the client sends.
pub record InvoiceOrder : Type 0 where
  pub customer_id : String
  pub description : String
  pub amount_cents : ℤ
  pub payer_message : String
  pub pix_expires_in_seconds : ℤ
  pub reference : String
  pub owner_key : String
  pub metadata_txid : String

-- The routes, each with its idempotency key where the client sends one. `pay` answers the Pix code
-- of the payment, if there is a payment. A new customer's external_ref is "wallet:" and the user, and
-- a credit note refunds by Pix.
pub record Routes (S : Type 0) : Type 0 where
  pub customer_by_user : String → S → Reply CustomerJson × S
  pub set_tax_id : String → String → String → S → Reply Unit × S
  pub post_customer : String → String → String → String → String → S → Reply CustomerJson × S
  pub post_invoice : String → InvoiceOrder → S → Reply InvoiceJson × S
  pub invoice_by_id : String → S → Reply InvoiceJson × S
  pub invoice_by_reference : String → S → Reply InvoiceJson × S
  pub pay : String → S → Reply (Option String) × S
  pub post_credit_note : String → String → ℤ → String → S → Reply Unit × S
  pub post_payout : String → String → ℤ → String → S → Reply PayoutJson × S
  pub payout_by_reference : String → S → Reply PayoutJson × S
  -- The "token" of a checkout link; "" for none, or for no URL.
  pub checkout_token : String → String
  -- strings.EqualFold
  pub equal_fold : String → String → Bool
