-- ===== src/Api/Events.antt =====
-- api/internal/api/v1/billing_events.go: Billing's signed events. The answer is the HTTP status.
use ctech_wallet.Prelude.{
  String, Bool, true, not, ◌&&◌, ◌||◌, ◌==◌, ◌≡◌, refl, ℕ, Option, none, some, Bool-cases, inl, inr,
  if◌then◌else◌, ◌⊎◌,
}
use ctech_wallet.Prelude.Int.{ℤ, pos}
use ctech_wallet.Store.Problem.{Result, ok, err, ◌>>=◌, pure, attempt, Result-cases}
use ctech_wallet.Store.Dynamo.{IsDynamo}
use ctech_wallet.Store.Amounts.{IsTidy}
use ctech_wallet.Payments.Queues.{Indexes}
use ctech_wallet.Billing.{Reply, answered, missing, clash, failed}
use ctech_wallet.Billing.Client.{Invoice}
use ctech_wallet.Billing.Signature.{Crypto, verify_signature}
use ctech_wallet.Service.{World, Env}
use ctech_wallet.Service.Keeps.{Keeps, ClosedWorld}
use ctech_wallet.Service.Deposit.{confirm_deposit}
use ctech_wallet.Service.Deposit.Keeps.{confirm_deposit-Keeps}
use ctech_wallet.Service.Deposit.SagaKeeps.{KeptByRefunds}
use ctech_wallet.Service.Deposit.Books.{AnswersSoundly}
use ctech_wallet.Service.Reconcile.{reconcile_withdrawals}
use ctech_wallet.Service.Reconcile.Books.{IsTidyIndex, reconcile_withdrawals-Keeps}

-- eventEnvelope
pub record Envelope : Type 0 where
  pub type : String
  pub object : String
  pub id : String

-- What BillingEvents is wired with, json.Unmarshal into an envelope, and the time of the delivery.
-- InvoiceByID reads Billing; no reconciler is nil.
pub record BillingEvents : Type 0 where
  pub secret : String
  pub crypto : Crypto
  pub decode : String → Option Envelope
  pub invoice_by_id : String → World → Reply Invoice
  pub has_withdrawals : Bool
  pub now : ℤ

-- The body of a delivery and the headers that sign it.
pub record Delivery : Type 0 where
  pub signature : String
  pub timestamp : String
  pub body : String

-- Five minutes in nanoseconds.
abbrev pub event_skew : ℤ
event_skew = pos 300000000000

abbrev pub is_payout : Envelope → Bool
is_payout ev = (ev.type == "payout.done" || ev.type == "payout.failed") && ev.object == "payout"

abbrev pub is_paid_invoice : Envelope → Bool
is_paid_invoice ev = ev.type == "invoice.paid" && ev.object == "invoice" && not (ev.id == "")

-- The status that answers a call that the event woke.
abbrev pub woken : {A : Type 0} → Result A → World → Result ℕ × World
woken (ok a) = pure 200
woken (err e) = pure 503

module _ (env : Env) (q : Indexes) where
  unfoldable pub invoice_read : Reply Invoice → World → Result ℕ × World
  invoice_read (answered inv) =
      if inv.txid == ""
      then pure 200
      else (do done ← attempt (confirm_deposit env inv.txid "" ""); woken done)
  invoice_read missing = pure 200
  invoice_read clash = pure 502
  invoice_read (failed e) = pure 502

  module _ (e : BillingEvents) where
    unfoldable pub dispatch : Envelope → World → Result ℕ × World
    unfolding invoice_read
    dispatch ev w =
        if is_payout ev && e.has_withdrawals
        then (do done ← attempt (reconcile_withdrawals env q); woken done) w
        else if not (is_paid_invoice ev)
        then pure 200 w
        else invoice_read (e.invoice_by_id ev.id w) w

    unfoldable pub decoded : Option Envelope → World → Result ℕ × World
    unfolding dispatch
    decoded none = pure 400
    decoded (some ev) = dispatch ev

    abbrev pub is_signed : Delivery → Bool
    is_signed d = verify_signature e.crypto e.secret d.signature d.timestamp d.body e.now event_skew

    -- handle
    unfoldable pub handle : Delivery → World → Result ℕ × World
    unfolding decoded
    handle d = if is_signed d then decoded (e.decode d.body) else pure 401

-- A call that wakes something moves the state as the call does.
woken_state :
    {A : Type 0} (m : World → Result A × World) (w : World)
    → ((do done ← attempt m; woken done) w).1 ≡ (m w).1
woken_state m w = elim (Result-cases (m w).0) [
  | inl (x, bad) ↦ rw bad refl
  | inr (a, good) ↦ rw good refl
]

module _ (env : Env) (q : Indexes) (e : BillingEvents) (d : Delivery) (w : World) where
  -- The reconciliation ran, or the confirmation of the deposit that an invoice named, as Billing
  -- answered when it was asked for the invoice of the event.
  abbrev pub Wakes : World → Type 0
  Wakes w' =
      (w' ≡ (reconcile_withdrawals env q w).1)
      ⊎ ((ev : Envelope) × (inv : Invoice) × (e.decode d.body ≡ some ev)
          × (e.invoice_by_id ev.id w ≡ answered inv)
          × (w' ≡ (confirm_deposit env inv.txid "" "" w).1))

  invoice-Wakes :
      (ev : Envelope) (r : Reply Invoice)
      → e.decode d.body ≡ some ev
      → e.invoice_by_id ev.id w ≡ r
      → ((invoice_read env q r w).1 ≡ w) ⊎ Wakes (invoice_read env q r w).1
  unfolding invoice_read
  invoice-Wakes ev (answered inv) found read = elim (Bool-cases (inv.txid == "")) [
    | inl other ↦ rw other (inl refl)
    | inr named ↦
        rw named
          (inr (inr (ev, inv, found, read, woken_state (confirm_deposit env inv.txid "" "") w)))
  ]
  invoice-Wakes ev missing found read = inl refl
  invoice-Wakes ev clash found read = inl refl
  invoice-Wakes ev (failed x) found read = inl refl

  dispatch-Wakes :
      (ev : Envelope)
      → e.decode d.body ≡ some ev
      → ((dispatch env q e ev w).1 ≡ w) ⊎ Wakes (dispatch env q e ev w).1
  unfolding dispatch
  dispatch-Wakes ev named = elim (Bool-cases (is_payout ev && e.has_withdrawals)) [
    | inl payout ↦ rw payout (inr (inl (woken_state (reconcile_withdrawals env q) w)))
    | inr other ↦ rw other (elim (Bool-cases (is_paid_invoice ev)) [
      | inl paid ↦ rw paid (invoice-Wakes ev (e.invoice_by_id ev.id w) named refl)
      | inr off ↦ rw off (inl refl)
    ])
  ]

  decoded-Wakes :
      (o : Option Envelope)
      → e.decode d.body ≡ o
      → ((decoded env q e o w).1 ≡ w) ⊎ Wakes (decoded env q e o w).1
  unfolding decoded
  decoded-Wakes none eq = inl refl
  decoded-Wakes (some ev) eq = dispatch-Wakes ev eq

  -- An event only wakes: a delivery leaves the state alone, or it is signed, with the secret, over
  -- its time and body, within the window, and what it does is the reconciliation of withdrawals, or
  -- the confirmation of the deposit that Billing itself names for the event's invoice.
  pub handle_only-Wakes :
      let w' = (handle env q e d w).1 in (w' ≡ w) ⊎ ((is_signed env q e d ≡ true) × Wakes w')
  unfolding handle
  handle_only-Wakes = elim (Bool-cases (is_signed env q e d)) [
    | inl signed ↦ rw signed (elim (decoded-Wakes (e.decode d.body) refl) [
      | inl same ↦ inl same
      | inr wakes ↦ inr (refl, wakes)
    ])
    | inr unsigned ↦ rw unsigned (inl refl)
  ]

pub handle-Keeps :
    (env : Env) (q : Indexes) (e : BillingEvents) (d : Delivery) (R : World → Type 0)
    → IsDynamo env.dynamo
    → ClosedWorld env R
    → KeptByRefunds R
    → ((w : World) → R w → IsTidy w.db)
    → IsTidyIndex q
    → AnswersSoundly env
    → Keeps R (handle env q e d)
handle-Keeps env q e d R law closed logs tidy index answers w h =
    elim (handle_only-Wakes env q e d w) [
      | inl same ↦ rw same h
      | inr (signed, inl batch) ↦
          rw batch (reconcile_withdrawals-Keeps env q R law closed tidy index w h)
      | inr (signed, inr (ev, inv, found, read, one)) ↦
          rw one (confirm_deposit-Keeps env R closed logs answers inv.txid "" "" w h)
    ]
