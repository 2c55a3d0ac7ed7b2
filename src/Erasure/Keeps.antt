-- ===== src/Erasure/Keeps.antt =====
-- What the purge keeps: the money, and the length of every carried self-exclusion.
use ctech_wallet.Prelude.{
  String, false, ◌≡◌, inl, inr, refl, ℕ, ◌+◌, Option, none, some, List, [], ◌∷◌, Bool-cases, leb,
  ◌&&◌, ◌==◌,
}
use ctech_wallet.Prelude.Int.{ℤ, ◌-ℤ◌}
use ctech_wallet.Domain.Model.{PixDeposit, Withdrawal, SelfExclusion, DepositStatus}
use ctech_wallet.Store.Problem.{Result, reads, bind_keeps}
use ctech_wallet.Store.Tables.{same_deposit_status}
use ctech_wallet.Store.Dynamo.{Written, done, refused, broken}
use ctech_wallet.Wallets.{load_wallets}
use ctech_wallet.Service.{Charge}
use ctech_wallet.Service.Initiate.{unix}
use ctech_wallet.Erasure.{
  Vault, Sources, Change, strip_deposit, strip_withdrawal, erase_user, strip_audit, AuditRow,
  Identity, passed, change_once, retain_row, strip_deposit_pii, strip_withdrawal_pii,
  erase_user_profile, anonymize_each, anonymize_audit, put_carried_self_exclusion,
  open_holds_for_user,
}
use ctech_wallet.Erasure.Blockers.{
  Checks, ask_paid, check_row, check_rows, paid_deposit_blockers, pending_purchases, blockers,
  max_deposit_checks, charge_validity, after_or,
}
use ctech_wallet.Erasure.Purge.{
  carry_known, carry_decided, carry_self_exclusion, retain_deposits, retain_withdrawals,
}

abbrev pub KeepsVault : (Vault → Type 0) → {A : Type 0} → (Vault → Result A × Vault) → Type 0
KeepsVault P m = (v : Vault) → P v → P (m v).1

-- The reads of the blockers leave the state alone.
module _ (s : Sources) (P : Vault → Type 0) where
  ask_paid-Keeps :
      (d : PixDeposit) (n : Checks) (q : Option (String → Vault → Result Charge))
      → KeepsVault P (ask_paid s d n q)
  unfolding ask_paid
  ask_paid-Keeps d n none v h = h
  ask_paid-Keeps d (payable, paid, unchecked) (some query) v h =
      elim (Bool-cases (leb max_deposit_checks (paid + unchecked))) [
        | inl enough ↦ rw enough h
        | inr few ↦ rw few (bind_keeps P (reads (query d.txid)) _ v h (λ c e. h))
      ]

  check_row-Keeps : (valid : ℤ) (d : PixDeposit) (n : Checks) → KeepsVault P (check_row s valid d n)
  unfolding check_row
  check_row-Keeps valid d n v h =
      elim (Bool-cases (same_deposit_status d.status DepositStatus.pending)) [
        | inl pending ↦
            elim (Bool-cases (after_or false valid (s.calendar.parse_nano d.created_at))) [
              | inl fresh ↦ rw (pending, fresh) h
              | inr old ↦ rw (pending, old) (ask_paid-Keeps d n s.query_charge v h)
            ]
        | inr other ↦ rw other h
      ]

  check_rows-Keeps :
      (valid : ℤ) (ds : List PixDeposit) (n : Checks) → KeepsVault P (check_rows s valid ds n)
  unfolding check_rows
  check_rows-Keeps valid [] n v h = h
  check_rows-Keeps valid (d ∷ ds) n v h =
      let kept = check_row-Keeps valid d n v h in
      bind_keeps P (check_row s valid d n) _ v kept (λ n' e. check_rows-Keeps valid ds n' _ kept)

  pub paid_deposit_blockers-Keeps :
      (ds : List PixDeposit) → KeepsVault P (paid_deposit_blockers s ds)
  unfolding paid_deposit_blockers
  paid_deposit_blockers-Keeps ds v h =
      let kept = check_rows-Keeps (s.now v -ℤ charge_validity) ds (0, 0, 0) v h in
      bind_keeps P (check_rows s (s.now v -ℤ charge_validity) ds (0, 0, 0)) _ v kept (λ n e. kept)

  pub pending_purchases-Keeps : (sub : String) → KeepsVault P (pending_purchases s sub)
  unfolding pending_purchases
  pending_purchases-Keeps sub v h =
      bind_keeps P (reads (s.sandbox_purchases sub)) _ v h
        (λ a e. bind_keeps P (reads (s.product_purchases sub)) _ v h (λ b e2. h))

  pub open_holds-Keeps : (sub : String) → KeepsVault P (open_holds_for_user s sub)
  unfolding open_holds_for_user
  open_holds-Keeps sub v h = bind_keeps P (reads (s.holds_of sub)) _ v h (λ a e. h)

  pub blockers-Keeps : (sub : String) → KeepsVault P (blockers s sub)
  unfolding blockers
  blockers-Keeps sub v h =
      bind_keeps P (reads (λ x. (load_wallets s.dynamo sub x.db).0)) _ v h (λ ws e1.
        let k2 = open_holds-Keeps sub v h in
        bind_keeps P (open_holds_for_user s sub) _ v k2 (λ holds e2.
          let v2 = (open_holds_for_user s sub v).1 in
          bind_keeps P (reads (s.deposits_of sub)) _ v2 k2 (λ deps e3.
            let k4 = paid_deposit_blockers-Keeps deps v2 k2 in
            bind_keeps P (paid_deposit_blockers s deps) _ v2 k4 (λ q e4.
              let v4 = (paid_deposit_blockers s deps v2).1 in
              bind_keeps P (reads (s.withdrawals_of sub)) _ v4 k4 (λ wds e5.
                let k6 = pending_purchases-Keeps sub v4 k4 in
                bind_keeps P (pending_purchases s sub) _ v4 k6 (λ n e6. k6))))))

-- A property of the state that every change keeps.
abbrev pub ClosedVault : Sources → (Vault → Type 0) → Type 0
ClosedVault s P = (c : Change) (v : Vault) → P v → P (s.change c v).1

pub passed_state : (s : Sources) (w : Written) (v : Vault) → (passed s w v).1 ≡ v
passed_state s done v = refl
passed_state s refused v = refl
passed_state s (broken message) v = refl

module _ (s : Sources) (P : Vault → Type 0) (closed : ClosedVault s P) where
  pub change_once-Keeps : (c : Change) → KeepsVault P (change_once s c)
  unfolding change_once
  change_once-Keeps c v h = rw (passed_state s (s.change c v).0 (s.change c v).1) (closed c v h)

  module _ (sub : String) where
    put_carried-Keeps :
        (hmac : String) (ex : SelfExclusion) (ttl : ℤ)
        → KeepsVault P (put_carried_self_exclusion s hmac ex ttl)
    unfolding put_carried_self_exclusion
    put_carried-Keeps hmac ex ttl = change_once-Keeps _

    carry_known-Keeps :
        (ex : SelfExclusion) (end : ℤ) (k : Option Identity)
        → KeepsVault P (carry_known s sub ex end k)
    unfolding carry_known
    carry_known-Keeps ex end none v h = h
    carry_known-Keeps ex end (some k) v h = elim (Bool-cases (k.cpf == "")) [
      | inl unknown ↦ rw unknown h
      | inr known ↦ elim (Bool-cases (k.cpf_hmac == "")) [
        | inl missing ↦ rw (known, missing) h
        | inr keyed ↦
            let kept = put_carried-Keeps k.cpf_hmac ex (unix end) v h in
            rw (known, keyed)
              (bind_keeps P (put_carried_self_exclusion s k.cpf_hmac ex (unix end)) _ v kept
                (λ u e. kept))
      ]
    ]

    carry_decided-Keeps : (o : Option (SelfExclusion × ℤ)) → KeepsVault P (carry_decided s sub o)
    unfolding carry_decided
    carry_decided-Keeps none v h = h
    carry_decided-Keeps (some c) v h =
        bind_keeps P (reads (s.get_identity sub)) _ v h (λ k e. carry_known-Keeps c.0 c.1 k v h)

    pub carry_self_exclusion-Keeps : (now : ℤ) → KeepsVault P (carry_self_exclusion s sub now)
    unfolding carry_self_exclusion
    carry_self_exclusion-Keeps now v h =
        bind_keeps P (reads (λ x. s.dynamo.get_user sub x.db)) _ v h
          (λ u e. carry_decided-Keeps _ v h)

    pub retain_deposits-Keeps :
        (until : ℤ) (n : ℕ) (ds : List PixDeposit) → KeepsVault P (retain_deposits s sub until n ds)
    unfolding retain_deposits retain_row strip_deposit_pii
    retain_deposits-Keeps until n [] v h = h
    retain_deposits-Keeps until n (d ∷ ds) v h =
        elim (Bool-cases (d.payer_cpf == "" && d.payer_name == "")) [
          | inl clean ↦ rw clean (retain_deposits-Keeps until n ds v h)
          | inr named ↦
              let k1 = change_once-Keeps _ v h in
              rw named (
                bind_keeps P (change_once s _) _ v k1 (λ u e.
                  let k2 = change_once-Keeps (strip_deposit d.txid) _ k1 in
                  bind_keeps P (change_once s (strip_deposit d.txid)) _ _ k2
                    (λ u2 e2. retain_deposits-Keeps until (n + 1) ds _ k2)))
        ]

    pub retain_withdrawals-Keeps :
        (until : ℤ) (n : ℕ) (ws : List Withdrawal)
        → KeepsVault P (retain_withdrawals s sub until n ws)
    unfolding retain_withdrawals retain_row strip_withdrawal_pii
    retain_withdrawals-Keeps until n [] v h = h
    retain_withdrawals-Keeps until n (w ∷ ws) v h = elim (Bool-cases (w.pix_key == "")) [
      | inl clean ↦ rw clean (retain_withdrawals-Keeps until n ws v h)
      | inr named ↦
          let k1 = change_once-Keeps _ v h in
          rw named (
            bind_keeps P (change_once s _) _ v k1 (λ u e.
              let k2 = change_once-Keeps (strip_withdrawal w.withdrawal_id) _ k1 in
              bind_keeps P (change_once s (strip_withdrawal w.withdrawal_id)) _ _ k2
                (λ u2 e2. retain_withdrawals-Keeps until (n + 1) ws _ k2)))
    ]

    pub erase_user_profile-Keeps : KeepsVault P (erase_user_profile s sub)
    unfolding erase_user_profile
    erase_user_profile-Keeps v h =
        let kept = change_once-Keeps (erase_user sub) v h in
        bind_keeps P (change_once s (erase_user sub)) _ v kept (λ u e. kept)

    anonymize_each-Keeps : (n : ℕ) (rs : List AuditRow) → KeepsVault P (anonymize_each s sub n rs)
    unfolding anonymize_each
    anonymize_each-Keeps n [] v h = h
    anonymize_each-Keeps n (r ∷ rs) v h = elim (Bool-cases (r.ip == "" && r.user_agent == "")) [
      | inl clean ↦ rw clean (anonymize_each-Keeps n rs v h)
      | inr named ↦
          let kept = change_once-Keeps (strip_audit sub r.sk) v h in
          rw named (
            bind_keeps P (change_once s (strip_audit sub r.sk)) _ v kept
              (λ u e. anonymize_each-Keeps (n + 1) rs _ kept))
    ]

    pub anonymize_audit-Keeps : KeepsVault P (anonymize_audit s sub)
    unfolding anonymize_audit
    anonymize_audit-Keeps v h =
        bind_keeps P (reads (s.audit_of sub)) _ v h (λ rs e. anonymize_each-Keeps 0 rs v h)
