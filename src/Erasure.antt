-- ===== src/Erasure.antt =====
-- api/internal/repositories/erasure.go: what the account-deletion purge reads and writes, beside the
-- wallet's own tables. Page loops over a user's rows are one read here; DynamoDB is a parameter.
pub mod Exclusion
pub mod Blockers
pub mod Purge
pub mod Keeps
pub mod Safe
pub mod Retains
pub mod Settled
pub mod Clear
pub mod Asks
use ctech_wallet.Prelude.{
  String, Bool, true, false, not, ◌&&◌, ◌||◌, ◌==◌, ◌≡◌, ◌≢◌, ◌⊎◌, inl, inr, ℕ, ◌+◌, Option, none,
  some, List, [], ◌∷◌, if◌then◌else◌,
}
use ctech_wallet.Prelude.Int.{ℤ, ltb_ℤ, leb_ℤ}
use ctech_wallet.Prelude.Table.{Table, write, has}
use ctech_wallet.Domain.Model.{PixDeposit, Withdrawal, Hold, HoldStatus, SelfExclusion, User}
use ctech_wallet.Domain.Calendar.{Calendar}
use ctech_wallet.Store.Problem.{Result, ok, outage, ◌>>=◌, ◌>>◌, pure, raise, reads}
use ctech_wallet.Store.Tables.{Db, adjust, same_hold_status}
use ctech_wallet.Store.Dynamo.{Dynamo, Moment, Written, done, refused, broken}
use ctech_wallet.Service.{Charge}
use ctech_wallet.Service.Digest.{prefixed}

-- The row that a retained record copies.
pub data Item : Type 0 where
  deposit_item : PixDeposit → Item
  withdrawal_item : Withdrawal → Item

-- retainedRecord, without its dates of the copy.
pub record Retained : Type 0 where
  pub source : String
  pub item : Item
  pub retain_until : ℤ

-- carriedExclusion, its time to live in seconds.
pub record Carried : Type 0 where
  pub self_exclusion : SelfExclusion
  pub ttl : ℤ

-- An AuditEvent, as far as the purge looks at it.
pub record AuditRow : Type 0 where
  pub sk : String
  pub ip : String
  pub user_agent : String

-- The wallet's tables, the retention table by its key and sort key, the exclusions that outlive
-- their accounts, and the audit rows of each user.
pub record Vault : Type 0 where
  pub db : Db
  pub retained : String → Table Retained
  pub carried : Table Carried
  pub audit : String → List AuditRow

pub data Change : Type 0 where
  -- key, sort key
  retain : String → String → Retained → Change
  strip_deposit strip_withdrawal erase_user : String → Change
  -- user, sort key
  strip_audit : String → String → Change
  carry : String → Carried → Change

abbrev carry_condition : Option Carried → Carried → Bool
carry_condition none new = true
carry_condition (some old) new = ltb_ℤ old.ttl new.ttl

unfoldable pub allows : Change → Vault → Bool
allows (retain pk sk r) v = not (has (v.retained pk sk))
allows (carry k c) v = carry_condition (v.carried k) c
allows _ v = true

abbrev without_agent : String → List AuditRow → List AuditRow
without_agent sk [] = []
without_agent sk (r ∷ rs) =
    let rest = without_agent sk rs in
    if r.sk == sk then record r { ip = ""; user_agent = "" } ∷ rest else r ∷ rest

-- The updates also stamp erased_at, which nothing here reads. One of an absent row does nothing.
unfoldable pub applied : Change → Vault → Vault
applied (retain pk sk r) v = record v {
  retained = λ k. if k == pk then write sk r (v.retained pk) else v.retained k;
}
applied (strip_deposit txid) v = record v {
  db = record v.db {
    deposits = adjust txid (λ d. record d { payer_cpf = ""; payer_name = "" }) v.db.deposits;
  };
}
applied (strip_withdrawal id) v = record v {
  db = record v.db { withdrawals = adjust id (λ w. record w { pix_key = "" }) v.db.withdrawals };
}
applied (erase_user user) v = record v {
  db = record v.db {
    users =
        adjust user
          (λ u. record u {
            self_exclusion = none;
            game_limits = none;
            game_deposit_counters = none;
            real_daily_counters = none;
          })
          v.db.users;
  };
}
applied (strip_audit user sk) v = record v {
  audit = λ k. if k == user then without_agent sk (v.audit user) else v.audit k;
}
applied (carry k c) v = record v { carried = write k c v.carried }

-- A purchase, as far as the blockers look at it.
pub record Purchase : Type 0 where
  pub status : String
  pub created_at : String

-- The identity that the account service keeps; no row is nil.
pub record Identity : Type 0 where
  pub cpf : String
  pub cpf_hmac : String

-- What the service stands on. A nil ChargeQuerier is `none`. Each read gives all of a user's rows.
pub record Sources : Type 0 where
  pub dynamo : Dynamo
  pub calendar : Calendar
  pub now : Vault → ℤ
  pub wallet_url : String
  pub change : Change → Vault → Written × Vault
  pub deposits_of : String → Vault → Result (List PixDeposit)
  pub withdrawals_of : String → Vault → Result (List Withdrawal)
  pub holds_of : String → Vault → Result (List Hold)
  pub audit_of : String → Vault → Result (List AuditRow)
  pub sandbox_purchases : String → Vault → Result (List Purchase)
  pub product_purchases : String → Vault → Result (List Purchase)
  pub query_charge : Option (String → Vault → Result Charge)
  pub get_identity : String → Vault → Result (Option Identity)

-- A change is made or not, and a refusal says that its condition failed. One that ends with another
-- error may still have been made.
pub record IsAtomic (s : Sources) : Type 0 where
  pub atomic :
      (c : Change) (v : Vault)
      → (((s.change c v).1 ≡ v) × ((s.change c v).0 ≢ done))
        ⊎ ((allows c v ≡ true) × ((s.change c v).1 ≡ applied c v) × ((s.change c v).0 ≢ refused))
  pub refused_only : (c : Change) (v : Vault) → (s.change c v).0 ≡ refused → allows c v ≡ false

pub change_keeps :
    (P : Vault → Type 0) (s : Sources) (law : IsAtomic s) (c : Change) (v : Vault)
    → P v
    → (allows c v ≡ true → P (applied c v))
    → P (s.change c v).1
change_keeps P s law c v before after = elim (law.atomic c v) [
  | inl (same, _) ↦ rw same before
  | inr (h, made, _) ↦ rw made (after h)
]

module _ (s : Sources) where
  abbrev pub passed : Written → Vault → Result Unit × Vault
  passed done = pure tt
  passed refused = pure tt
  passed (broken message) = raise (outage message)

  -- A change whose condition failure is passed over.
  unfoldable pub change_once : Change → Vault → Result Unit × Vault
  change_once c v = let (w, v') = s.change c v in passed w v'

  -- RetentionSK
  unfoldable pub retention_sk : String → String → String
  retention_sk source key = prefixed (prefixed source "#") key

  -- Retain
  unfoldable pub retain_row : String → String → String → Item → ℤ → Vault → Result Unit × Vault
  unfolding change_once retention_sk
  retain_row sub source key item until = change_once (
      retain (prefixed "SUB#" sub) (retention_sk source key)
        (record { source = source; item = item; retain_until = until }))

  -- StripDepositPII
  unfoldable pub strip_deposit_pii : String → Vault → Result Unit × Vault
  unfolding change_once
  strip_deposit_pii txid = change_once (strip_deposit txid)

  -- StripWithdrawalPII
  unfoldable pub strip_withdrawal_pii : String → Vault → Result Unit × Vault
  unfolding change_once
  strip_withdrawal_pii id = change_once (strip_withdrawal id)

  -- EraseUserProfile: whether the user had a row.
  unfoldable pub erase_user_profile : String → Vault → Result Bool × Vault
  unfolding change_once
  erase_user_profile user = do
    had ← reads (λ v. ok (has (v.db.users user)))
    change_once (erase_user user)
    pure had

  unfoldable pub anonymize_each : String → ℕ → List AuditRow → Vault → Result ℕ × Vault
  unfolding change_once
  anonymize_each user n [] = pure n
  anonymize_each user n (r ∷ rs) =
      if r.ip == "" && r.user_agent == ""
      then anonymize_each user n rs
      else (do change_once (strip_audit user r.sk); anonymize_each user (n + 1) rs)

  -- AnonymizeAudit
  unfoldable pub anonymize_audit : String → Vault → Result ℕ × Vault
  unfolding anonymize_each
  anonymize_audit user = do rows ← reads (s.audit_of user); anonymize_each user 0 rows

  abbrev pub open_only : List Hold → List Hold
  open_only [] = []
  open_only (h ∷ hs) =
      let rest = open_only hs in
      if same_hold_status h.status HoldStatus.held then h ∷ rest else rest

  -- OpenHoldsForUser
  unfoldable pub open_holds_for_user : String → Vault → Result (List Hold) × Vault
  open_holds_for_user user = do all ← reads (s.holds_of user); pure (open_only all)

  -- PutCarriedSelfExclusion, its end in seconds.
  unfoldable pub put_carried_self_exclusion :
      String → SelfExclusion → ℤ → Vault → Result Unit × Vault
  unfolding change_once
  put_carried_self_exclusion cpf_hmac ex ttl =
      change_once
        (carry (prefixed "SELFEXCL#" cpf_hmac) (record { self_exclusion = ex; ttl = ttl }))
