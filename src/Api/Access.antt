-- ===== src/Api/Access.antt =====
-- api/internal/middleware/scope.go: what a caller's token has to hold before a user route runs, and
-- the checks of the two money routes in api/internal/api/v1/router.go.
use ctech_wallet.Prelude.{
  String, Bool, true, false, not, ◌==◌, ℕ, ◌≡◌, ◌≢◌, ◌↔◌, ◌⊎◌, inl, inr, Option, none, some, List,
  [], ◌∷◌, if◌then◌else◌, Bool-cases, arith, eq_iff,
}
use ctech_wallet.Prelude.Lists.{All}
use text.Mathlib.Text.{starts_with}

-- jwtverify.Claims, as far as the middleware reads it. An M2M token has an empty sid.
pub record Claims : Type 0 where
  pub sub : String
  pub sid : String
  pub kyc_level : String
  pub scopes : List String

pub data Refusal : Type 0 where
  unauthorized forbidden kyc_not_verified : Refusal
  -- of another package, with its status
  refused_with : ℕ → Refusal

abbrev pub is_public : String → Bool
is_public scope = starts_with scope "wallet:"

-- The loop of AllowsUserScope; the flag says that a wallet scope was seen.
unfoldable pub scope_granted : String → Bool → List String → Bool
scope_granted required delegated [] = not delegated
scope_granted required delegated (s ∷ ss) =
    let narrowed = scope_granted required true ss in
    let rest = scope_granted required delegated ss in
    if is_public s then if s == required then true else narrowed else rest

-- AllowsUserScope
unfoldable pub allows_user_scope : Option Claims → String → Bool
unfolding scope_granted
allows_user_scope none required = false
allows_user_scope (some cl) required = scope_granted required false cl.scopes

-- RequireUserScope
unfoldable pub require_user_scope : String → Option Claims → Option Refusal
unfolding allows_user_scope
require_user_scope required cl = if allows_user_scope cl required then none else some forbidden

-- RequireUser
unfoldable pub require_user : Option Claims → Option Refusal
require_user none = some unauthorized
require_user (some cl) = if cl.sid == "" then some forbidden else none

-- RequireKYC; a minimum that is neither level asks for nothing.
unfoldable pub require_kyc : String → Option Claims → Option Refusal
require_kyc min none = some unauthorized
require_kyc min (some cl) =
    if min == "enhanced"
    then if cl.kyc_level == "enhanced" then none else some kyc_not_verified
    else if min == "basic"
    then if cl.kyc_level == "" then some kyc_not_verified else none
    else none

abbrev pub and_next : Option Refusal → Option Refusal → Option Refusal
and_next (some r) next = some r
and_next none next = next

-- The handlers of other packages in front of the money routes, as one request meets them: the rate
-- limit, RequireRecentMFA, RequireUnrevoked and the idempotency of requests.
pub record Around : Type 0 where
  pub limit_money : Option Claims → Option Refusal
  pub recent_mfa : Option Claims → Option Refusal
  pub fresh : Option Claims → Option Refusal
  pub idempotent : Option Claims → Option Refusal

module _ (r : Around) where
  -- What stands before createDeposit, once the token is verified, in its order.
  unfoldable pub deposit_route : Option Claims → Option Refusal
  unfolding require_user require_user_scope require_kyc
  deposit_route cl = and_next (require_user cl) (
      and_next (r.limit_money cl) (
        and_next (require_user_scope "wallet:deposits:write" cl)
          (and_next (require_kyc "enhanced" cl) (and_next (r.fresh cl) (r.idempotent cl)))))

  -- What stands before createWithdrawal: a recent second factor as well.
  unfoldable pub withdrawal_route : Option Claims → Option Refusal
  unfolding require_user require_user_scope require_kyc
  withdrawal_route cl = and_next (require_user cl) (
      and_next (r.limit_money cl) (
        and_next (require_user_scope "wallet:withdrawals:write" cl) (
          and_next (require_kyc "enhanced" cl)
            (and_next (r.recent_mfa cl) (and_next (r.fresh cl) (r.idempotent cl))))))

abbrev pub IsForeign : String → Type 0
IsForeign s = is_public s ≡ false

-- One of the scopes is the wallet scope that the route asks for.
abbrev pub Holds : String → List String → Type 0
Holds required [] = ⊥
Holds required (s ∷ ss) = ((is_public s ≡ true) × (s ≡ required)) ⊎ Holds required ss

-- A token without any wallet scope is one of the first party, else the scope has to be in it.
abbrev pub MayUse : String → List String → Type 0
MayUse required scopes = All IsForeign scopes ⊎ Holds required scopes

scope_granted_iff :
    (required : String) (delegated : Bool) (ss : List String)
    → (scope_granted required delegated ss ≡ true)
      ↔ (((delegated ≡ false) × All IsForeign ss) ⊎ Holds required ss)
unfolding scope_granted
scope_granted_iff required true [] = ground arith
scope_granted_iff required false [] = ground arith
scope_granted_iff required delegated (s ∷ ss) =
    let ih = scope_granted_iff required delegated ss in
    let narrowed = scope_granted_iff required true ss in
    let same = eq_iff s required in
    elim (Bool-cases (is_public s)) [
      | inl wallet ↦ rw wallet (ground (arith, narrowed, same))
      | inr foreign ↦ rw foreign (ground (arith, ih))
    ]

-- Lets a request pass.
abbrev pub Passes : Option Refusal → Type 0
Passes o = o ≡ none

-- A token of a user's session, with the full verification, that may use a scope.
abbrev pub IsEntitled : String → Claims → Type 0
IsEntitled scope cl = (cl.sid ≢ "") × (cl.kyc_level ≡ "enhanced") × MayUse scope cl.scopes

-- The two money routes let a verified token pass exactly when the handlers of other packages do (for
-- a withdrawal the second factor too), the token is of a user's session with the full verification,
-- and it carries either no wallet scope at all or the one that the route asks for.
pub money_route_iff :
    (r : Around) (cl : Claims)
    → let c = some cl in
      let others = Passes (r.limit_money c) × Passes (r.fresh c) × Passes (r.idempotent c) in
      (Passes (deposit_route r c) ↔ (others × IsEntitled "wallet:deposits:write" cl))
      × (Passes (withdrawal_route r c)
          ↔ (others × Passes (r.recent_mfa c) × IsEntitled "wallet:withdrawals:write" cl))
unfolding deposit_route withdrawal_route allows_user_scope
money_route_iff r cl =
    let deposits = scope_granted_iff "wallet:deposits:write" false cl.scopes in
    let withdrawals = scope_granted_iff "wallet:withdrawals:write" false cl.scopes in
    let session = eq_iff cl.sid "" in
    let level = eq_iff cl.kyc_level "enhanced" in
    (ground (arith, deposits, session, level), ground (arith, withdrawals, session, level))
