-- ===== src/Store/Problem.antt =====
-- api/internal/walletproblem/walletproblem.go: the answers a client branches on, the other Go
-- errors the code tells apart, and an action that reads and writes the database and may fail.
-- What was written before an error stays written.
use ctech_wallet.Prelude.{◌≡◌, ◌⊎◌, inl, inr, refl, arith}
use ctech_wallet.Prelude.{String, Bool, true, false}
use ctech_wallet.Prelude.Int.{ℤ}
use ctech_wallet.Domain.Daily.{BreachKind}

pub data Problem : Type 0 where
  insufficient_balance wallet_busy kyc_not_verified idempotency_conflict : Problem
  pix_key_not_found gambling_not_activated account_erasure_pending : Problem
  deposit_out_of_range : ℤ → ℤ → Problem
  amount_above_limit : ℤ → Problem
  self_excluded : String → Problem
  daily_deposit_limit : ℤ → ℤ → ℤ → Problem
  daily_withdraw_limit : BreachKind → ℤ → ℤ → ℤ → Problem
  not_found bad_request forbidden conflict internal_server : String → Problem

-- `outage` is any error of a service the code calls and does not look into; `condition_failed`
-- is the raw condition failure of a write, where the code passes it on; `panicked` is a nil
-- pointer that the code reads through.
pub data Error : Type 0 where
  problem : Problem → Error
  deposit_exists withdrawal_exists key_not_found condition_failed panicked : Error
  outage : String → Error

pub data Result (A : Type 0) : Type 0 where
  ok : A → Result A
  err : Error → Result A

-- Err as a Boolean.
abbrev pub is_ok : {A : Type 0} → Result A → Bool
is_ok (ok a) = true
is_ok (err e) = false

module _ {S : Type 0} where
  abbrev pub continue : {A B : Type 0} → Result A → (A → S → Result B × S) → S → Result B × S
  continue (ok a) f s = f a s
  continue (err e) f s = (err e, s)

  infixl 5 ◌>>=◌ ◌>>◌
  abbrev pub ◌>>=◌ : {A B : Type 0} → (S → Result A × S) → (A → S → Result B × S) → S → Result B × S
  ◌>>=◌ m f s = let (r, s') = m s in continue r f s'

  abbrev pub ◌>>◌ : {A B : Type 0} → (S → Result A × S) → (S → Result B × S) → S → Result B × S
  ◌>>◌ m k = m >>= λ _. k

  abbrev pub pure : {A : Type 0} → A → S → Result A × S
  pure a s = (ok a, s)

  abbrev pub raise : {A : Type 0} → Error → S → Result A × S
  raise e s = (err e, s)

  -- A read, or any call that leaves the state alone.
  abbrev pub reads : {A : Type 0} → (S → Result A) → S → Result A × S
  reads f s = (f s, s)

  -- The error of a call as a value, where the code goes on after it.
  abbrev pub attempt : {A : Type 0} → (S → Result A × S) → S → Result (Result A) × S
  attempt m s = let (r, s') = m s in (ok r, s')

-- A split on an answer that keeps the equation.
pub Result-cases :
    {A : Type 0} (r : Result A) → ((e : Error) × (r ≡ err e)) ⊎ ((a : A) × (r ≡ ok a))
Result-cases (err e) = inl (e, refl)
Result-cases (ok a) = inr (a, refl)

module _ {S : Type 0} where
  continue_keeps :
      {A B : Type 0} (P : S → Type 0) (f : A → S → Result B × S) (r : Result A) (s : S)
      → P s
      → ((a : A) → r ≡ ok a → P (f a s).1)
      → P (continue r f s).1
  continue_keeps P f (ok a) s h k = k a refl
  continue_keeps P f (err e) s h k = h

  -- A property of the state across a bind: the second part may use what the first answered.
  pub bind_keeps :
      {A B : Type 0} (P : S → Type 0) (m : S → Result A × S) (f : A → S → Result B × S) (s : S)
      → P (m s).1
      → ((a : A) → (m s).0 ≡ ok a → P (f a (m s).1).1)
      → P ((m >>= f) s).1
  bind_keeps P m f s h k = continue_keeps P f (m s).0 (m s).1 h k

  continue_same :
      {A B : Type 0} (f g : A → S → Result B × S) (r : Result A) (s : S)
      → ((a : A) → r ≡ ok a → f a s ≡ g a s)
      → continue r f s ≡ continue r g s
  continue_same f g (ok a) s k = k a refl
  continue_same f g (err e) s k = refl

  -- Two binds after the same first part.
  pub bind_same :
      {A B : Type 0} (m : S → Result A × S) (f g : A → S → Result B × S) (s : S)
      → ((a : A) → (m s).0 ≡ ok a → f a (m s).1 ≡ g a (m s).1)
      → (m >>= f) s ≡ (m >>= g) s
  bind_same m f g s k = continue_same f g (m s).0 (m s).1 k

  continue_ok :
      {A B : Type 0} (f : A → S → Result B × S) (r : Result A) (s : S) {b : B} {s' : S}
      → continue r f s ≡ (ok b, s')
      → (a : A) × (r ≡ ok a) × (f a s ≡ (ok b, s'))
  continue_ok f (ok a) s h = (a, refl, h)
  continue_ok f (err e) s h = ground arith

  -- A bind that answers: both parts did.
  pub bind_ok :
      {A B : Type 0} (m : S → Result A × S) (f : A → S → Result B × S) (s : S) {b : B} {s' : S}
      → (m >>= f) s ≡ (ok b, s')
      → (a : A) × ((m s).0 ≡ ok a) × (f a (m s).1 ≡ (ok b, s'))
  bind_ok m f s h = continue_ok f (m s).0 (m s).1 h

  -- What a `pure` answered.
  pub pure_ok : {A : Type 0} (a b : A) (s s' : S) → pure a s ≡ (ok b, s') → (b ≡ a) × (s' ≡ s)
  pure_ok a b s s' h = ground arith
