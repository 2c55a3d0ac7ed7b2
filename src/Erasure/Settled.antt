-- ===== src/Erasure/Settled.antt =====
-- Rows of holds, deposits and withdrawals that no longer stop an erasure.
use ctech_wallet.Prelude.{
  ◌≡◌, ◌≢◌, ◌⊎◌, inl, inr, refl, true, false, List, [], ◌∷◌, arith, Bool-cases,
}
use ctech_wallet.Prelude.Lists.{All}
use ctech_wallet.Domain.Model.{
  PixDeposit, DepositStatus, Hold, HoldStatus, Withdrawal, WithdrawStatus,
}
use ctech_wallet.Store.Tables.{same_hold_status, same_deposit_status}
use ctech_wallet.Erasure.{Sources, open_only}
use ctech_wallet.Erasure.Blockers.{
  is_deposit_pending, is_withdraw_status_pending, is_withdrawal_pending,
}

-- A hold that was released or settled.
abbrev pub IsClosed : Hold → Type 0
IsClosed h = (h.status ≡ HoldStatus.released) ⊎ (h.status ≡ HoldStatus.settled)

-- A deposit of which nothing is to be sent back any more.
abbrev pub IsSettledDeposit : PixDeposit → Type 0
IsSettledDeposit d =
    (d.status ≢ DepositStatus.refund_pending)
    × (d.status ≢ DepositStatus.rejected_cpf)
    × (d.status ≢ DepositStatus.refund_failed)

-- A withdrawal that was paid, or whose money came back.
abbrev pub IsSettledWithdrawal : Withdrawal → Type 0
IsSettledWithdrawal w = (w.status ≡ WithdrawStatus.completed) ⊎ (w.status ≡ WithdrawStatus.reversed)

hold_closed :
    (h : HoldStatus)
    → same_hold_status h HoldStatus.held ≡ false
    → (h ≡ HoldStatus.released) ⊎ (h ≡ HoldStatus.settled)
hold_closed HoldStatus.held e = ground arith
hold_closed HoldStatus.released e = inl refl
hold_closed HoldStatus.settled e = inr refl

pub open_only_nil : (s : Sources) (hs : List Hold) → open_only s hs ≡ [] → All IsClosed hs
open_only_nil s [] e = tt
open_only_nil s (h ∷ hs) e = elim (Bool-cases (same_hold_status h.status HoldStatus.held)) [
  | inl held ↦ absurd (ground (arith, held, e))
  | inr closed ↦ (hold_closed h.status closed, open_only_nil s hs (ground (arith, closed, e)))
]

-- A status that is another one by the test is another one.
differs :
    (a b : DepositStatus) → same_deposit_status b b ≡ true → same_deposit_status a b ≡ false → a ≢ b
differs a b self other e = absurd (ground (arith, self, rw e at other))

pub deposit_settled : (d : PixDeposit) → is_deposit_pending d ≡ false → IsSettledDeposit d
unfolding is_deposit_pending
deposit_settled d e = (
  differs d.status DepositStatus.refund_pending refl (ground (arith, e)),
  differs d.status DepositStatus.rejected_cpf refl (ground (arith, e)),
  differs d.status DepositStatus.refund_failed refl (ground (arith, e)),
)

status_settled :
    (x : WithdrawStatus)
    → is_withdraw_status_pending x ≡ false
    → (x ≡ WithdrawStatus.completed) ⊎ (x ≡ WithdrawStatus.reversed)
status_settled WithdrawStatus.processing e = ground arith
status_settled WithdrawStatus.completed e = inl refl
status_settled WithdrawStatus.reversed e = inr refl
status_settled WithdrawStatus.refund_fail e = ground arith

pub withdrawal_settled : (w : Withdrawal) → is_withdrawal_pending w ≡ false → IsSettledWithdrawal w
unfolding is_withdrawal_pending
withdrawal_settled w e = status_settled w.status e

pub All-map :
    {A : Type 0} (P Q : A → Type 0) (xs : List A) → ((x : A) → P x → Q x) → All P xs → All Q xs
All-map P Q [] f h = tt
All-map P Q (x ∷ xs) f (p, h) = (f x p, All-map P Q xs f h)
