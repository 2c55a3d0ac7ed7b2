-- ===== src/Erasure/Asks.antt =====
-- How many charges the blockers ask about: maxDepositChecks bounds the rows found paid or left
-- unasked, and not the questions.
use ctech_wallet.Prelude.{String, ◌≡◌, refl, ◌≢◌, true, false, arith, some, List, [], ◌∷◌, ◌++◌}
use ctech_wallet.Prelude.Int.{ℤ, ◌≤ℤ◌, ltb_ℤ_iff}
use ctech_wallet.Prelude.Lists.{All}
use ctech_wallet.Domain.Model.{PixDeposit, DepositStatus}
use ctech_wallet.Store.Problem.{Result, ok, err, Error}
use ctech_wallet.Store.Tables.{same_deposit_status}
use ctech_wallet.Service.{Charge, ChargeStatus, active, completed, removed, other_charge}
use ctech_wallet.Erasure.{Vault, Sources}
use ctech_wallet.Erasure.Blockers.{
  count_paid, is_completed_charge, after_or, ask_paid, check_row, check_rows,
}

-- A deposit that is still pending, and whose charge can no longer be paid.
abbrev pub IsLeftOver : Sources → ℤ → PixDeposit → Type 0
IsLeftOver s valid_until d =
    (d.status ≡ DepositStatus.pending)
    × ((at : ℤ) × (s.calendar.parse_nano d.created_at ≡ some at) × (at ≤ℤ valid_until))

-- Such a deposit that the rail does not report as paid.
abbrev pub IsAbandoned :
    Sources → (String → Vault → Result Charge) → ℤ → Vault → PixDeposit → Type 0
IsAbandoned s query valid_until v d =
    IsLeftOver s valid_until d × ((c : Charge) × (query d.txid v ≡ ok c) × (c.status ≢ completed))

not_completed : (x : ChargeStatus) → x ≢ completed → is_completed_charge x ≡ false
not_completed active ne = refl
not_completed completed ne = absurd (ne refl)
not_completed removed ne = refl
not_completed other_charge ne = refl

is_old :
    (s : Sources) (valid_until : ℤ) (d : PixDeposit)
    → IsLeftOver s valid_until d
    → (same_deposit_status d.status DepositStatus.pending ≡ true)
      × (after_or false valid_until (s.calendar.parse_nano d.created_at) ≡ false)
is_old s valid_until d (pending, (at, read, past)) =
    (rw pending refl, rw read (ground (arith, ltb_ℤ_iff valid_until at)))

module _ (s : Sources) (query : String → Vault → Result Charge) (valid_until : ℤ) (v : Vault)
    (asks : s.query_charge ≡ some query) where
  asked_row :
      (d : PixDeposit)
      → IsAbandoned s query valid_until v d
      → check_row s valid_until d (0, 0, 0) v ≡ (ok (0, 0, 0), v)
  unfolding check_row ask_paid count_paid
  asked_row d (left, (c, answer, unpaid)) =
      let (pending, old) = is_old s valid_until d left in
      rw (pending, old, asks, answer, not_completed c.status unpaid) refl

  -- However many abandoned deposits a user has, the check still asks the rail about the next old
  -- pending one behind them: where that question fails, the check fails with its error. An abandoned
  -- deposit is pending, its charge can no longer be paid, and the rail answers that it is not paid.
  pub check_rows_unbounded :
      (ds : List PixDeposit) (d : PixDeposit) (e : Error)
      → All (IsAbandoned s query valid_until v) ds
      → IsLeftOver s valid_until d
      → query d.txid v ≡ err e
      → check_rows s valid_until (ds ++ (d ∷ [])) (0, 0, 0) v ≡ (err e, v)
  unfolding check_rows check_row ask_paid
  check_rows_unbounded [] d e abandoned left fails =
      let (pending, old) = is_old s valid_until d left in rw (pending, old, asks, fails) refl
  check_rows_unbounded (a ∷ ds) d e (one, more) left fails =
      rw (asked_row a one) (check_rows_unbounded ds d e more left fails)
