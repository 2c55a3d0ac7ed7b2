-- ===== src/Service/Deposit/Books.antt =====
-- A confirmed deposit keeps the books, and sends money back only under a stable key.
use ctech_wallet.Prelude.{String, ◌≡◌, refl, ap, List, [], ◌∷◌, ◌++◌}
use ctech_wallet.Prelude.Lists.{All}
use ctech_wallet.Store.Problem.{ok}
use ctech_wallet.Store.Dynamo.{IsDynamo}
use ctech_wallet.Store.Lawful.{Invariant, Invariant-Closed}
use ctech_wallet.Service.{World, Env, Charge, RailCall}
use ctech_wallet.Service.Keeps.{OfDb-ClosedWorld}
use ctech_wallet.Service.Deposit.{confirm_deposit}
use ctech_wallet.Service.Deposit.SagaKeeps.{IsStableRefund}
use ctech_wallet.Service.Deposit.Keeps.{IsSoundCharge, confirm_deposit-Keeps}

-- The rail reports int64 amounts of at least zero.
abbrev pub AnswersSoundly : Env → Type 0
AnswersSoundly env =
    (txid : String) (w : World) (c : Charge) → env.query_deposit txid w ≡ ok c → IsSoundCharge c

-- Where the amounts that the rail reports are int64 numbers of at least zero, a confirmation keeps
-- the ledger's invariant, whatever DynamoDB, the lock, the KYC service and the rail answer.
pub confirm_deposit-Invariant :
    (env : Env) (txid cpf name : String) (w : World)
    → IsDynamo env.dynamo
    → AnswersSoundly env
    → Invariant w.db
    → Invariant (confirm_deposit env txid cpf name w).1.db
confirm_deposit-Invariant env txid cpf name w law answers inv =
    confirm_deposit-Keeps env (λ x. Invariant x.db)
      (OfDb-ClosedWorld env Invariant (Invariant-Closed env.dynamo law)) (λ c x stable h. h) answers
      txid cpf name w inv

-- The calls of the rail that a world has beyond some others are refunds under stable keys.
abbrev pub OnlyRefundsSince : List RailCall → World → Type 0
OnlyRefundsSince before w =
    (added : List RailCall) × (w.calls ≡ added ++ before) × All IsStableRefund added

-- Where the amounts that the rail reports are int64 numbers of at least zero, each call of the rail
-- that a confirmation makes to move money is a refund under the one key of the deposit or of the
-- excess payment that it returns; it never pays out.
pub confirm_deposit-OnlyRefundsSince :
    (env : Env) (txid cpf name : String) (w : World)
    → AnswersSoundly env
    → OnlyRefundsSince w.calls (confirm_deposit env txid cpf name w).1
confirm_deposit-OnlyRefundsSince env txid cpf name w answers =
    confirm_deposit-Keeps env (OnlyRefundsSince w.calls) (λ items x lawful h. h)
      (λ c x stable h. (c ∷ h.0, ap (λ l. c ∷ l) h.1, (stable, h.2))) answers txid cpf name w
      ([], refl, tt)
