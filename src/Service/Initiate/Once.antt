-- ===== src/Service/Initiate/Once.antt =====
-- InitiateDeposit keeps the books, and opens at most one charge: the one of its own txid.
use ctech_wallet.Prelude.{String, ◌≡◌, ◌⊎◌, inl, inr, refl, ap, ◌∷◌, List, ℕ}
use ctech_wallet.Prelude.Int.{ℤ}
use ctech_wallet.Store.Dynamo.{IsDynamo}
use ctech_wallet.Store.Lawful.{Invariant, Invariant-Closed}
use ctech_wallet.Service.{World, Env, DepositRequest, RailCall, opened}
use ctech_wallet.Service.Keeps.{OfDb-ClosedWorld}
use ctech_wallet.Service.Initiate.{initiate_deposit}
use ctech_wallet.Service.Initiate.Keeps.{IsAllowed, IsOwnRequest, initiate_deposit-Leads}

module _ (env : Env) (user : String) (amount : ℤ) (key : String) where
  abbrev pub OpensAtMostOnce : List RailCall → World → Type 0
  OpensAtMostOnce before w =
      (w.calls ≡ before)
      ⊎ ((req : DepositRequest) × (w.calls ≡ opened req ∷ before)
          × IsOwnRequest env user amount key req
          × IsAllowed env user amount key)

  module _ (n : ℕ) (kyc_level : String) (w : World) where
    -- A request for a deposit, whatever the services answer and however often it starts again, asks
    -- the rail to move money at most once: for the charge of the txid that stands for the user and
    -- the key, of the amount asked, which is between one real and the greatest inbound amount.
    pub initiate_deposit-OpensAtMostOnce :
        OpensAtMostOnce w.calls (initiate_deposit env user amount key n kyc_level w).1
    initiate_deposit-OpensAtMostOnce =
        initiate_deposit-Leads env user amount key (λ x. x.calls ≡ w.calls)
          (OpensAtMostOnce w.calls) (λ items x lawful h. h) (λ x h. inl h)
          (λ req x own allowed h. inr (req, ap (λ l. opened req ∷ l) h, own, allowed)) n kyc_level w
          refl

    -- A request for a deposit keeps the ledger's invariant, whatever the services answer and however
    -- often it starts again.
    pub initiate_deposit-Invariant :
        IsDynamo env.dynamo
        → Invariant w.db
        → Invariant (initiate_deposit env user amount key n kyc_level w).1.db
    initiate_deposit-Invariant law inv =
        initiate_deposit-Leads env user amount key (λ x. Invariant x.db) (λ x. Invariant x.db)
          (OfDb-ClosedWorld env Invariant (Invariant-Closed env.dynamo law)) (λ x h. h)
          (λ req x own allowed h. h) n kyc_level w inv
