-- ===== src/Store/Amounts.antt =====
-- The rows of withdrawals and holds have int64 amounts of at least zero: the transactions that the
-- code builds keep it.
use ctech_wallet.Prelude.{
  String, ◌≡◌, refl, some, List, [], ◌∷◌, Option-cases, inl, inr, arith, eq_iff,
}
use ctech_wallet.Prelude.Int.{ℤ, IsMagnitude}
use ctech_wallet.Prelude.Lists.{All}
use ctech_wallet.Prelude.Table.{Table, write}
use ctech_wallet.Domain.Model.{Hold, Withdrawal}
use ctech_wallet.Store.Tables.{
  Db, TxItem, put_hold, put_withdrawal, put_wallet, put_marker, move_hold, reverse_withdrawal,
  set_withdrawal, adjust, effect, effects,
}
use ctech_wallet.Store.Dynamo.{Dynamo, IsDynamo, transact_keeps}
use ctech_wallet.Store.Sound.{IsSide, IsNewWallet}
use ctech_wallet.Store.Lawful.{Lawful, sides, movement, wallets, Closed}

-- Every row of a table has an int64 amount of at least zero.
abbrev HasMagnitudes : {V : Type 0} → (V → ℤ) → Table V → Type 0
HasMagnitudes {V} amount t = (k : String) (v : V) → t k ≡ some v → IsMagnitude (amount v)

pub record IsTidy (db : Db) : Type 0 where
  pub holds : HasMagnitudes (λ (h : Hold). h.amount) db.holds
  pub withdrawals : HasMagnitudes (λ (w : Withdrawal). w.amount) db.withdrawals

module _ {V : Type 0} (amount : V → ℤ) (t : Table V) (tidy : HasMagnitudes amount t) where
  write-HasMagnitudes :
      (k : String) (v : V) → IsMagnitude (amount v) → HasMagnitudes amount (write k v t)
  unfolding write
  write-HasMagnitudes k v mag j u found = ground (arith, tidy j u, eq_iff k j)

  adjust-HasMagnitudes :
      (k : String) (f : V → V)
      → ((v : V) → amount (f v) ≡ amount v)
      → HasMagnitudes amount (adjust k f t)
  adjust-HasMagnitudes k f keeps = elim (Option-cases (t k)) [
    | inl e ↦ rw (e, adjust) tidy
    | inr (v, e) ↦ rw (e, adjust) (write-HasMagnitudes k (f v) (rw keeps (tidy k v e)))
  ]

-- An item that puts no hold and no withdrawal of another amount.
abbrev Puts : TxItem → Type 0
Puts (put_hold h) = IsMagnitude h.amount
Puts (put_withdrawal w) = IsMagnitude w.amount
Puts _ = Unit

effect-IsTidy : (i : TxItem) (db : Db) → Puts i → IsTidy db → IsTidy (effect i db)
unfolding effect
effect-IsTidy (put_hold h) db mag tidy = record {
  holds = write-HasMagnitudes _ db.holds tidy.holds h.hold_id h mag;
  withdrawals = tidy.withdrawals;
}
effect-IsTidy (put_withdrawal w) db mag tidy = record {
  holds = tidy.holds;
  withdrawals = write-HasMagnitudes _ db.withdrawals tidy.withdrawals w.withdrawal_id w mag;
}
effect-IsTidy (move_hold id from to now owner) db u tidy = record {
  holds = adjust-HasMagnitudes _ db.holds tidy.holds id _ (λ v. refl);
  withdrawals = tidy.withdrawals;
}
effect-IsTidy (reverse_withdrawal id now) db u tidy = record {
  holds = tidy.holds;
  withdrawals = adjust-HasMagnitudes _ db.withdrawals tidy.withdrawals id _ (λ v. refl);
}
effect-IsTidy (set_withdrawal id status e2e now) db u tidy = record {
  holds = tidy.holds;
  withdrawals = adjust-HasMagnitudes _ db.withdrawals tidy.withdrawals id _ (λ v. refl);
}
effect-IsTidy _ db u tidy = record { holds = tidy.holds; withdrawals = tidy.withdrawals }

effects-IsTidy :
    (items : List TxItem) (db : Db) → All Puts items → IsTidy db → IsTidy (effects items db)
unfolding effects
effects-IsTidy [] db puts tidy = tidy
effects-IsTidy (i ∷ is) db (p, ps) tidy =
    effects-IsTidy is (effect i db) ps (effect-IsTidy i db p tidy)

side-Puts : (i : TxItem) → IsSide i → Puts i
side-Puts (put_hold h) side = side
side-Puts (put_withdrawal w) side = side
side-Puts _ side = tt

sides-Puts : (items : List TxItem) → All IsSide items → All Puts items
sides-Puts [] side = tt
sides-Puts (i ∷ is) (s, ss) = (side-Puts i s, sides-Puts is ss)

new-Puts : (i : TxItem) → IsNewWallet i → Puts i
new-Puts (put_wallet w) new = tt
new-Puts (put_marker m) new = tt
new-Puts _ new = elim new [ ]

wallets-Puts : (items : List TxItem) → All IsNewWallet items → All Puts items
wallets-Puts [] new = tt
wallets-Puts (i ∷ is) (n, ns) = (new-Puts i n, wallets-Puts is ns)

Lawful-Puts : {items : List TxItem} → Lawful items → All Puts items
Lawful-Puts (sides items side) = sides-Puts items side
Lawful-Puts (movement id amount sign v now e g rest nonneg at booked link side) =
    (tt, (tt, (tt, sides-Puts rest side)))
Lawful-Puts (wallets items new) = wallets-Puts items new

pub IsTidy-Closed : (d : Dynamo) → IsDynamo d → Closed d IsTidy
IsTidy-Closed d law items db lawful tidy =
    transact_keeps IsTidy d law items db tidy
      (λ c. effects-IsTidy items db (Lawful-Puts lawful) tidy)
