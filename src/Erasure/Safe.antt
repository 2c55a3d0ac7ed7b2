-- ===== src/Erasure/Safe.antt =====
-- What a purge leaves alone: the money, the holds, and the length of every carried self-exclusion.
use ctech_wallet.Prelude.{
  String, ◌≡◌, refl, ◌∙◌, some, List, [], ◌∷◌, arith, eq_iff, true, inl, inr, Bool-cases, ◌==◌,
}
use ctech_wallet.Prelude.Int.{ℤ, ◌≤ℤ◌, ltb_ℤ_iff}
use ctech_wallet.Prelude.Table.{write}
use ctech_wallet.Store.Problem.{reads, bind_keeps}
use ctech_wallet.Store.Tables.{Db}
use ctech_wallet.Store.Sound.{SameBooks, SameBooks-self}
use ctech_wallet.Erasure.{
  Vault, Sources, Change, retain, strip_deposit, strip_withdrawal, erase_user, strip_audit, carry,
  Carried, allows, applied, IsAtomic, change_keeps, erase_user_profile, anonymize_audit,
}
use ctech_wallet.Erasure.Exclusion.{retention_years}
use ctech_wallet.Erasure.Blockers.{Blocker, blockers}
use ctech_wallet.Erasure.Purge.{
  carry_self_exclusion, retain_deposits, retain_withdrawals, purge_all, purge_unblocked, purge,
}
use ctech_wallet.Erasure.Keeps.{
  KeepsVault, ClosedVault, blockers-Keeps, carry_self_exclusion-Keeps, retain_deposits-Keeps,
  retain_withdrawals-Keeps, erase_user_profile-Keeps, anonymize_audit-Keeps,
}

module _ (s : Sources) (P : Vault → Type 0) (closed : ClosedVault s P) (sub : String) where
  -- What follows the deposits.
  purge_all-Keeps : (now : ℤ) → KeepsVault P (purge_all s sub now)
  unfolding purge_all
  purge_all-Keeps now v h =
      let until = s.calendar.add_years now retention_years in
      let k1 = carry_self_exclusion-Keeps s P closed sub now v h in
      bind_keeps P (carry_self_exclusion s sub now) _ v k1 (λ c e1.
        let v1 = (carry_self_exclusion s sub now v).1 in
        bind_keeps P (reads (s.deposits_of sub)) _ v1 k1 (λ deps e2.
          let k3 = retain_deposits-Keeps s P closed sub until 0 deps v1 k1 in
          bind_keeps P (retain_deposits s sub until 0 deps) _ v1 k3 (λ n e3.
            let v3 = (retain_deposits s sub until 0 deps v1).1 in
            bind_keeps P (reads (s.withdrawals_of sub)) _ v3 k3 (λ wds e4.
              let k5 = retain_withdrawals-Keeps s P closed sub until 0 wds v3 k3 in
              bind_keeps P (retain_withdrawals s sub until 0 wds) _ v3 k5 (λ m e5.
                let v5 = (retain_withdrawals s sub until 0 wds v3).1 in
                let k6 = erase_user_profile-Keeps s P closed sub v5 k5 in
                bind_keeps P (erase_user_profile s sub) _ v5 k6 (λ b e6.
                  let v6 = (erase_user_profile s sub v5).1 in
                  let k7 = anonymize_audit-Keeps s P closed sub v6 k6 in
                  bind_keeps P (anonymize_audit s sub) _ v6 k7 (λ a e7. k7)))))))

  purge_unblocked-Keeps : (bs : List Blocker) → KeepsVault P (purge_unblocked s sub bs)
  unfolding purge_unblocked
  purge_unblocked-Keeps [] v h = purge_all-Keeps (s.now v) v h
  purge_unblocked-Keeps (b ∷ bs) v h = h

  pub purge-Keeps : KeepsVault P (purge s sub)
  unfolding purge
  purge-Keeps v h =
      let kept = blockers-Keeps s P sub v h in
      bind_keeps P (blockers s sub) _ v kept (λ bs e. purge_unblocked-Keeps bs _ kept)

-- The same wallets, ledger, guards and holds.
abbrev pub SameMoney : Db → Vault → Type 0
SameMoney db v = SameBooks v.db db × (v.db.holds ≡ db.holds)

same_books :
    (a b : Db)
    → SameBooks a b
    → (c : Db) → c.wallets ≡ a.wallets
    → c.ledger ≡ a.ledger
    → c.guards ≡ a.guards
    → SameBooks c b
same_books a b h c w l g = record {
  wallets = w ∙ h.wallets;
  ledger = l ∙ h.ledger;
  guards = g ∙ h.guards;
}

applied-SameMoney : (c : Change) (db : Db) (v : Vault) → SameMoney db v → SameMoney db (applied c v)
unfolding applied
applied-SameMoney (retain pk sk r) db v (books, holds) = (books, holds)
applied-SameMoney (strip_deposit txid) db v (books, holds) =
    (same_books v.db db books _ refl refl refl, holds)
applied-SameMoney (strip_withdrawal id) db v (books, holds) =
    (same_books v.db db books _ refl refl refl, holds)
applied-SameMoney (erase_user user) db v (books, holds) =
    (same_books v.db db books _ refl refl refl, holds)
applied-SameMoney (strip_audit user sk) db v (books, holds) = (books, holds)
applied-SameMoney (carry k c) db v (books, holds) = (books, holds)

change-SameMoney : (s : Sources) → IsAtomic s → (db : Db) → ClosedVault s (SameMoney db)
change-SameMoney s law db c v h =
    change_keeps (SameMoney db) s law c v h (λ ok. applied-SameMoney c db v h)

-- Every exclusion carried before is carried, as long or longer.
abbrev pub LastsAsLong : Vault → Vault → Type 0
LastsAsLong before v =
    (k : String) (c : Carried)
    → before.carried k ≡ some c
    → (c' : Carried) × (v.carried k ≡ some c') × (c.ttl ≤ℤ c'.ttl)

applied-LastsAsLong :
    (c : Change) (before v : Vault)
    → allows c v ≡ true
    → LastsAsLong before v
    → LastsAsLong before (applied c v)
unfolding applied allows write
applied-LastsAsLong (carry key new) before v ok h k c e =
    let (c', there, longer) = h k c e in
    elim (Bool-cases (key == k)) [
      | inl same ↦
          rw same (new, refl, ground (arith, (eq_iff key k).0 same, ltb_ℤ_iff c'.ttl new.ttl))
      | inr other ↦ rw other (c', there, longer)
    ]
applied-LastsAsLong (retain pk sk r) before v ok h k c e = h k c e
applied-LastsAsLong (strip_deposit txid) before v ok h k c e = h k c e
applied-LastsAsLong (strip_withdrawal id) before v ok h k c e = h k c e
applied-LastsAsLong (erase_user user) before v ok h k c e = h k c e
applied-LastsAsLong (strip_audit user sk) before v ok h k c e = h k c e

change-LastsAsLong :
    (s : Sources) → IsAtomic s → (before : Vault) → ClosedVault s (LastsAsLong before)
change-LastsAsLong s law before c v h =
    change_keeps (LastsAsLong before) s law c v h (λ ok. applied-LastsAsLong c before v ok h)

-- A purge moves no money and touches no hold, and no self-exclusion that outlives its account gets
-- shorter by it, wherever the purge stops and whatever the calls answer: wallets, ledger, guards and
-- holds are as they were.
pub purge_spares :
    (s : Sources) (sub : String) (v : Vault)
    → IsAtomic s
    → SameMoney v.db (purge s sub v).1 × LastsAsLong v (purge s sub v).1
purge_spares s sub v law = (
  purge-Keeps s (SameMoney v.db) (change-SameMoney s law v.db) sub v (SameBooks-self v.db, refl),
  purge-Keeps s (LastsAsLong v) (change-LastsAsLong s law v) sub v (λ k c e. (c, e, ground arith)),
)
