-- ===== src/Erasure/Retains.antt =====
-- No deposit loses the payer's name and document before a copy of its row stands in retention.
use text.Mathlib.TextLemmas.{append_cancel_left}
use ctech_wallet.Prelude.{
  String, ◌≡◌, ◌≢◌, ◌⊎◌, inl, inr, refl, ◌∙◌, sym, ap, true, false, ◌&&◌, ◌==◌, ℕ, ◌+◌, Option,
  none, some, List, [], ◌∷◌, arith, eq_iff, eq_refl, Bool-cases, Option-cases,
}
use ctech_wallet.Prelude.Int.{ℤ}
use ctech_wallet.Prelude.Lists.{All}
use ctech_wallet.Prelude.Table.{Table, write, write_self, write_ne}
use ctech_wallet.Domain.Model.{PixDeposit}
use ctech_wallet.Store.Problem.{ok, bind_keeps}
use ctech_wallet.Store.Tables.{adjust}
use ctech_wallet.Store.Dynamo.{Written, done, refused, broken}
use ctech_wallet.Erasure.{
  Vault, Sources, Change, Retained, Item, deposit_item, retain, strip_deposit, allows, applied,
  IsAtomic, change_keeps, change_once, passed, retain_row, retention_sk, strip_deposit_pii,
}
use ctech_wallet.Erasure.Purge.{deposits_table, retain_deposits}
use ctech_wallet.Erasure.Keeps.{passed_state}
use ctech_wallet.Service.Digest.{prefixed}

adjust_ne : {V : Type 0} (k j : String) (f : V → V) (t : Table V) → k ≢ j → adjust k f t j ≡ t j
adjust_ne k j f t ne = elim (Option-cases (t k)) [
  | inl e ↦ rw (e, adjust) refl
  | inr (v, e) ↦ rw (e, adjust) (write_ne k j (f v) t ne)
]

deposits_sk-injective :
    (s : Sources) (a b : String)
    → retention_sk s deposits_table a ≡ retention_sk s deposits_table b
    → a ≡ b
unfolding retention_sk prefixed
deposits_sk-injective s a b e = append_cancel_left "wallet_pix_deposits#" a b e

-- What a written table holds: the new row under its key, or what it held.
written_cases :
    {V : Type 0} (k j : String) (new r : V) (t : Table V)
    → write k new t j ≡ some r
    → ((k ≡ j) × (some new ≡ some r)) ⊎ (t j ≡ some r)
unfolding write
written_cases k j new r t e = elim (Bool-cases (k == j)) [
  | inl same ↦ inl ((eq_iff k j).0 same, rw same at e)
  | inr other ↦ inr (rw other at e)
]

retained_after :
    (pk sk : String) (r : Retained) (v : Vault)
    → (applied (retain pk sk r) v).retained pk ≡ write sk r (v.retained pk)
unfolding applied
retained_after pk sk r v = rw (eq_refl pk) refl

abbrev item_or : Item → Option Retained → Item
item_or i none = i
item_or i (some r) = r.item

abbrev row_or : PixDeposit → Option PixDeposit → PixDeposit
row_or d none = d
row_or d (some e) = e

module _ (s : Sources) (sub : String) (orig : Vault) where
  abbrev pub copies : Vault → String → Option Retained
  copies v txid = v.retained (prefixed "SUB#" sub) (retention_sk s deposits_table txid)

  -- A retained record under the row's key: a copy of the row, or one that stood there before.
  abbrev pub HasCopy : PixDeposit → Vault → Type 0
  HasCopy d v =
      (r : Retained) × (copies v d.txid ≡ some r)
      × ((r.item ≡ deposit_item d) ⊎ (copies orig d.txid ≡ some r))

  -- Each row of a deposit is as it was, or has its copy.
  abbrev pub IsNotLost : Vault → Type 0
  IsNotLost v =
      (d : PixDeposit)
      → orig.db.deposits d.txid ≡ some d
      → (v.db.deposits d.txid ≡ some d) ⊎ HasCopy d v

  -- What does not write a deposit, and only adds to retention.
  adds-IsNotLost :
      (v w : Vault)
      → w.db.deposits ≡ v.db.deposits
      → ((pk sk : String) (r : Retained) → v.retained pk sk ≡ some r → w.retained pk sk ≡ some r)
      → IsNotLost v
      → IsNotLost w
  adds-IsNotLost v w same adds h d row = elim (h d row) [
    | inl there ↦ inl (rw same there)
    | inr (r, kept, from) ↦ inr (r, adds _ _ r kept, from)
  ]

  retain_adds :
      (pk sk : String) (r : Retained) (v : Vault)
      → allows (retain pk sk r) v ≡ true
      → (k j : String) (old : Retained) → v.retained k j ≡ some old
      → (applied (retain pk sk r) v).retained k j ≡ some old
  unfolding allows applied write
  retain_adds pk sk r v free k j old e = ground (arith, eq_iff k pk, eq_iff sk j)

  strip-IsNotLost :
      (txid : String) (v : Vault)
      → ((d : PixDeposit) → orig.db.deposits d.txid ≡ some d → d.txid ≡ txid → HasCopy d v)
      → IsNotLost v
      → IsNotLost (applied (strip_deposit txid) v)
  unfolding applied
  strip-IsNotLost txid v copied h d row = elim (Bool-cases (txid == d.txid)) [
    | inl same ↦ inr (copied d row (sym ((eq_iff txid d.txid).0 same)))
    | inr other ↦ elim (h d row) [
      | inl there ↦ inl (
          adjust_ne txid d.txid _ v.db.deposits (λ e. ground (arith, other, eq_iff txid d.txid, e))
          ∙ there)
      | inr copy ↦ inr copy
    ]
  ]

  -- Where a copy comes from: from before, or from the row that stood at the start.
  abbrev HasOrigins : Vault → Type 0
  HasOrigins v =
      (txid : String) (r : Retained)
      → copies v txid ≡ some r
      → (copies orig txid ≡ some r)
        ⊎ ((d : PixDeposit)
            → orig.db.deposits d.txid ≡ some d
            → d.txid ≡ txid
            → r.item ≡ deposit_item d)

  same_row :
      (d e : PixDeposit)
      → orig.db.deposits d.txid ≡ some d
      → orig.db.deposits e.txid ≡ some e
      → d.txid ≡ e.txid
      → d ≡ e
  same_row d e row row2 same =
      let both : some d ≡ some e = sym row ∙ (rw same row2) in ap (row_or d) both

  abbrev copy_of : PixDeposit → ℤ → Change
  copy_of d until =
      retain (prefixed "SUB#" sub) (retention_sk s deposits_table d.txid)
        (record { source = deposits_table; item = deposit_item d; retain_until = until })

  module _ (d : PixDeposit) (until : ℤ) (row : orig.db.deposits d.txid ≡ some d) where
    copy-HasOrigins : (v : Vault) → HasOrigins v → HasOrigins (applied (copy_of d until) v)
    copy-HasOrigins v h txid r e =
        let pk = prefixed "SUB#" sub in
        let sk = retention_sk s deposits_table d.txid in
        let new : Retained = record {
          source = deposits_table;
          item = deposit_item d;
          retain_until = until;
        } in
        let there : write sk new (v.retained pk) (retention_sk s deposits_table txid) ≡ some r =
          ap (λ t. t (retention_sk s deposits_table txid)) (sym (retained_after pk sk new v)) ∙ e in
        elim (written_cases sk (retention_sk s deposits_table txid) new r (v.retained pk) there) [
          | inl (key, fresh) ↦ inr (λ x stood at.
              let mine =
                same_row x d stood row (at ∙ sym (deposits_sk-injective s d.txid txid key)) in
              sym (ap (item_or (deposit_item d)) fresh) ∙ ap deposit_item (sym mine))
          | inr old ↦ h txid r old
        ]

    copied : (v : Vault) → HasCopy d (applied (copy_of d until) v)
    copied v =
        let pk = prefixed "SUB#" sub in
        let sk = retention_sk s deposits_table d.txid in
        let new : Retained = record {
          source = deposits_table;
          item = deposit_item d;
          retain_until = until;
        } in
        (
          new,
          ap (λ t. t sk) (retained_after pk sk new v) ∙ write_self sk new (v.retained pk),
          inl refl,
        )

  -- What the loop keeps.
  abbrev Loop : Vault → Type 0
  Loop v = IsNotLost v × HasOrigins v

  module _ (law : IsAtomic s) where
    copy-Loop :
        (d : PixDeposit) (until : ℤ) (v : Vault)
        → orig.db.deposits d.txid ≡ some d
        → Loop v
        → Loop (s.change (copy_of d until) v).1
    unfolding applied
    copy-Loop d until v row (kept, from) =
        change_keeps Loop s law (copy_of d until) v (kept, from)
          (λ free. (
            adds-IsNotLost v (applied (copy_of d until) v) refl (retain_adds _ _ _ v free) kept,
            copy-HasOrigins d until row v from,
          ))

    strip-Loop :
        (d : PixDeposit) (v : Vault)
        → orig.db.deposits d.txid ≡ some d
        → HasCopy d v
        → Loop v
        → Loop (s.change (strip_deposit d.txid) v).1
    unfolding applied
    strip-Loop d v row copy (kept, from) =
        change_keeps Loop s law (strip_deposit d.txid) v (kept, from)
          (λ free. (
            strip-IsNotLost d.txid v (λ x stood at. rw (same_row x d stood row at) copy) kept,
            from,
          ))

    refused_copy :
        (d : PixDeposit) (until : ℤ) (v : Vault) (o : Option Retained)
        → orig.db.deposits d.txid ≡ some d
        → copies v d.txid ≡ o
        → HasOrigins v
        → allows (copy_of d until) v ≡ false
        → HasCopy d v
    unfolding allows
    refused_copy d until v none row e from taken = absurd (ground (arith, e, taken))
    refused_copy d until v (some r) row e from taken = elim (from d.txid r e) [
      | inl old ↦ (r, e, inr old)
      | inr made ↦ (r, e, inl (made d row refl))
    ]

    written_copy :
        (d : PixDeposit) (until : ℤ) (v : Vault) (w : Written)
        → orig.db.deposits d.txid ≡ some d
        → HasOrigins v
        → (s.change (copy_of d until) v).0 ≡ w
        → (passed s w (s.change (copy_of d until) v).1).0 ≡ ok tt
        → HasCopy d (s.change (copy_of d until) v).1
    written_copy d until v done row from e answer = elim (law.atomic (copy_of d until) v) [
      | inl (same, undone) ↦ absurd (undone e)
      | inr (free, made, fine) ↦ rw made (copied d until row v)
    ]
    written_copy d until v refused row from e answer = elim (law.atomic (copy_of d until) v) [
      | inl (same, undone) ↦ rw same (
          refused_copy d until v (copies v d.txid) row refl from
            (law.refused_only (copy_of d until) v e))
      | inr (free, made, fine) ↦ absurd (fine e)
    ]
    written_copy d until v (broken message) row from e answer = absurd (ground (arith, answer))

    once_copy :
        (d : PixDeposit) (until : ℤ) (v : Vault)
        → orig.db.deposits d.txid ≡ some d
        → HasOrigins v
        → (change_once s (copy_of d until) v).0 ≡ ok tt
        → HasCopy d (change_once s (copy_of d until) v).1
    unfolding change_once
    once_copy d until v row from answer =
        rw (passed_state s (s.change (copy_of d until) v).0 (s.change (copy_of d until) v).1)
          (written_copy d until v (s.change (copy_of d until) v).0 row from refl answer)

    once-Loop : (c : Change) (v : Vault) → Loop (s.change c v).1 → Loop (change_once s c v).1
    unfolding change_once
    once-Loop c v h = rw (passed_state s (s.change c v).0 (s.change c v).1) h

    pub retain_deposits-Loop :
        (until : ℤ) (n : ℕ) (ds : List PixDeposit) (v : Vault)
        → All (λ d. orig.db.deposits d.txid ≡ some d) ds
        → Loop v
        → Loop (retain_deposits s sub until n ds v).1
    unfolding retain_deposits retain_row strip_deposit_pii
    retain_deposits-Loop until n [] v rows h = h
    retain_deposits-Loop until n (d ∷ ds) v (row, rows) h =
        elim (Bool-cases (d.payer_cpf == "" && d.payer_name == "")) [
          | inl clean ↦ rw clean (retain_deposits-Loop until n ds v rows h)
          | inr named ↦
              let k1 = once-Loop (copy_of d until) v (copy-Loop d until v row h) in
              let v1 = (change_once s (copy_of d until) v).1 in
              rw named (
                bind_keeps Loop (change_once s (copy_of d until)) _ v k1 (λ u e.
                  let k2 =
                    once-Loop (strip_deposit d.txid) v1
                      (strip-Loop d v1 row (once_copy d until v row h.1 e) k1) in
                  bind_keeps Loop (change_once s (strip_deposit d.txid)) _ v1 k2
                    (λ u2 e2. retain_deposits-Loop until (n + 1) ds _ rows k2)))
        ]

-- The deposits' part of a purge loses no payer, wherever it stops and whatever the calls answer: of
-- each deposit row, what stood when it began stands there still, or a record stands in retention
-- under the row's key, which is a copy of that row or one that an earlier purge put there. The rows
-- it goes through are current.
pub retain_deposits-IsNotLost :
    (s : Sources) (sub : String) (until : ℤ) (n : ℕ) (ds : List PixDeposit) (v : Vault)
    → IsAtomic s
    → All (λ d. v.db.deposits d.txid ≡ some d) ds
    → IsNotLost s sub v (retain_deposits s sub until n ds v).1
retain_deposits-IsNotLost s sub until n ds v law rows =
    (retain_deposits-Loop s sub v law until n ds v rows ((λ d row. inl row), (λ txid r e. inl e))).0
