-- ===== src/Erasure/Clear.antt =====
-- What a purge requires: it only goes on where nothing of the user's money is open.
use ctech_wallet.Prelude.{
  String, ◌≡◌, inl, inr, refl, ◌∙◌, Bool, false, ◌++◌, ℕ, Option, none, some, List, [], ◌∷◌, arith,
  Bool-cases, sym, ap,
}
use ctech_wallet.Prelude.Int.{pos, eqb_ℤ_iff}
use ctech_wallet.Prelude.Lists.{All, length}
use ctech_wallet.Domain.Model.{Wallet, PixDeposit, Hold, Withdrawal}
use ctech_wallet.Store.Problem.{Result, ok, err, Error, reads, ◌>>=◌, Result-cases}
use ctech_wallet.Wallets.{load_wallets}
use ctech_wallet.Erasure.{Vault, Sources, open_only, open_holds_for_user}
use ctech_wallet.Erasure.Blockers.{
  Blocker, counted, hold_open, deposit_pending, withdrawal_pending, wallet_blocker,
  is_deposit_pending, is_withdrawal_pending, count_in, blockers, found_blockers,
  paid_deposit_blockers, pending_purchases,
}
use ctech_wallet.Erasure.Settled.{
  IsClosed, IsSettledDeposit, IsSettledWithdrawal, open_only_nil, deposit_settled,
  withdrawal_settled, All-map,
}
use ctech_wallet.Erasure.Purge.{Counts, purged, purge, purge_unblocked}
use ctech_wallet.Erasure.Keeps.{
  open_holds-Keeps, paid_deposit_blockers-Keeps, pending_purchases-Keeps,
}

-- The wallet is absent or empty.
abbrev pub IsEmpty : Option Wallet → Type 0
IsEmpty none = Unit
IsEmpty (some w) = w.balance ≡ pos 0

wallet_blocker-IsEmpty : (s : Sources) (o : Option Wallet) → wallet_blocker s o ≡ [] → IsEmpty o
unfolding wallet_blocker
wallet_blocker-IsEmpty s none e = tt
wallet_blocker-IsEmpty s (some w) e = ground (arith, eqb_ℤ_iff w.balance (pos 0))

append_nil : {A : Type 0} (xs ys : List A) → xs ++ ys ≡ [] → (xs ≡ []) × (ys ≡ [])
append_nil [] ys e = (refl, e)
append_nil (x ∷ xs) ys e = ground arith

counted_nil : (f : ℕ → Blocker) (n : ℕ) → counted f n ≡ [] → n ≡ 0
counted_nil f n e = ground arith

count_in_none :
    {A : Type 0} (test : A → Bool) (xs : List A)
    → count_in test xs ≡ 0
    → All (λ x. test x ≡ false) xs
unfolding count_in
count_in_none test [] e = tt
count_in_none test (x ∷ xs) e = elim (Bool-cases (test x)) [
  | inl hit ↦ absurd (ground (arith, hit, e))
  | inr no_hit ↦ (no_hit, count_in_none test xs (ground (arith, no_hit, e)))
]

length_nil : {A : Type 0} (xs : List A) → length xs ≡ 0 → xs ≡ []
length_nil [] e = refl
length_nil (x ∷ xs) e = ground arith

ok_list : {A : Type 0} → A → Result A → A
ok_list a (ok b) = b
ok_list a (err e) = a

ok_injective : {A : Type 0} {a b : A} → ok a ≡ ok b → a ≡ b
unfolding ok_list
ok_injective {A} {a} {b} e = ap (ok_list a) e

-- A property of the answer of a chain, by its first call.
bind_says :
    {A B : Type 0} (P : Result B → Type 0) (m : Vault → Result A × Vault)
    (f : A → Vault → Result B × Vault) (v : Vault)
    → ((x : Error) → P (err x))
    → ((a : A) → (m v).0 ≡ ok a → P (f a (m v).1).0)
    → P ((m >>= f) v).0
bind_says P m f v bad good = elim (Result-cases (m v).0) [
  | inl (x, e) ↦ rw e (bad x)
  | inr (a, e) ↦ rw e (good a e)
]

-- What an empty list of blockers says of each read.
found_blockers_nil :
    (s : Sources) (ws : Option Wallet × Option Wallet × Option Wallet) (opens : List Hold)
    (deps : List PixDeposit) (quarantine : List Blocker) (wds : List Withdrawal) (n : ℕ)
    → found_blockers s ws opens deps quarantine wds n ≡ []
    → IsEmpty ws.0
      × IsEmpty ws.1
      × (opens ≡ [])
      × All (λ d. is_deposit_pending d ≡ false) deps
      × All (λ w. is_withdrawal_pending w ≡ false) wds
unfolding found_blockers
found_blockers_nil s ws opens deps quarantine wds n e =
    let (real, r1) = append_nil (wallet_blocker s ws.0) _ e in
    let (game, r2) = append_nil (wallet_blocker s ws.1) _ r1 in
    let (no_hold, r3) = append_nil (counted hold_open (length opens)) _ r2 in
    let (no_deposit, r4) =
      append_nil (counted deposit_pending (count_in is_deposit_pending deps)) _ r3 in
    let (no_quarantine, r5) = append_nil quarantine _ r4 in
    let (no_withdrawal, r6) =
      append_nil (counted withdrawal_pending (count_in is_withdrawal_pending wds)) _ r5 in
    (
      wallet_blocker-IsEmpty s ws.0 real,
      wallet_blocker-IsEmpty s ws.1 game,
      length_nil opens (counted_nil hold_open (length opens) no_hold),
      count_in_none is_deposit_pending deps (counted_nil deposit_pending _ no_deposit),
      count_in_none is_withdrawal_pending wds (counted_nil withdrawal_pending _ no_withdrawal),
    )

module _ (s : Sources) (sub : String) (v : Vault) where
  -- What the reads of the state show of the user: no money in the real or the game wallet, no open
  -- hold, and no deposit or withdrawal under way.
  pub record IsClear : Type 0 where
    pub wallets :
        (real game sandbox : Option Wallet)
        → (load_wallets s.dynamo sub v.db).0 ≡ ok (real, game, sandbox)
        → IsEmpty real × IsEmpty game
    pub holds : (hs : List Hold) → s.holds_of sub v ≡ ok hs → All IsClosed hs
    pub deposits : (ds : List PixDeposit) → s.deposits_of sub v ≡ ok ds → All IsSettledDeposit ds
    pub withdrawals :
        (ws : List Withdrawal) → s.withdrawals_of sub v ≡ ok ws → All IsSettledWithdrawal ws

  open_holds_state : (open_holds_for_user s sub v).1 ≡ v
  open_holds_state = open_holds-Keeps s (λ x. x ≡ v) sub v refl

  paid_state : (ds : List PixDeposit) → (paid_deposit_blockers s ds v).1 ≡ v
  paid_state ds = paid_deposit_blockers-Keeps s (λ x. x ≡ v) ds v refl

  pending_state : (pending_purchases s sub v).1 ≡ v
  pending_state = pending_purchases-Keeps s (λ x. x ≡ v) sub v refl

  opens_from :
      (hs all : List Hold)
      → s.holds_of sub v ≡ ok all
      → (open_holds_for_user s sub v).0 ≡ ok hs
      → hs ≡ open_only s all
  unfolding open_holds_for_user
  opens_from hs all read held = sym (ok_injective (rw read at held))

  clear_from :
      (ws : Option Wallet × Option Wallet × Option Wallet) (opens : List Hold)
      (deps : List PixDeposit) (quarantine : List Blocker) (wds : List Withdrawal) (n : ℕ)
      → (load_wallets s.dynamo sub v.db).0 ≡ ok ws
      → (open_holds_for_user s sub v).0 ≡ ok opens
      → s.deposits_of sub v ≡ ok deps
      → s.withdrawals_of sub v ≡ ok wds
      → found_blockers s ws opens deps quarantine wds n ≡ []
      → IsClear
  clear_from ws opens deps quarantine wds n loaded held read read2 nothing =
      let (real, game, no_hold, no_deposit, no_withdrawal) =
        found_blockers_nil s ws opens deps quarantine wds n nothing in
      record {
        wallets = λ a b c e.
            let same = ok_injective (sym e ∙ loaded) in
            (rw (ap (λ x. x.0) same) real, rw (ap (λ x. x.1) same) game);
        holds = λ all e. open_only_nil s all (sym (opens_from opens all e held) ∙ no_hold);
        deposits = λ ds e.
            rw (ok_injective (sym e ∙ read))
              (All-map _ IsSettledDeposit deps deposit_settled no_deposit);
        withdrawals = λ ws e.
            rw (ok_injective (sym e ∙ read2))
              (All-map _ IsSettledWithdrawal wds withdrawal_settled no_withdrawal);
      }

  IfNone : Result (List Blocker) → Type 0
  IfNone r = r ≡ ok [] → IsClear

  blockers_clear : IfNone (blockers s sub v).0
  unfolding blockers IfNone
  blockers_clear =
      let bad : (x : Error) → IfNone (err x) = λ x h. absurd (ground (arith, h)) in
      bind_says IfNone (reads (λ x. (load_wallets s.dynamo sub x.db).0)) _ v bad (λ ws loaded.
        bind_says IfNone (open_holds_for_user s sub) _ v bad (λ opens held. rw open_holds_state (
          bind_says IfNone (reads (s.deposits_of sub)) _ v bad (λ deps read.
            bind_says IfNone (paid_deposit_blockers s deps) _ v bad (λ q asked. rw paid_state (
              bind_says IfNone (reads (s.withdrawals_of sub)) _ v bad (λ wds read2.
                bind_says IfNone (pending_purchases s sub) _ v bad (λ n bought h.
                  clear_from ws opens deps q wds n loaded held read read2 (ok_injective h)))))))))

  -- The answer of a purge that had something to stop it is not that it is done.
  unblocked_clear :
      (n : Counts) (bs : List Blocker) (w : Vault)
      → (blockers s sub v).0 ≡ ok bs
      → (purge_unblocked s sub bs w).0 ≡ ok (purged n)
      → IsClear
  unfolding purge_unblocked IfNone
  unblocked_clear n [] w found done = blockers_clear found
  unblocked_clear n (b ∷ bs) w found done = absurd (ground (arith, done))

  -- A purge that is done found nothing open: by what its reads show of the user when it starts, the
  -- real and the game wallet are absent or empty, each hold was released or settled, no deposit is to
  -- be sent back or failed to be, and each withdrawal was paid or its money came back.
  pub purge_clear : (n : Counts) → (purge s sub v).0 ≡ ok (purged n) → IsClear
  unfolding purge
  purge_clear n =
      bind_says (λ r. r ≡ ok (purged n) → IsClear) (blockers s sub) _ v
        (λ x h. absurd (ground (arith, h))) (λ bs found done. unblocked_clear n bs _ found done)
