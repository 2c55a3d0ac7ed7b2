-- ===== src/Service/Games/Collect.antt =====
-- What the loop of a cash-out collects: the holds that it read, under identifiers that all differ,
-- and the exact sum of their amounts.
use ctech_wallet.Prelude.{
  String, ◌≡◌, ◌≢◌, eq_iff, refl, ap, ◌∙◌, Bool, true, false, ℕ, ◌+◌, ◌*◌, ◌≤◌, Option, none, some,
  List, [], ◌∷◌, arith,
}
use ctech_wallet.Prelude.Int.{ℤ, pos, pos_part, int64, int64_in_range, ◌+ℤ◌, ◌≤ℤ◌, int_laws}
use ctech_wallet.Prelude.Lists.{All, length}
use ctech_wallet.Domain.Model.{Hold, HoldStatus}
use ctech_wallet.Store.Problem.{reads, ok, bind_ok, bind_keeps, pure_ok}
use ctech_wallet.Store.Tables.{Db}
use ctech_wallet.Prelude.Table.{Table}
use ctech_wallet.Store.Dynamo.{Dynamo}
use ctech_wallet.Holds.Lifecycle.{StandsHeld, closed}
use ctech_wallet.Service.{World, Env, on_db}
use ctech_wallet.Service.Games.{get_hold, includes, unless_seen, usable, next_hold, collect}

-- The exact sum of the holds' amounts.
abbrev pub total : List Hold → ℤ
total [] = pos 0
total (h ∷ hs) = h.amount +ℤ total hs

-- The sum as the loop makes it.
abbrev pub running : ℤ → List Hold → ℤ
running acc [] = acc
running acc (h ∷ hs) = running (int64 (acc +ℤ h.amount)) hs

-- A 20th of the greatest int64.
abbrev pub max_hold : ℕ
max_hold = 461168601842738790

abbrev pub IsHoldAmount : Hold → Type 0
IsHoldAmount h = (pos 0 ≤ℤ h.amount) × (h.amount ≤ℤ pos max_hold)

-- No identifier stands twice.
abbrev pub IsDistinct : List String → Type 0
IsDistinct [] = Unit
IsDistinct (id ∷ ids) = All (λ x. x ≢ id) ids × IsDistinct ids

-- Each row stood held under its identifier, by the user at the table, and is settled.
abbrev pub Consumes :
    String → String → String → Table Hold → Table Hold → List String → List Hold → Type 0
Consumes user table now before after [] [] = Unit
Consumes user table now before after (id ∷ ids) (row ∷ rows) =
    (StandsHeld before id row
      × (row.user_id ≡ user)
      × (row.table_ref ≡ table)
      × (after id ≡ some (closed HoldStatus.settled now row)))
    × Consumes user table now before after ids rows
Consumes user table now before after _ _ = ⊥

-- A read of a hold, stale or not, gives a row with its key and its amount, which no update changes.
pub record ReadsHolds (d : Dynamo) (db : Db) : Type 0 where
  pub keyed : (id : String) (h : Hold) → d.get_hold id db ≡ ok (some h) → h.hold_id ≡ id
  pub sized : (id : String) (h : Hold) → d.get_hold id db ≡ ok (some h) → IsHoldAmount h
  pub constant :
      (id : String) (h row : Hold)
      → d.get_hold id db ≡ ok (some h)
      → db.holds id ≡ some row
      → row.amount ≡ h.amount

pub running_exact :
    (acc : ℤ) (hs : List Hold)
    → pos 0 ≤ℤ acc
    → pos_part acc + length hs * max_hold ≤ 20 * max_hold
    → All IsHoldAmount hs
    → running acc hs ≡ acc +ℤ total hs
running_exact acc [] nonneg bound h = grind int_laws
running_exact acc (h ∷ hs) nonneg bound (one, rest) =
    let s = acc +ℤ h.amount in
    let exact : int64 s ≡ s = int64_in_range s (grind int_laws) in
    rw exact (running_exact s hs (grind int_laws) (grind int_laws) rest ∙ grind int_laws)

module _ (env : Env) (user table_ref : String) where
  -- Each hold is what a read of the state gives for its identifier.
  abbrev pub WereRead : World → List String → List Hold → Type 0
  WereRead w [] [] = Unit
  WereRead w (id ∷ ids) (h ∷ hs) = (env.dynamo.get_hold id w.db ≡ ok (some h)) × WereRead w ids hs
  WereRead w _ _ = ⊥

  -- None of the identifiers was seen before.
  abbrev pub AreNew : List String → List String → Type 0
  AreNew seen ids = All (λ id. includes env id seen ≡ false) ids

  unless_seen_ok : (b : Bool) (u : Unit) (w : World) → (unless_seen env b w).0 ≡ ok u → b ≡ false
  unfolding unless_seen
  unless_seen_ok true u w e = ground (arith, e)
  unless_seen_ok false u w e = refl

  -- New beside one more: different from that one, and new.
  new_others :
      (id : String) (seen ids : List String)
      → AreNew (id ∷ seen) ids
      → All (λ x. x ≢ id) ids × AreNew seen ids
  new_others id seen [] h = (tt, tt)
  new_others id seen (x ∷ xs) (one, rest) =
      let (differ, fresh) = new_others id seen xs rest in
      (((λ e. ground (arith, one, eq_iff id x, e)), differ), (ground (arith, one), fresh))

  usable_state : (o : Option Hold) (w : World) → (usable env user table_ref o w).1 ≡ w
  unfolding usable
  usable_state none w = refl
  usable_state (some h) w = ground arith

  usable_ok :
      (o : Option Hold) (h : Hold) (w : World)
      → (usable env user table_ref o w).0 ≡ ok h
      → o ≡ some h
  unfolding usable
  usable_ok none h w e = ground arith
  usable_ok (some x) h w e = ground arith

  unless_seen_state : (b : Bool) (w : World) → (unless_seen env b w).1 ≡ w
  unfolding unless_seen
  unless_seen_state true w = refl
  unless_seen_state false w = refl

  next_hold_state :
      (seen : List String) (id : String) (w : World)
      → (next_hold env user table_ref seen id w).1 ≡ w
  unfolding next_hold get_hold on_db
  next_hold_state seen id w =
      bind_keeps (λ s. s ≡ w) (unless_seen env (includes env id seen)) _ w (unless_seen_state _ w)
        (λ u e. rw unless_seen_state (
          bind_keeps (λ s. s ≡ w) (get_hold env id) (usable env user table_ref) w refl
            (λ o e2. usable_state o w)))

  next_hold_ok :
      (seen : List String) (id : String) (h : Hold) (w w' : World)
      → next_hold env user table_ref seen id w ≡ (ok h, w')
      → (env.dynamo.get_hold id w.db ≡ ok (some h)) × (includes env id seen ≡ false)
  unfolding next_hold get_hold on_db
  next_hold_ok seen id h w w' e =
      let (u, unseen, e1) = bind_ok (unless_seen env (includes env id seen)) _ w e in
      let e1' = rw unless_seen_state at e1 in
      let (found, read, e2) = bind_ok (get_hold env id) (usable env user table_ref) w e1' in
      (
        read ∙ ap ok (usable_ok found h w (ap (λ x. x.0) e2)),
        unless_seen_ok (includes env id seen) u w unseen,
      )

  pub collect_state :
      (ids seen : List String) (acc : ℤ) (w : World)
      → (collect env user table_ref ids seen acc w).1 ≡ w
  unfolding collect
  collect_state [] seen acc w = refl
  collect_state (id ∷ ids) seen acc w =
      bind_keeps (λ s. s ≡ w) (next_hold env user table_ref seen id) _ w (next_hold_state seen id w)
        (λ h e.
          let loop = collect env user table_ref ids (id ∷ seen) (int64 (acc +ℤ h.amount)) in
          rw next_hold_state (
            bind_keeps (λ s. s ≡ w) loop _ w (collect_state ids (id ∷ seen) _ w)
              (λ r e2. collect_state ids (id ∷ seen) _ w)))

  -- What the loop answers: the holds as they were read under new identifiers that all differ, and
  -- their running sum.
  abbrev pub Collects : List String → List String → ℤ → World → List Hold → ℤ → World → Type 0
  Collects ids seen acc w hs sum w' =
      (w' ≡ w) × WereRead w ids hs × (sum ≡ running acc hs) × IsDistinct ids × AreNew seen ids

  pub collect_ok :
      (ids seen : List String) (acc : ℤ) (r : List Hold × ℤ) (w w' : World)
      → collect env user table_ref ids seen acc w ≡ (ok r, w')
      → Collects ids seen acc w r.0 r.1 w'
  unfolding collect
  collect_ok [] seen acc r w w' e =
      let (same, state) = pure_ok ([], acc) r w w' e in rw (same, state) (refl, tt, refl, tt, tt)
  collect_ok (id ∷ ids) seen acc r w w' e =
      let step = next_hold env user table_ref seen id in
      let (h, used, e1) = bind_ok step _ w e in
      let e1' = rw next_hold_state at e1 in
      let loop = collect env user table_ref ids (id ∷ seen) (int64 (acc +ℤ h.amount)) in
      let (more, answered, e2) = bind_ok loop _ w e1' in
      let (same, after) = pure_ok (h ∷ more.0, more.1) r (loop w).1 w' e2 in
      let (state, reads, sum, differ, new) =
        collect_ok ids (id ∷ seen) (int64 (acc +ℤ h.amount)) more w (loop w).1
          (ap (λ x. (x, (loop w).1)) answered) in
      let (read, unseen) = next_hold_ok seen id h w (step w).1 (ap (λ x. (x, (step w).1)) used) in
      let (others, fresh) = new_others id seen ids new in
      rw same (after ∙ state, (read, reads), sum, (others, differ), (unseen, fresh))
