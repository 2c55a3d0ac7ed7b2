-- ===== src/Service/Keeps.antt =====
-- What the flows keep of the world, part by part.
use ctech_wallet.Prelude.{String, Bool, true, false, Option, none, some, List, ◌∷◌}
use ctech_wallet.Store.Problem.{Result, ◌>>=◌, bind_keeps, reads}
use ctech_wallet.Store.Tables.{Db, TxItem}
use ctech_wallet.Store.Lawful.{Closed, Lawful}
use ctech_wallet.Store.Dynamo.{Moment}
use ctech_wallet.Domain.Daily.{DailyBreach}
use ctech_wallet.Service.{
  World, Env, RailCall, on_db, log_call, timed, acquire_wallet, lock_answer, check_erasure,
  gate_answer, erasure_answer, get_user, breach_problem,
}

-- An action keeps a property of the world.
abbrev pub Keeps : (World → Type 0) → {A : Type 0} → (World → Result A × World) → Type 0
Keeps P m = (w : World) → P w → P (m w).1

module _ (P : World → Type 0) where
  pub Keeps-bind :
      {A B : Type 0} (m : World → Result A × World) (f : A → World → Result B × World)
      → Keeps P m
      → ((a : A) → Keeps P (f a))
      → Keeps P (m >>= f)
  Keeps-bind m f km kf w h = bind_keeps P m f w (km w h) (λ a e. kf a (m w).1 (km w h))

  pub Keeps-reads : {A : Type 0} (f : World → Result A) → Keeps P (reads f)
  Keeps-reads f w h = h

  lock_answer-Keeps : (env : Env) (got : Bool) → Keeps P (lock_answer env got)
  unfolding lock_answer
  lock_answer-Keeps env true w h = h
  lock_answer-Keeps env false w h = h

  pub acquire_wallet-Keeps : (env : Env) (id : String) → Keeps P (acquire_wallet env id)
  unfolding acquire_wallet
  acquire_wallet-Keeps env id =
      Keeps-bind (reads (env.acquire id)) (lock_answer env) (λ w h. h) (lock_answer-Keeps env)

  erasure_answer-Keeps : (env : Env) (blocked : Bool) → Keeps P (erasure_answer env blocked)
  unfolding erasure_answer
  erasure_answer-Keeps env true w h = h
  erasure_answer-Keeps env false w h = h

  gate_answer-Keeps :
      (env : Env) (gate : Option (String → World → Result Bool)) (user : String)
      → Keeps P (gate_answer env gate user)
  unfolding gate_answer
  gate_answer-Keeps env none user = λ w h. h
  gate_answer-Keeps env (some gate) user =
      Keeps-bind (reads (gate user)) (erasure_answer env) (λ w h. h) (erasure_answer-Keeps env)

  pub check_erasure-Keeps : (env : Env) (user : String) → Keeps P (check_erasure env user)
  unfolding check_erasure
  check_erasure-Keeps env user = gate_answer-Keeps env env.erasure_gate user

  pub get_user-Keeps : (env : Env) (user : String) → Keeps P (get_user env user)
  unfolding get_user on_db
  get_user-Keeps env user w h = h

  pub breach_problem-Keeps : (o : Option DailyBreach) → Keeps P (breach_problem o)
  unfolding breach_problem
  breach_problem-Keeps none w h = h
  breach_problem-Keeps (some b) w h = h

-- A property of the world that every lawful transaction keeps.
abbrev pub ClosedWorld : Env → (World → Type 0) → Type 0
ClosedWorld env R =
    (items : List TxItem) (w : World)
    → Lawful items
    → R w
    → R (record w { db = (env.dynamo.transact items w.db).1 })

-- A property that does not look at the calls of the rail.
abbrev pub IgnoresCalls : (World → Type 0) → Type 0
IgnoresCalls R = (c : RailCall) (w : World) → R w → R (record w { calls = c ∷ w.calls })

-- A database action that consists of lawful transactions.
abbrev pub IsLawful : Env → {A : Type 0} → (Db → Result A × Db) → Type 1
IsLawful env f = (P : Db → Type 0) → Closed env.dynamo P → (db : Db) → P db → P (f db).1

pub OfDb-ClosedWorld :
    (env : Env) (P : Db → Type 0) → Closed env.dynamo P → ClosedWorld env (λ w. P w.db)
OfDb-ClosedWorld env P closed items w lawful h = closed items w.db lawful h

module _ (env : Env) (R : World → Type 0) (closed : ClosedWorld env R) {A : Type 0} where
  pub on_db-Keeps : (f : Db → Result A × Db) → IsLawful env f → Keeps R (on_db f)
  unfolding on_db
  on_db-Keeps f lawful w h =
      lawful (λ db. R (record w { db = db }))
        (λ items db l k. closed items (record w { db = db }) l k) w.db h

  pub timed-Keeps :
      (f : Moment → Db → Result A × Db)
      → ((t : Moment) → IsLawful env (f t))
      → Keeps R (timed env f)
  unfolding timed
  timed-Keeps f lawful w h = on_db-Keeps (f (env.clock w)) (lawful (env.clock w)) w h

pub log_call-Keeps :
    (R : World → Type 0) {A : Type 0} (c : RailCall) (f : World → Result A)
    → IgnoresCalls R
    → Keeps R (log_call c f)
unfolding log_call
log_call-Keeps R c f ignores w h = ignores c w h
