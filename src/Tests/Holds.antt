-- ===== src/Tests/Holds.antt =====
-- The theorems on holds at work on the sample state.
use ctech_wallet.Prelude.{refl, [], ◌∷◌, arith}
use ctech_wallet.Prelude.Int.{pos, negsuc, ◌-ℤ◌, leb_ℤ, ltb_ℤ, eqb_ℤ}
use ctech_wallet.Prelude.Table.{write}
use ctech_wallet.Domain.Model.{Hold, HoldStatus}
use ctech_wallet.Store.Keys.{entry_sk}
use ctech_wallet.Store.Tables.{
  Db, find_entry, effects, conditions, condition, effect, moved, balance_condition, distinct,
}
use ctech_wallet.Store.Dynamo.{Moment}
use ctech_wallet.Store.Memory.{memory, memory-IsDynamo, memory-IsPrompt}
use ctech_wallet.Store.Lawful.{Invariant}
use ctech_wallet.Ledger.Exact.{MovesBalance}
use ctech_wallet.Ledger.{
  transact_write, check_replay, same_request, balance_tx, guard_tx, new_entry,
}
use ctech_wallet.Holds.{
  create_hold, release_hold, cashout_holds, opened_hold, open_or_replay, open_on, opening_settled,
  opening_items, opening_entry, movement_items,
}
use ctech_wallet.Holds.Books.{create_hold-Invariant}
use ctech_wallet.Holds.Lifecycle.{
  StandsOpen, ClosesHeld, SettlesAll, create_hold_once, release_hold_once, cashout_holds_once,
}
use ctech_wallet.Holds.Exact.{IsReady, create_release_restores}
use ctech_wallet.Tests.Sample.{moment, real_wallet, sample, sample-Invariant}

abbrev later : Moment
later = record moment { now_str = "2026-11-26T13:00:00Z"; entry_id = "e2" }

-- The state after a buy-in of 200 at a table, and its hold.
abbrev bought_in : Db
bought_in = (create_hold memory moment "h1" "WALLET#1" "ana" (pos 200) "t1" "buy#1" "x1" sample).1

abbrev buy_in : Hold
buy_in = opened_hold memory moment "h1" "WALLET#1" "ana" (pos 200) "t1" "buy#1" "x1"

bought_in-Invariant : Invariant bought_in
bought_in-Invariant =
    create_hold-Invariant memory moment "h1" "WALLET#1" "ana" (pos 200) "t1" "buy#1" "x1" sample
      memory-IsDynamo (ground arith) sample-Invariant

create_hold_once_example :
    StandsOpen "h1" "WALLET#1" "ana" (pos 200) "t1" "buy#1" moment.now_str sample bought_in
create_hold_once_example =
    create_hold_once memory moment sample "h1" "WALLET#1" "ana" (pos 200) "t1" "buy#1" "x1"
      memory-IsDynamo

release_hold_once_example :
    ClosesHeld buy_in.hold_id HoldStatus.released later.now_str bought_in
      (release_hold memory later buy_in "out#1" "x2" bought_in).1
release_hold_once_example =
    release_hold_once memory later bought_in buy_in "out#1" "x2" memory-IsDynamo

cashout_holds_once_example :
    SettlesAll memory later "WALLET#1" "ana"
      (pos 350)
      "t1"
      (buy_in ∷ [])
      "cash#1"
      "x3"
      ""
      bought_in
      (cashout_holds memory later "WALLET#1" "ana"
        (pos 350)
        "t1"
        (buy_in ∷ [])
        "cash#1"
        "x3"
        ""
        bought_in).1
cashout_holds_once_example =
    cashout_holds_once memory later "WALLET#1" "ana" (pos 350) "t1" (buy_in ∷ []) "cash#1" "x3" ""
      bought_in memory-IsDynamo

sample-IsReady : IsReady moment "buy#1" "WALLET#1" real_wallet sample
unfolding write find_entry entry_sk
sample-IsReady = record { no_guard = refl; wallet_row = refl; free_sk = refl }

-- The sample with the hold standing, and with it closed.
abbrev with_hold : HoldStatus → Db
with_hold status = record sample {
  holds = write "h1" (record buy_in { status = status }) sample.holds;
}

with_hold-IsReady : (s : HoldStatus) → IsReady later "out#1" "WALLET#1" real_wallet (with_hold s)
unfolding write find_entry entry_sk
with_hold-IsReady s = record { no_guard = refl; wallet_row = refl; free_sk = refl }

bought_in-IsReady :
    IsReady later "out#1" "WALLET#1"
      (moved (pos 200) (negsuc 0) moment.now_str real_wallet)
      bought_in
unfolding write find_entry entry_sk create_hold open_or_replay open_on opening_settled
    transact_write opening_items opening_entry movement_items opened_hold balance_tx guard_tx
    new_entry conditions condition effects effect moved balance_condition distinct check_replay
    same_request leb_ℤ ltb_ℤ eqb_ℤ ◌-ℤ◌
bought_in-IsReady = record { no_guard = refl; wallet_row = refl; free_sk = refl }

create_release_restores_example :
    MovesBalance "WALLET#1"
      (moved (pos 200) (negsuc 0) moment.now_str real_wallet)
      (pos 500)
      bought_in
      (release_hold memory later buy_in "out#1" "x2" bought_in).1
create_release_restores_example =
    create_release_restores memory moment later "h1" "WALLET#1" "ana" (pos 200) "t1" "buy#1" "x1"
      "out#1" "x2" real_wallet (moved (pos 200) (negsuc 0) moment.now_str real_wallet) sample
      memory-IsPrompt sample-IsReady refl (ground arith) bought_in-IsReady
