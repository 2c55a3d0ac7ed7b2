-- ===== src/Prelude/Table.antt =====
-- A table keyed by text: the row under each key, if there is one.
use Prim.Native.String.{String}
use mathlib.Core.Path.{◌≡◌}
use mathlib.Core.Logic.{◌≢◌}
use mathlib.Core.Bool.{Bool, true, false}
use mathlib.Core.Option.{Option, none, some}
use native.Mathlib.Omega.{arith}
use text.Mathlib.Text.{◌==◌}
use text.Mathlib.TextEquality.{eq_iff}
use ctech_wallet.Prelude.Tests.{if◌then◌else◌}

abbrev pub Table {ℓ} : Type ℓ → Type ℓ
Table V = String → Option V

module _ {ℓ} {V : Type ℓ} where
  abbrev pub empty : Table V
  empty k = none

  unfoldable pub write : String → V → Table V → Table V
  write k v t j = if k == j then some v else t j

  abbrev pub has : Option V → Bool
  has none = false
  has (some v) = true

  pub write_self : (k : String) (v : V) (t : Table V) → write k v t k ≡ some v
  unfolding write
  write_self k v t = ground (arith, eq_iff k k)

  pub write_ne : (k j : String) (v : V) (t : Table V) → k ≢ j → write k v t j ≡ t j
  unfolding write
  write_ne k j v t h = ground (arith, eq_iff k j)
