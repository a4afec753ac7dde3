-- ===== src/Base/Random.antt =====
-- `randIntn` of internal/router/random.go and internal/keypool/random_util.go.
use Prim.Native.Nat.{ℕ, ◌%◌, ◌<◌}
use mathlib.Core.Option.{Option, none, some}
use native.Mathlib.Omega.{arith}
use cc_relay.Base.Tests.{if◌then◌else◌}
use cc_relay.Base.Int.{ℤ, pos, pos_part, leb_ℤ}

-- One draw: what `crypto/rand` has to give (`none` is its error), and the clock in nanoseconds.
pub record Draw : Type 0 where
  pub entropy : Option ℕ
  pub unix_nano : ℕ

-- `rand.Int(rand.Reader, max)` gives a number below `max`, here the entropy modulo `max`.
unfoldable pub rand_intn : Draw → ℤ → ℕ
rand_intn d upper_bound = if leb_ℤ upper_bound (pos 0) then 0 else elim d.entropy [
  | some v ↦ v % pos_part upper_bound
  | none ↦ d.unix_nano % pos_part upper_bound
]

pub rand_intn-lt : (d : Draw) (n : ℕ) → 0 < n → rand_intn d (pos n) < n
unfolding rand_intn
rand_intn-lt d n h = ground arith
