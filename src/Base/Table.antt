-- ===== src/Base/Table.antt =====
-- A property of every number below a small bound, checked by evaluation.
use Prim.Native.Nat.{ℕ, zero, suc, ◌<◌}
use mathlib.Core.Bool.{Bool, true, false}
use mathlib.Core.Path.{◌≡◌}
use native.Mathlib.Omega.{arith}
use epyx.Base.Tests.{if◌then◌else◌}

-- The test, at the bound's predecessors one after the other.
unfoldable pub table : (ℕ → Bool) → ℕ → Bool
table test zero = true
table test (suc bound) = let rest = table test bound in if test bound then rest else false

pub table_lem :
    (test : ℕ → Bool) (bound entry : ℕ)
    → entry < bound
    → table test bound ≡ true
    → test entry ≡ true
unfolding table
table_lem test (suc bound) entry below passed = ground (arith, table_lem test bound entry)
table_lem test zero entry below passed = absurd (omega (arith, below))
