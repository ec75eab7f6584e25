-- ===== src/Prelude/Range.antt =====
-- Facts about all numbers of a small range, by evaluation.
use Prim.Native.Nat.{ℕ, zero, suc, ◌<◌}
use mathlib.Core.Path.{◌≡◌}
use mathlib.Core.Bool.{Bool, true, false}
use native.Mathlib.Omega.{arith}
use gateway_esp.Prelude.Logic.{if◌then◌else◌}

-- The test succeeds at all bytes below the bound.
unfoldable pub each_under : (ℕ → Bool) → ℕ → Bool
each_under test zero = true
each_under test (suc bound) = let rest = each_under test bound in if test bound then rest else false

pub test_of_each_under :
    (test : ℕ → Bool) (bound byte : ℕ)
    → byte < bound
    → each_under test bound ≡ true
    → test byte ≡ true
unfolding each_under
test_of_each_under test zero byte small all = absurd (omega arith)
test_of_each_under test (suc bound) byte small all =
    ground (arith, test_of_each_under test bound byte)
