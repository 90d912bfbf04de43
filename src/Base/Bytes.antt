-- ===== src/Base/Bytes.antt =====
-- Facts about bytes by evaluation at every value.
use Prim.Native.Nat.{ℕ, zero, suc, ◌<◌}
use mathlib.Core.Path.{◌≡◌}
use mathlib.Core.Bool.{Bool, true, ◌&&◌}
use native.Mathlib.Omega.{arith}

-- The test passes at all numbers below the bound.
unfoldable pub passes_below : (ℕ → Bool) → ℕ → Bool
passes_below test zero = true
passes_below test (suc bound) = passes_below test bound && test bound

pub passes_below_lem :
    (test : ℕ → Bool) (bound byte : ℕ)
    → byte < bound
    → passes_below test bound ≡ true
    → test byte ≡ true
unfolding passes_below
passes_below_lem test zero byte below all = absurd (omega arith)
passes_below_lem test (suc bound) byte below all = ground (arith, passes_below_lem test bound byte)
