-- ===== src/Base/Enumerate.antt =====
-- Statements over a small range, decided by evaluation at every value.
use Prim.Native.Nat.{ℕ, zero, suc, ◌<◌}
use mathlib.Core.Path.{◌≡◌}
use mathlib.Core.Bool.{Bool, true, false, ◌&&◌}
use native.Mathlib.Omega.{arith}

-- The test passes at every number below the bound.
unfoldable pub passes_below : ℕ → (ℕ → Bool) → Bool
passes_below zero test = true
passes_below (suc bound) test = let smaller = passes_below bound test in smaller && test bound

pub passes_below_at :
    (bound : ℕ) (test : ℕ → Bool) (k : ℕ)
    → passes_below bound test ≡ true
    → k < bound
    → test k ≡ true
unfolding passes_below
passes_below_at zero test k passed below = absurd (omega arith)
passes_below_at (suc bound) test k passed below = ground (arith, passes_below_at bound test k)

-- The test passes at both truth values.
abbrev pub passes_both : (Bool → Bool) → Bool
passes_both test = test true && test false

pub passes_both_at : (test : Bool → Bool) (b : Bool) → passes_both test ≡ true → test b ≡ true
passes_both_at test true passed = ground arith
passes_both_at test false passed = ground arith
