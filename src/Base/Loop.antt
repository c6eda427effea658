-- ===== src/Base/Loop.antt =====
-- A check of every value of a table's index.
use Prim.Native.Nat.{ℕ, zero, suc, ◌<◌}
use mathlib.Core.Path.{◌≡◌}
use mathlib.Core.Bool.{Bool, true, ◌&&◌}
use native.Mathlib.Omega.{arith}

-- The test holds for every index below the size.
unfoldable pub passes : (ℕ → Bool) → ℕ → Bool
passes test zero = true
passes test (suc size) = passes test size && test size

pub passes-test :
    (test : ℕ → Bool) (size index : ℕ) → index < size → passes test size ≡ true → test index ≡ true
unfolding passes
passes-test test zero index below all = absurd (omega arith)
passes-test test (suc size) index below all = ground (arith, passes-test test size index)
