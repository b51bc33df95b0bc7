-- ===== src/Prelude/Tables.antt =====
-- Two functions on a short range of numbers, compared at each of them by evaluation.
use Prim.Native.Nat.{ℕ, zero, suc, ◌<◌}
use mathlib.Core.Path.{◌≡◌}
use mathlib.Core.Bool.{Bool, true, ◌&&◌}
use native.Mathlib.Omega.{arith}
use solidframe.Prelude.Tests.{◌==◌}

-- Whether the functions have the same values below the bound.
unfoldable pub same_below : (f g : ℕ → ℕ) → ℕ → Bool
same_below f g zero = true
same_below f g (suc bound) = same_below f g bound && f bound == g bound

pub agree_below :
    (f g : ℕ → ℕ) (bound : ℕ) → same_below f g bound ≡ true → (x : ℕ) → x < bound → f x ≡ g x
unfolding same_below
agree_below f g zero table x below = absurd (omega arith)
agree_below f g (suc bound) table x below =
    ground (arith, λ (t : same_below f g bound ≡ true). agree_below f g bound t x)
