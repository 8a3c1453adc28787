-- ===== src/Prelude/Tables.antt =====
-- Facts about all numbers below a bound, checked by evaluation.
use Prim.Native.Nat.{ℕ, zero, suc, ◌<◌}
use mathlib.Core.Path.{◌≡◌}
use mathlib.Core.Bool.{Bool, true, ◌&&◌}
use native.Mathlib.Omega.{arith}
use gdbstub.Prelude.Tests.{◌==◌}

unfoldable pub all_below : ℕ → (ℕ → Bool) → Bool
all_below zero test = true
all_below (suc top) test = all_below top test && test top

-- One entry of a table.
pub all_below_sound :
    (bound : ℕ) (test : ℕ → Bool) (i : ℕ) → all_below bound test ≡ true → i < bound → test i ≡ true
unfolding all_below
all_below_sound zero test i table below = absurd (omega arith)
all_below_sound (suc top) test i table below = ground (arith, all_below_sound top test i)

pub eq_below :
    (f g : ℕ → ℕ) (n : ℕ) → all_below n (λ x. f x == g x) ≡ true → (x : ℕ) → x < n → f x ≡ g x
eq_below f g n table x h =
    let e : (f x == g x) ≡ true = all_below_sound n (λ x. f x == g x) x table h in ground arith
