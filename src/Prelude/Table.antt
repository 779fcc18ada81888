-- ===== src/Prelude/Table.antt =====
-- A fact about every number of a small range, by evaluation, and the facts about the bit operations
-- on bytes that the components use.
use Prim.Native.Nat.{ℕ, zero, suc, ◌<◌}
use mathlib.Core.Path.{◌≡◌}
use mathlib.Core.Bool.{Bool, true, ◌&&◌}
use native.Mathlib.Omega.{arith}

unfoldable pub all_below : ℕ → (ℕ → Bool) → Bool
all_below zero test = true
all_below (suc bound) test = all_below bound test && test bound

pub all_below_sound :
    (bound : ℕ) (test : ℕ → Bool) (i : ℕ) → all_below bound test ≡ true → i < bound → test i ≡ true
unfolding all_below
all_below_sound zero test i passed below = absurd (omega arith)
all_below_sound (suc bound) test i passed below = ground (arith, all_below_sound bound test i)

-- A test of every pair below `n` and `k`.
pub all_pairs_sound :
    (n k : ℕ) (p : ℕ → ℕ → Bool) (x y : ℕ)
    → all_below n (λ x. all_below k (p x)) ≡ true
    → x < n
    → y < k
    → p x y ≡ true
all_pairs_sound n k p x y h lx ly =
    all_below_sound k (p x) y (all_below_sound n (λ x. all_below k (p x)) x h lx) ly
