-- ===== src/Common/Sums.antt =====
-- Sums over the indices below a bound.
use Prim.Native.Nat.{ℕ, zero, suc, ◌+◌, ◌<◌}
use mathlib.Core.Path.{◌≡◌, refl, ap₂}
use mathlib.Core.Logic.{◌≢◌}
use native.Mathlib.Decide.{ℕ_discrete}
use native.Mathlib.Omega.{arith}

abbrev pub sum_below : ℕ → (ℕ → ℕ) → ℕ
sum_below zero g = 0
sum_below (suc n) g = g n + sum_below n g

pub sum_below_congr :
    (n : ℕ) (g g' : ℕ → ℕ) → ((j : ℕ) → j < n → g j ≡ g' j) → sum_below n g ≡ sum_below n g'
sum_below_congr zero g g' h = refl
sum_below_congr (suc n) g g' h =
    ap₂ ◌+◌ (h n (omega arith)) (sum_below_congr n g g' (λ j k. h j (omega arith)))

-- A change at one index changes the sum by as much.
pub sum_below_change :
    (n c : ℕ) (g g' : ℕ → ℕ)
    → c < n
    → ((j : ℕ) → j ≢ c → g j ≡ g' j)
    → sum_below n g + g' c ≡ sum_below n g' + g c
sum_below_change zero c g g' k h = absurd (omega arith)
sum_below_change (suc n) c g g' k h = elim (ℕ_discrete c n) [
  | yes e ↦
      let rest = sum_below_congr n g g' (λ j l. h j (λ d. absurd (omega arith))) in
      rw e (omega arith)
  | no ne ↦
      let rest = sum_below_change n c g g' (omega arith) h in
      omega (arith, h n (λ d. ne (omega arith)))
]
