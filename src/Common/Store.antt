-- ===== src/Common/Store.antt =====
-- An array or the memory behind pointers, as a function of the index.
use Prim.Native.Nat.{ℕ}
use mathlib.Core.Path.{◌≡◌}
use mathlib.Core.Logic.{◌≢◌}
use mathlib.Core.Bool.{Bool, true, false}
use native.Mathlib.Omega.{arith}
use flashbench.Common.Tests.{◌==◌, if◌then◌else◌}

module _ {ℓ} {A : Type ℓ} where
  -- `mem[i] = v`
  abbrev pub update : (ℕ → A) → ℕ → A → ℕ → A
  update mem i v j = if i == j then v else mem j

  pub update_self : (mem : ℕ → A) (i : ℕ) (v : A) → update mem i v i ≡ v
  update_self mem i v = ground arith

  pub update_ne : (mem : ℕ → A) {i j : ℕ} (v : A) → i ≢ j → update mem i v j ≡ mem j
  update_ne mem v h = ground arith

  pub update_cases {κ} :
      (P : A → Type κ) (mem : ℕ → A) (i j : ℕ) (v : A) → P v → P (mem j) → P (update mem i v j)
  update_cases P mem i j v new old = go (i == j)
    where
      go : (b : Bool) → P (if b then v else mem j)
      go true = new
      go false = old
