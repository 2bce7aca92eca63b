-- ===== src/Common/Results.antt =====
-- The result of a function that returns 0 or -1.
use mathlib.Core.Path.{◌≡◌, refl}
use mathlib.Core.Logic.{◌⊎◌, inl, inr}
use mathlib.Core.Option.{Option, none, some}

pub data Status : Type 0 where
  success error : Status

pub Status-cases : (s : Status) → (s ≡ success) ⊎ (s ≡ error)
Status-cases success = inl refl
Status-cases error = inr refl

pub status_elim {ℓ κ} :
    {R : Type ℓ} (P : R → Type κ) (s : Status) (x y : R)
    → (s ≡ success → P x)
    → (s ≡ error → P y)
    → P (elim s [ success ↦ x | error ↦ y ])
status_elim P success x y f g = f refl
status_elim P error x y f g = g refl

-- There is a result, with the property.
abbrev pub Each {ℓ} : {A : Type ℓ} → (A → Type 0) → Option A → Type 0
Each P none = ⊥
Each P (some a) = P a
