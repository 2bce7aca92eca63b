-- ===== src/Memory.antt =====
-- The kernel's allocators, as the driver calls them, and pointers that may be null or may never have
-- been set. Whether a call is granted, and which address it answers, is the allocator's business: it
-- is a parameter of the state.
pub mod Holds
pub mod Arrays
use flashbench.Common.{
  ℕ, zero, suc, ◌+◌, ◌-◌, Bool, true, false, ◌||◌, Option, none, some, List, [], ◌∷◌, ◌==◌, update,
  replicate,
}
use flashbench.Common.Counts.{same}

-- `answer n` is the answer to the `n`-th request, and `live p` how often `p` is allocated; `bad` tells
-- of a free of what is not allocated, or of a use of a pointer that was never set.
pub record Mem : Type 0 where
  pub answer : ℕ → Option ℕ
  pub asked : ℕ
  pub live : ℕ → ℕ
  pub bad : Bool

-- `kmalloc`, `vmalloc` and the other functions of the kernel that make an object or answer null
unfoldable pub kmalloc : Mem → Option ℕ × Mem
kmalloc m = elim (m.answer m.asked) [
  | none ↦ (none, record m { asked = m.asked + 1 })
  | some p ↦ (some p, record m { asked = m.asked + 1; live = λ q. m.live q + same p q })
]

-- `kfree` and `vfree` of a pointer that is not null
unfoldable pub kfree : ℕ → Mem → Mem
kfree p m = record m { live = λ q. m.live q - same p q; bad = m.bad || m.live p == 0 }

-- The use of a pointer that was never set.
abbrev pub crash : Mem → Mem
crash m = record m { bad = true }

-- A pointer to an `A`.
pub data Ptr {ℓ} (A : Type ℓ) : Type ℓ where
  unset null : Ptr A
  to : A → Ptr A

-- `if (p) { kfree(p); }`
unfoldable pub free_if : Ptr ℕ → Mem → Mem
unfolding kfree
free_if unset m = crash m
free_if null m = m
free_if (to p) m = kfree p m

-- A call that answers a pointer, and how its caller goes on if that is null and if it is not.
abbrev pub on_result {ℓ κ} :
    {A : Type ℓ} {R : Type κ} → Option A × Mem → (Mem → R) → (A → Mem → R) → R
on_result (none, m) fail ok = fail m
on_result (some a, m) fail ok = ok a m

-- The cells of an array.
abbrev pub ptr_of {ℓ} : {A : Type ℓ} → Option A → Ptr A
ptr_of none = null
ptr_of (some a) = to a

-- A loop that sets the `n` cells of a new array and leaves it at the first null; whether it got
-- through.
unfoldable pub fill {ℓ} :
    {A : Type ℓ} → (Mem → Option A × Mem) → ℕ → Mem → Bool × List (Ptr A) × Mem
fill create zero m = (true, [], m)
fill create (suc n) m =
    on_result (create m) (λ m'. (false, null ∷ replicate n unset, m'))
      (λ a m'. let rest = fill create n m' in (rest.0, to a ∷ rest.1, rest.2))

-- A loop that takes each cell in turn, up to the first null.
unfoldable pub until_null {ℓ} : {A : Type ℓ} → (A → Mem → Mem) → List (Ptr A) → Mem → Mem
until_null destroy [] m = m
until_null destroy (unset ∷ cells) m = crash m
until_null destroy (null ∷ cells) m = m
until_null destroy (to a ∷ cells) m = until_null destroy cells (destroy a m)

-- A loop that takes each cell in turn, and passes over the nulls.
unfoldable pub each {ℓ} : {A : Type ℓ} → (A → Mem → Mem) → List (Ptr A) → Mem → Mem
each destroy [] m = m
each destroy (unset ∷ cells) m = crash m
each destroy (null ∷ cells) m = each destroy cells m
each destroy (to a ∷ cells) m = each destroy cells (destroy a m)

-- How the code goes on behind such a loop.
abbrev pub on_filled {ℓ κ} :
    {A : Type ℓ} {R : Type κ}
    → Bool × List (Ptr A) × Mem
    → (List (Ptr A) → Mem → R)
    → (List (Ptr A) → Mem → R)
    → R
on_filled (false, cells, m) fail ok = fail cells m
on_filled (true, cells, m) fail ok = ok cells m
