-- ===== src/Common/Tests.antt =====
-- Boolean tests on the native numbers, the conditional, and case lemmas on computed values.
use Prim.Native.Nat.{ℕ, ◌<◌, compare, Ordering}
use mathlib.Core.Path.{◌≡◌, refl, ap}
use mathlib.Core.Logic.{◌↔◌, ◌⊎◌, ◌≢◌, inl, inr}
use mathlib.Core.Bool.{Bool, true, false}
use mathlib.Core.Option.{Option, none, some}
use native.Mathlib.Omega.{arith}

abbrev pub ltb : ℕ → ℕ → Bool
ltb a b = elim (compare a b) [ Ordering.lt ↦ true | _ ↦ false ]

abbrev pub leb : ℕ → ℕ → Bool
leb a b = elim (compare a b) [ Ordering.gt ↦ false | _ ↦ true ]

infix 50 ◌==◌
abbrev pub ◌==◌ : ℕ → ℕ → Bool
a == b = elim (compare a b) [ Ordering.eq ↦ true | _ ↦ false ]

infix 1 if◌then◌else◌
abbrev pub if◌then◌else◌ {ℓ} : {A : Type ℓ} → Bool → A → A → A
if true then x else y = x
if false then x else y = y

pub ltb→lt : (a b : ℕ) → ltb a b ≡ true → a < b
ltb→lt a b h = ground arith

pub lt→ltb : (a b : ℕ) → a < b → ltb a b ≡ true
lt→ltb a b h = ground arith

pub ==_iff : (a b : ℕ) → ((a == b) ≡ true) ↔ (a ≡ b)
==_iff a b = ground arith

pub ==_self : (a : ℕ) → (a == a) ≡ true
==_self a = ground arith

pub ==_ne : (a b : ℕ) → a ≢ b → (a == b) ≡ false
==_ne a b h = ground arith

pub Bool-cases : (b : Bool) → (b ≡ true) ⊎ (b ≡ false)
Bool-cases true = inl refl
Bool-cases false = inr refl

pub Option-cases {ℓ} : {A : Type ℓ} (o : Option A) → (o ≡ none) ⊎ ((a : A) × (o ≡ some a))
Option-cases none = inl refl
Option-cases (some a) = inr (a, refl)

pub if_eq {ℓ} : {A : Type ℓ} {a b : ℕ} (x y : A) → a ≡ b → (if a == b then x else y) ≡ x
if_eq x y e = ap (λ t. if t then x else y) ((==_iff _ _).1 e)

pub if_ne {ℓ} : {A : Type ℓ} {a b : ℕ} (x y : A) → a ≢ b → (if a == b then x else y) ≡ y
if_ne {a} {b} x y e = ap (λ t. if t then x else y) (==_ne a b e)

-- The next step of a chain that stops at the first `none`.
infixl 1 ◌>>=◌
abbrev pub ◌>>=◌ {ℓ κ} : {A : Type ℓ} {B : Type κ} → Option A → (A → Option B) → Option B
none >>= f = none
some a >>= f = f a

-- A property of the results of a conditional and of a case, from one of each branch.
pub if_elim {ℓ κ} :
    {A : Type ℓ} (P : A → Type κ) (t : Bool) (x y : A) → P x → P y → P (if t then x else y)
if_elim P true x y p q = p
if_elim P false x y p q = q

pub if_split {ℓ κ} :
    {A : Type ℓ} (P : A → Type κ) (t : Bool) (x y : A)
    → (t ≡ true → P x)
    → (t ≡ false → P y)
    → P (if t then x else y)
if_split P true x y p q = p refl
if_split P false x y p q = q refl

pub opt_elim {ℓ κ κ'} :
    {A : Type ℓ} {R : Type κ} (P : R → Type κ') (o : Option A) (n : R) (s : A → R)
    → P n
    → ((a : A) → P (s a))
    → P (elim o [ none ↦ n | some a ↦ s a ])
opt_elim P none n s p q = p
opt_elim P (some a) n s p q = q a

pub bool_elim {ℓ κ} :
    {R : Type ℓ} (P : R → Type κ) (t : Bool) (x y : R)
    → (t ≡ true → P x)
    → (t ≡ false → P y)
    → P (elim t [ true ↦ x | false ↦ y ])
bool_elim P true x y f g = f refl
bool_elim P false x y f g = g refl
