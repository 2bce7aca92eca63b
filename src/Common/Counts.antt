-- ===== src/Common/Counts.antt =====
-- How often a pointer stands in a list of pointers, and the removal of one occurrence.
use Prim.Native.Nat.{ℕ, ◌+◌, ◌≤◌, ◌<◌}
use mathlib.Core.Path.{◌≡◌}
use mathlib.Core.Logic.{◌≢◌}
use mathlib.Core.List.{List, [], ◌∷◌, ◌++◌}
use native.Mathlib.Omega.{arith}
use flashbench.Common.Tests.{◌==◌, if◌then◌else◌}
use flashbench.Common.Lists.{length}

-- 1 if the numbers are equal.
abbrev pub same : ℕ → ℕ → ℕ
same a b = if a == b then 1 else 0

abbrev pub count : ℕ → List ℕ → ℕ
count p [] = 0
count p (x ∷ xs) = same x p + count p xs

-- The list without the first occurrence of `p`.
abbrev pub remove : ℕ → List ℕ → List ℕ
remove p [] = []
remove p (x ∷ xs) = if x == p then xs else x ∷ remove p xs

pub same_self : (p : ℕ) → same p p ≡ 1
same_self p = ground arith

pub same_ne : {a b : ℕ} → a ≢ b → same a b ≡ 0
same_ne h = ground arith

pub same-le : (a b : ℕ) → same a b ≤ 1
same-le a b = ground arith

pub count-append : (p : ℕ) (xs ys : List ℕ) → count p (xs ++ ys) ≡ count p xs + count p ys
count-append p [] ys = omega arith
count-append p (x ∷ xs) ys = omega (arith, count-append p xs ys)

pub count-snoc : (p x : ℕ) (xs : List ℕ) → count p (xs ++ x ∷ []) ≡ count p xs + same x p
count-snoc p x xs = omega (arith, count-append p xs (x ∷ []))

pub count-remove :
    (p x : ℕ) (xs : List ℕ) → 0 < count x xs → count p (remove x xs) + same x p ≡ count p xs
count-remove p x [] h = absurd (omega arith)
count-remove p x (y ∷ xs) h = ground (arith, count-remove p x xs)

pub length-remove : (x : ℕ) (xs : List ℕ) → 0 < count x xs → length (remove x xs) + 1 ≡ length xs
length-remove x [] h = absurd (omega arith)
length-remove x (y ∷ xs) h = ground (arith, length-remove x xs)

pub remove_head : (x : ℕ) (xs : List ℕ) → remove x (x ∷ xs) ≡ xs
remove_head x xs = ground arith

pub count_head : (x : ℕ) (xs : List ℕ) → 0 < count x (x ∷ xs)
count_head x xs = ground arith
