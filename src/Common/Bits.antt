-- ===== src/Common/Bits.antt =====
-- The bit operations at variables: a mask of low bits is a remainder, and the union of a shifted
-- number with one that fits below the shift is their sum.
use Prim.Native.Nat.{
  ℕ, zero, suc, ◌+◌, ◌*◌, ◌/◌, ◌%◌, ◌^◌, ◌≤◌, ◌<◌, min, max, digits, bitwise, bit_and, bit_or,
  bit_and-bitwise, bit_or-bitwise,
}
use mathlib.Core.Path.{◌≡◌, refl, ap, ◌∙◌}
use native.Mathlib.Nat.{le_refl, pow-suc}
use native.Mathlib.Omega.{arith}
use native.Mathlib.Decide.{ℕ_discrete}

-- A number of at most `n` needs no more than `n` rounds on its binary digits: one round more leaves the
-- result alone, and so do any number of them.
spare_round :
    (on_zero : ℕ → ℕ) (digit : ℕ → ℕ → ℕ) (n x y : ℕ)
    → x ≤ n
    → digits on_zero digit (suc n) x y ≡ digits on_zero digit n x y
spare_round on_zero digit (suc n) (suc x) y h =
    ap (λ high. high * 2 + digit (suc x % 2) (y % 2))
      (spare_round on_zero digit n (suc x / 2) (y / 2) (omega arith))
spare_round on_zero digit (suc n) zero y h = refl
spare_round on_zero digit zero (suc x) y h = absurd (omega arith)
spare_round on_zero digit zero zero y h = refl

spare_rounds :
    (on_zero : ℕ → ℕ) (digit : ℕ → ℕ → ℕ) (x y m : ℕ)
    → x ≤ m
    → digits on_zero digit m x y ≡ digits on_zero digit x x y
spare_rounds on_zero digit x y zero h =
    ap (λ n. digits on_zero digit n x y) {x = 0} {y = x} (omega arith)
spare_rounds on_zero digit x y (suc m) h = elim (ℕ_discrete x (suc m)) [
  | yes e ↦ ap (λ n. digits on_zero digit n x y) {x = suc m} {y = x} (omega arith)
  | no ne ↦
      spare_round on_zero digit m x y (omega arith) ∙ spare_rounds on_zero digit x y m (omega arith)
]

-- The lowest digit of a bit operation on a positive number, and the operation on the other digits.
lowest_digit :
    (on_zero : ℕ → ℕ) (digit : ℕ → ℕ → ℕ) (x y : ℕ)
    → bitwise on_zero digit (suc x) y
      ≡ bitwise on_zero digit (suc x / 2) (y / 2) * 2 + digit (suc x % 2) (y % 2)
lowest_digit on_zero digit x y =
    ap (λ high. high * 2 + digit (suc x % 2) (y % 2))
      (spare_rounds on_zero digit (suc x / 2) (y / 2) x (omega arith))

bit_or-halves : (x y : ℕ) → bit_or x y ≡ bit_or (x / 2) (y / 2) * 2 + max (x % 2) (y % 2)
bit_or-halves (suc x) y = simp bit_or-bitwise (lowest_digit (λ w. w) max x y)
bit_or-halves zero y = simp bit_or-bitwise (omega arith)

bit_and-halves : (x y : ℕ) → bit_and x y ≡ bit_and (x / 2) (y / 2) * 2 + min (x % 2) (y % 2)
bit_and-halves (suc x) y = simp bit_and-bitwise (lowest_digit (λ _. 0) min x y)
bit_and-halves zero y = simp bit_and-bitwise (omega arith)

zero-bit_and : (b : ℕ) → bit_and 0 b ≡ 0
zero-bit_and b = bit_and-bitwise 0 b

bit_or-zero_fuel : (n a : ℕ) → a ≤ n → bit_or a 0 ≡ a
bit_or-zero_fuel n zero h = bit_or-bitwise 0 0
bit_or-zero_fuel zero (suc a) h = absurd (omega arith)
bit_or-zero_fuel (suc n) (suc a) h =
    omega (arith, bit_or-halves (suc a) 0, bit_or-zero_fuel n (suc a / 2) (omega arith))

-- `(a << k) | b` is `a * 2^k + b` where `b` has at most `k` bits.
pub bit_or-shift : (k a b : ℕ) → b < 2 ^ k → bit_or (a * 2 ^ k) b ≡ a * 2 ^ k + b
bit_or-shift zero a b h =
    let e : b ≡ 0 = omega arith in
    rw e (omega (arith, bit_or-zero_fuel (a * 2 ^ 0) (a * 2 ^ 0) (le_refl _)))
bit_or-shift (suc k) a b h =
    let half : bit_or (a * 2 ^ suc k / 2) (b / 2) ≡ a * 2 ^ k + b / 2 =
      rw even (bit_or-shift k a (b / 2) (omega (arith, p))) in
    omega (arith, p, bit_or-halves (a * 2 ^ suc k) b, half, odd, twice)
  where
    p : 2 ^ suc k ≡ 2 ^ k * 2
    p = pow-suc 2 k

    twice : a * 2 ^ suc k ≡ a * 2 ^ k * 2
    twice = rw p (omega arith)

    even : a * 2 ^ suc k / 2 ≡ a * 2 ^ k
    even = omega (arith, twice)

    odd : a * 2 ^ suc k % 2 ≡ 0
    odd = omega (arith, twice)

-- The union of a multiple of `2^k` with a number below `2^k` is their sum.
pub bit_or-eq-add : (k c a b : ℕ) → a ≡ c * 2 ^ k → b < 2 ^ k → bit_or a b ≡ a + b
bit_or-eq-add k c a b e h = rw e (bit_or-shift k c b h)

-- A mask that ends in four ones keeps the last four bits.
bit_and_nibble : (m x : ℕ) → bit_and (m * 16 + 15) x ≡ bit_and m (x / 16) * 16 + x % 16
bit_and_nibble m x = omega (
  arith,
  bit_and-halves (m * 16 + 15) x,
  halves (m * 16 + 15) (m * 8 + 7) (x / 2) (omega arith),
  bit_and-halves (m * 8 + 7) (x / 2),
  halves (m * 8 + 7) (m * 4 + 3) (x / 2 / 2) (omega arith),
  bit_and-halves (m * 4 + 3) (x / 2 / 2),
  halves (m * 4 + 3) (m * 2 + 1) (x / 2 / 2 / 2) (omega arith),
  bit_and-halves (m * 2 + 1) (x / 2 / 2 / 2),
  halves (m * 2 + 1) m (x / 2 / 2 / 2 / 2) (omega arith),
  ap (bit_and m) sixteenth,
)
  where
    halves : (a b y : ℕ) → a / 2 ≡ b → bit_and (a / 2) y ≡ bit_and b y
    halves a b y e = ap (λ t. bit_and t y) e

    sixteenth : x / 2 / 2 / 2 / 2 ≡ x / 16
    sixteenth = omega arith

-- `0xf & x`
pub bit_and_0xf : (x : ℕ) → bit_and 0xf x ≡ x % 16
bit_and_0xf x = omega (arith, bit_and_nibble 0 x, zero-bit_and (x / 16))

-- `0xfff & x`
pub bit_and_0xfff : (x : ℕ) → bit_and 0xfff x ≡ x % 4096
bit_and_0xfff x =
    omega (arith, bit_and_nibble 0xff x, bit_and_nibble 0xf (x / 16), bit_and_0xf (x / 16 / 16))

-- `3 & x`
pub bit_and_three : (x : ℕ) → bit_and 3 x ≡ x % 4
bit_and_three x =
    omega (arith, bit_and-halves 3 x, bit_and-halves 1 (x / 2), zero-bit_and (x / 2 / 2))

bit_and-zero_fuel : (n a : ℕ) → a ≤ n → bit_and a 0 ≡ 0
bit_and-zero_fuel n zero h = zero-bit_and 0
bit_and-zero_fuel zero (suc a) h = absurd (omega arith)
bit_and-zero_fuel (suc n) (suc a) h =
    omega (arith, bit_and-halves (suc a) 0, bit_and-zero_fuel n (suc a / 2) (omega arith))

-- `x & 3`
pub masked_three : (x : ℕ) → bit_and x 3 ≡ x % 4
masked_three x = omega (
  arith,
  bit_and-halves x 3,
  bit_and-halves (x / 2) 1,
  bit_and-zero_fuel (x / 2 / 2) (x / 2 / 2) (le_refl _),
)
