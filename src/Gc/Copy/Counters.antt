-- ===== src/Gc/Copy/Counters.antt =====
-- What the counters of the blocks and of their pages say.
use flashbench.Common.{
  ℕ, zero, suc, ◌+◌, ◌*◌, ◌<◌, ◌≤◌, ◌≡◌, refl, ◌⊎◌, Option, none, some, [], ◌++◌, length,
  length-append, arith,
}
use flashbench.Common.Counts.{count}
use flashbench.Config.{num_chips_per_bus, num_pages_per_block, nr_lp_in_pp}
use flashbench.Ssd.{SsdInfo}
use flashbench.Gc.Copy.Fetched.{PageCounted, option_lpas, pages_lpas}

-- How many logical pages of `n` pages from `pg` on of a block are valid.
abbrev pub count_lps : SsdInfo → Option ℕ → ℕ → ℕ → ℕ
count_lps s o zero pg = 0
count_lps s o (suc n) pg = length (option_lpas s pg o) + count_lps s o n (pg + 1)

pub length-pages_lpas :
    (s : SsdInfo) (vic : ℕ → Option ℕ) (n pg : ℕ)
    → length (pages_lpas s vic n pg) ≡ count_lps s (vic 0) n pg + count_lps s (vic 1) n pg
length-pages_lpas s vic zero pg = refl
length-pages_lpas s vic (suc n) pg =
    let first = option_lpas s pg (vic 0) in
    let second = option_lpas s pg (vic 1) in
    let rest = pages_lpas s vic n (pg + 1) in
    omega (
      arith,
      length-pages_lpas s vic n (pg + 1),
      length-append (first ++ (second ++ [])) rest,
      length-append first (second ++ []),
      length-append second [],
    )

-- The counters of a block and of its pages agree with the slots.
pub record BlockCounted (s : SsdInfo) (b : ℕ) : Type 0 where
  pub pages : (pg : ℕ) → pg < num_pages_per_block → PageCounted s b pg
  pub valid : (s.block_at b).nr_valid_log_pages ≡ count_lps s (some b) num_pages_per_block 0

-- All used and dirty blocks are so.
abbrev pub AllCounted : SsdInfo → Type 0
AllCounted s =
    (chip b : ℕ)
    → chip < num_chips_per_bus
    → (0 < count b (s.chip_at 0 chip).dirt_blks) ⊎ (0 < count b (s.chip_at 0 chip).used_blks)
    → BlockCounted s b

pub count_lps-none : (s : SsdInfo) (n pg : ℕ) → count_lps s none n pg ≡ 0
count_lps-none s zero pg = refl
count_lps-none s (suc n) pg = omega (arith, count_lps-none s n (pg + 1))

pub count_lps-le :
    (s : SsdInfo) (b n pg : ℕ)
    → ((i : ℕ) → i < n + pg → PageCounted s b i)
    → count_lps s (some b) n pg ≤ nr_lp_in_pp * n
count_lps-le s b zero pg h = omega arith
count_lps-le s b (suc n) pg h =
    omega (arith, h pg (omega arith), count_lps-le s b n (pg + 1) (λ i k. h i (omega (arith, k))))
