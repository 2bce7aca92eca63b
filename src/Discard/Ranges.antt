-- ===== src/Discard/Ranges.antt =====
-- Which pages a discard request covers.
use flashbench.Common.{ℕ, ◌+◌, ◌*◌, ◌/◌, ◌^◌, ◌≤◌, ◌<◌, ◌↔◌, arith}
use flashbench.Discard.{discard_range}

-- Exactly the pages of eight sectors that lie wholly inside the request are discarded; the request
-- ends below sector 2^64 - 7.
pub discard_range_lem :
    (bi_sector bi_size lpa : ℕ)
    → bi_sector + bi_size / 2 ^ 9 + 7 < 2 ^ 64
    → (((discard_range bi_sector bi_size).0 ≤ lpa)
        × (lpa < (discard_range bi_sector bi_size).0 + (discard_range bi_sector bi_size).1))
      ↔ ((bi_sector ≤ lpa * 8) × (lpa * 8 + 8 ≤ bi_sector + bi_size / 2 ^ 9))
unfolding discard_range
discard_range_lem bi_sector bi_size lpa h = (λ p. ground (arith, p), λ p. ground (arith, p))
