-- ===== src/Requests.antt =====
-- The pages of a block request: `fb_build_bio` of main.c, with its allocation granted.
pub mod Build
use flashbench.Common.{
  ℕ, ◌+◌, ◌-◌, ◌%◌, Option, none, some, List, [], ◌∷◌, ◌++◌, Status, success, error,
}
use flashbench.Config.{add_u32, to_u32, shr}
use flashbench.Bio.{FbBio}
use flashbench.Ut.{Ut}
use flashbench.WriteBuffer.{WriteBuffer, Data, fb_get_pg_data}

pub data Direction : Type 0 where
  read write : Direction

-- The request gets one entry more. The entries stand in the arrays of `fb_bio_t`, which have
-- `NR_MAX_REQ_BIO` of them. The code does not compare the count with that bound, and a write behind the
-- arrays is not modelled: the lists stand for them as long as a request has at most that many segments.
unfoldable pub add_entry : FbBio → ℕ → ℕ → FbBio
add_entry fbio lpa page = record fbio {
  lpas = fbio.lpas ++ lpa ∷ [];
  kpages = fbio.kpages ++ page ∷ [];
  req_count = add_u32 fbio.req_count 1;
}

module _ (ut : Ut) where
  -- The answer of the write buffer to a read; a write does not ask it.
  unfoldable pub buffered : Direction → WriteBuffer ut → ℕ → Option Data
  buffered read wb lpa = (fb_get_pg_data ut wb lpa).1
  buffered write wb lpa = none

  -- The loop over the segments, known by the addresses of their pages, from sector `sec_start` on; it
  -- also answers what is written to the pages.
  unfoldable pub build_segments :
      Direction → WriteBuffer ut → ℕ → List ℕ → FbBio → FbBio × List (ℕ × Data)
  unfolding buffered add_entry
  build_segments rw wb sec_start [] fbio = (fbio, [])
  build_segments rw wb sec_start (page ∷ pages) fbio =
      let hit = build_segments rw wb (sec_start + 8) pages fbio in
      let miss =
        build_segments rw wb (sec_start + 8) pages
          (add_entry fbio (to_u32 (shr sec_start 3)) page) in
      elim (buffered rw wb (to_u32 (shr sec_start 3))) [
        | some d ↦ (hit.0, (page, d) ∷ hit.1)
        | none ↦ miss
      ]

  unfoldable pub fb_build_bio :
      Direction → WriteBuffer ut → ℕ → List ℕ → ℕ → FbBio × List (ℕ × Data)
  unfolding build_segments
  fb_build_bio rw wb bi_sector pages bio =
      build_segments rw wb (bi_sector - bi_sector % 8) pages
        (record { req_count = 0; lpas = []; kpages = []; bio = bio })
