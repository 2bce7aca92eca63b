-- ===== src/Discard.antt =====
-- The discard request: `make_discard_request_page_mapping` and `_fb_del_invalidate_pgs` of
-- ftl_algorithm_page_mapping.c. The addresses that `invalidate_lpg` answers are stored in `ppas`,
-- which nothing reads, and are left out with the rest of the DEL manager.
pub mod Ranges
pub mod Effects
use mathlib.Core.List.{foldl}
use flashbench.Common.{
  ℕ, zero, suc, ◌+◌, ◌-◌, ◌%◌, ◌^◌, ◌/◌, List, [], ◌∷◌, ◌++◌, length, ◌==◌, ltb, if◌then◌else◌,
}
use flashbench.Config.{to_u32, nr_max_lpas_discard}
use flashbench.Ut.{Ut}
use flashbench.WriteBuffer.{WriteBuffer, fb_rm_buf_pg}
use flashbench.Mapping.{Ftl, invalidate_lpg}

-- `x & (~(7))` on `u64`
abbrev pub align_down : ℕ → ℕ
align_down x = x - x % 8

-- The first logical page and the number of the pages of a request that starts at sector `bi_sector`
-- and is `bi_size` bytes long.
unfoldable pub discard_range : ℕ → ℕ → ℕ × ℕ
discard_range bi_sector bi_size =
    let sec_start = align_down ((bi_sector + 7) % 2 ^ 64) in
    let sec_end = align_down ((bi_sector + bi_size / 2 ^ 9) % 2 ^ 64) in
    (sec_start / 2 ^ 3, (if ltb sec_start sec_end then (sec_end - sec_start) / 2 ^ 3 else 0))

module _ (ut : Ut) where
  -- `_fb_del_invalidate_pgs`
  unfoldable pub fb_del_invalidate_pgs : Ftl → List ℕ → Ftl
  fb_del_invalidate_pgs ftl req_lpas = foldl (λ f lpa. (invalidate_lpg ut f lpa).1) ftl req_lpas

  -- The first loop: `n` pages from page `lpa` on leave the write buffer.
  unfoldable pub rm_buf_pgs : ℕ → ℕ → WriteBuffer ut → WriteBuffer ut
  rm_buf_pgs zero lpa wb = wb
  rm_buf_pgs (suc n) lpa wb = rm_buf_pgs n (lpa + 1) (fb_rm_buf_pg ut wb (to_u32 lpa))

  -- The second loop and the statement behind it. `batch` are the first `bio_loop` entries of
  -- `lpas_to_discard`.
  unfoldable pub discard_pgs : ℕ → ℕ → List ℕ → Ftl → Ftl
  unfolding fb_del_invalidate_pgs
  discard_pgs zero lpa [] ftl = ftl
  discard_pgs zero lpa (l ∷ batch) ftl = fb_del_invalidate_pgs ftl (l ∷ batch)
  discard_pgs (suc n) lpa batch ftl =
      if length batch == nr_max_lpas_discard - 1
      then discard_pgs n (lpa + 1) [] (fb_del_invalidate_pgs ftl (batch ++ to_u32 lpa ∷ []))
      else discard_pgs n (lpa + 1) (batch ++ to_u32 lpa ∷ []) ftl

  unfoldable pub make_discard_request_page_mapping :
      ℕ → ℕ → WriteBuffer ut × Ftl → WriteBuffer ut × Ftl
  unfolding discard_range rm_buf_pgs discard_pgs
  make_discard_request_page_mapping bi_sector bi_size (wb, ftl) =
      let (lpa_start, nr_lpgs) = discard_range bi_sector bi_size in
      (rm_buf_pgs nr_lpgs lpa_start wb, discard_pgs nr_lpgs lpa_start [] ftl)
