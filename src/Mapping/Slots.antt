-- ===== src/Mapping/Slots.antt =====
-- The status and the logical address of a logical page in a block, and what the steps of the mapping
-- do to them.
use flashbench.Common.{
  ℕ, ◌≡◌, refl, ap, ◌∙◌, Bool, true, false, ◌&&◌, arith, ◌==◌, if◌then◌else◌, Option-cases, inl,
  inr,
}
use flashbench.Ut.{Ut}
use flashbench.Ssd.{
  SsdInfo, FlashBlock, PageStatus, page_status_invalid, on_block, set_pg_status, inc_nr_invalid_lps,
  dec_nr_valid_lps_in_blk, inc_nr_invalid_lps_in_blk, reset_used_blk, set_dirt_blk,
  set_rsv_blk_flag, inc_nr_invalid_pgs, dec_nr_valid_pgs,
}
use flashbench.Mapping.{
  Ftl, chip_index, invalidate_slot, retire_block, retire_page, get_curr_gc_block, set_curr_gc_block,
}

abbrev pub status_at : SsdInfo → ℕ → ℕ → ℕ → PageStatus
status_at s b pg ofs = ((s.block_at b).list_pages pg).page_status ofs

abbrev pub lpa_at : SsdInfo → ℕ → ℕ → ℕ → ℕ
lpa_at s b pg ofs = ((s.block_at b).list_pages pg).no_logical_page_addr ofs

-- The same pages in all blocks.
abbrev pub SamePages : SsdInfo → SsdInfo → Type 0
SamePages s s' = (c : ℕ) → (s'.block_at c).list_pages ≡ (s.block_at c).list_pages

pub on_block-SamePages :
    (s : SsdInfo) (b : ℕ) (f : FlashBlock → FlashBlock)
    → (f (s.block_at b)).list_pages ≡ (s.block_at b).list_pages
    → SamePages s (on_block s b f)
on_block-SamePages s b f e c =
    ground (arith, e, ap (λ i. (s.block_at i).list_pages) {x = b} {y = c})

-- `invalidate_slot` marks one logical page, and touches no other and no logical address.
pub invalidate_slot_status :
    (s : SsdInfo) (b pg ofs c q o : ℕ)
    → status_at (invalidate_slot s b pg ofs) c q o
      ≡ (if b == c && (pg == q && ofs == o) then page_status_invalid else status_at s c q o)
unfolding invalidate_slot set_pg_status inc_nr_invalid_lps dec_nr_valid_lps_in_blk
    inc_nr_invalid_lps_in_blk
invalidate_slot_status s b pg ofs c q o = ground (
  arith,
  ap (λ i. status_at s i q o) {x = b} {y = c},
  ap (λ i. status_at s b i o) {x = pg} {y = q},
)

pub invalidate_slot_lpa :
    (s : SsdInfo) (b pg ofs c q o : ℕ) → lpa_at (invalidate_slot s b pg ofs) c q o ≡ lpa_at s c q o
unfolding invalidate_slot set_pg_status inc_nr_invalid_lps dec_nr_valid_lps_in_blk
    inc_nr_invalid_lps_in_blk
invalidate_slot_lpa s b pg ofs c q o =
    ground
      (arith, ap (λ i. lpa_at s i q o) {x = b} {y = c}, ap (λ i. lpa_at s b i o) {x = pg} {y = q})

-- The same pages, and the same table.
abbrev pub Quiet : Ftl → Ftl → Type 0
Quiet ftl ftl' = SamePages ftl.ssd ftl'.ssd × (ftl'.mappings ≡ ftl.mappings)

pub if-Quiet :
    (t : Bool) (ftl x y : Ftl) → Quiet ftl x → Quiet ftl y → Quiet ftl (if t then x else y)
if-Quiet true ftl x y p q = p
if-Quiet false ftl x y p q = q

module _ (ut : Ut) where
  retire_block-Quiet : (ftl : Ftl) (bus chip b : ℕ) → Quiet ftl (retire_block ut ftl bus chip b)
  unfolding retire_block set_dirt_blk reset_used_blk get_curr_gc_block set_curr_gc_block
      set_rsv_blk_flag
  retire_block-Quiet ftl bus chip b = elim (Option-cases (ftl.gc_blks (chip_index bus chip))) [
    | inl e ↦
        rw (e, retire_block)
          (on_block-SamePages ftl.ssd b (λ blki. set_rsv_blk_flag blki true) refl, refl)
    | inr (q, e) ↦ rw (e, retire_block) ((λ c. refl), refl)
  ]

  pub retire_page-Quiet : (ftl : Ftl) (bus chip b : ℕ) → Quiet ftl (retire_page ut ftl bus chip b)
  unfolding retire_page inc_nr_invalid_pgs dec_nr_valid_pgs
  retire_page-Quiet ftl bus chip b =
      if-Quiet _ ftl (retire_block ut counted bus chip b) counted
        (
          (λ c. (retire_block-Quiet counted bus chip b).0 c ∙ same c),
          (retire_block-Quiet counted bus chip b).1,
        )
        (same, refl)
    where
      counted : Ftl
      counted = record ftl {
        ssd = on_block ftl.ssd b (λ blki. inc_nr_invalid_pgs (dec_nr_valid_pgs blki));
      }

      same : SamePages ftl.ssd counted.ssd
      same = on_block-SamePages ftl.ssd b (λ blki. inc_nr_invalid_pgs (dec_nr_valid_pgs blki)) refl
