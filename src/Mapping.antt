-- ===== src/Mapping.antt =====
-- The page mapping: page_mapping_function.c, rust/src/page_mapping_function.rs and the structures of
-- ftl_algorithm_page_mapping.h. The table, which has `nr_entries` entries, is a function on logical
-- addresses, and so are the arrays of blocks over the chips.
pub mod Slots
pub mod Links
pub mod Place
pub mod Agree
pub mod Turns
pub mod Active
pub mod Table
pub mod Setup
pub mod Deletions
use Prim.Native.Nat.{bit_and, bit_or}
use flashbench.Common.{
  ℕ, zero, suc, ◌+◌, ◌-◌, ◌*◌, Bool, true, false, Option, none, some, Status, success, error, ◌==◌,
  if◌then◌else◌, update,
}
use flashbench.Config.{
  add_u32, sub_u32, to_u8, shl_u32, shr, num_buses, num_chips_per_bus, num_pages_per_block,
  nr_lp_in_pp, lp_page_mask, lp_page_shift, page_unmapped,
}
use flashbench.Address.{
  Layout, is_valid_address_range, convert_to_physical_address, convert_to_ssd_layout,
}
use flashbench.Ut.{Ut}
use flashbench.Ssd.{
  SsdInfo, FlashBlock, FlashPage, page_status_valid, page_status_invalid, set_mapped_lpa,
  set_pg_status, inc_nr_invalid_lps, inc_nr_valid_pgs, inc_nr_invalid_pgs, dec_nr_valid_pgs,
  dec_nr_free_pgs, inc_nr_valid_lps_in_blk, inc_nr_invalid_lps_in_blk, dec_nr_valid_lps_in_blk,
  set_rsv_blk_flag, set_act_blk_flag, get_block_info, on_block, on_page, get_free_block,
  reset_free_blk, set_used_blk, reset_used_blk, set_dirt_blk,
}

-- `page_mapping_context_t` with its tables and managers, and the blocks; a null block pointer is
-- `none`.
pub record Ftl : Type 0 where
  pub ssd : SsdInfo
  pub mappings : ℕ → ℕ
  pub act_blks : ℕ → Option ℕ
  pub gc_blks : ℕ → Option ℕ
  pub mru_bus : ℕ
  pub mru_chip : ℕ

unfoldable pub get_mapped_ppa : Ftl → ℕ → ℕ
get_mapped_ppa ftl lpa = ftl.mappings lpa

unfoldable pub set_mapped_ppa : Ftl → ℕ → ℕ → Ftl
set_mapped_ppa ftl lpa ppa = record ftl { mappings = update ftl.mappings lpa ppa }

-- The address with the place that it names; `none` is `PAGE_UNMAPPED`.
unfoldable pub get_mapped_physical_address : Ftl → ℕ → Option (ℕ × Layout)
get_mapped_physical_address ftl lpa =
    if is_valid_address_range lpa
    then (if ftl.mappings lpa == page_unmapped
        then none
        else some (ftl.mappings lpa, convert_to_ssd_layout (ftl.mappings lpa)))
    else none

unfoldable pub set_prev_bus_chip : Ftl → ℕ → ℕ → Ftl
set_prev_bus_chip ftl bus chip = record ftl { mru_bus = bus; mru_chip = chip }

unfoldable pub get_next_bus_chip : Ftl → ℕ × ℕ
get_next_bus_chip ftl =
    if ftl.mru_bus == num_buses - 1
    then (0, (if ftl.mru_chip == num_chips_per_bus - 1 then 0 else to_u8 (add_u32 ftl.mru_chip 1)))
    else (to_u8 (add_u32 ftl.mru_bus 1), to_u8 ftl.mru_chip)

-- The index of a chip in the arrays of blocks.
abbrev pub chip_index : ℕ → ℕ → ℕ
chip_index bus chip = bus * num_chips_per_bus + chip

unfoldable pub get_curr_gc_block : Ftl → ℕ → ℕ → Option ℕ
get_curr_gc_block ftl bus chip = ftl.gc_blks (chip_index bus chip)

unfoldable pub get_curr_active_block : Ftl → ℕ → ℕ → Option ℕ
get_curr_active_block ftl bus chip = ftl.act_blks (chip_index bus chip)

unfoldable pub set_curr_gc_block : Ftl → ℕ → ℕ → Option ℕ → Ftl
set_curr_gc_block ftl bus chip none = record ftl {
  gc_blks = update ftl.gc_blks (chip_index bus chip) none;
}
set_curr_gc_block ftl bus chip (some b) = record ftl {
  gc_blks = update ftl.gc_blks (chip_index bus chip) (some b);
  ssd = on_block ftl.ssd b (λ blki. set_rsv_blk_flag blki true);
}

unfoldable pub set_curr_active_block : Ftl → ℕ → ℕ → Option ℕ → Ftl
set_curr_active_block ftl bus chip none = record ftl {
  act_blks = update ftl.act_blks (chip_index bus chip) none;
}
set_curr_active_block ftl bus chip (some b) = record ftl {
  act_blks = update ftl.act_blks (chip_index bus chip) (some b);
  ssd = on_block ftl.ssd b (λ blki. set_act_blk_flag blki true);
}

-- The statements of `invalidate_lpg` on the logical page, up to the increment in the first test.
unfoldable pub invalidate_slot : SsdInfo → ℕ → ℕ → ℕ → SsdInfo
invalidate_slot s b pg ofs = on_block s b (λ blki.
    on_page
      (dec_nr_valid_lps_in_blk (
        inc_nr_invalid_lps_in_blk
          (on_page blki pg (λ pgi. set_pg_status pgi ofs page_status_invalid))))
      pg inc_nr_invalid_lps)

-- `__map_logical_to_physical` behind `invalidate_lpg` in its first branch, its second branch, and its
-- statements behind the branches.
unfoldable pub fill_slot : Ftl → ℕ → ℕ → ℕ → ℕ → ℕ → Ftl
unfolding set_mapped_ppa
fill_slot ftl lpa b pg lp_ofs ppa =
    set_mapped_ppa
      (record ftl {
        ssd = on_block ftl.ssd b (λ blki.
            on_page (inc_nr_valid_lps_in_blk blki) pg
              (λ pgi. set_pg_status pgi lp_ofs page_status_valid));
      })
      lpa ppa

unfoldable pub skip_slot : Ftl → ℕ → ℕ → ℕ → Ftl
skip_slot ftl b pg lp_ofs = record ftl {
  ssd = on_block ftl.ssd b (λ blki.
      on_page (inc_nr_invalid_lps_in_blk blki) pg
        (λ pgi. set_pg_status (inc_nr_invalid_lps pgi) lp_ofs page_status_invalid));
}

unfoldable pub finish_slot : Ftl → ℕ → ℕ → ℕ → ℕ → Ftl
finish_slot ftl lpa b pg lp_ofs = record ftl {
  ssd = on_block ftl.ssd b (λ blki.
      let mapped = on_page blki pg (λ pgi. set_mapped_lpa pgi lp_ofs lpa) in
      if lp_ofs == nr_lp_in_pp - 1 then dec_nr_free_pgs (inc_nr_valid_pgs mapped) else mapped);
}

module _ (ut : Ut) where
  -- The body of the second test of `invalidate_lpg`: all pages of the block are invalid.
  unfoldable pub retire_block : Ftl → ℕ → ℕ → ℕ → Ftl
  retire_block ftl bus chip b =
      let ftl' = record ftl { ssd = reset_used_blk ut ftl.ssd b } in
      elim (get_curr_gc_block ftl' bus chip) [
        | none ↦ set_curr_gc_block ftl' bus chip (some b)
        | some c ↦ record ftl' { ssd = set_dirt_blk ut ftl'.ssd b }
      ]

  -- The body of the first test: all logical pages of the page are invalid.
  unfoldable pub retire_page : Ftl → ℕ → ℕ → ℕ → Ftl
  unfolding retire_block
  retire_page ftl bus chip b =
      let ftl' = record ftl {
        ssd = on_block ftl.ssd b (λ blki. inc_nr_invalid_pgs (dec_nr_valid_pgs blki));
      } in
      if (ftl'.ssd.block_at b).nr_invalid_pages == num_pages_per_block
      then retire_block ftl' bus chip b
      else ftl'

  unfoldable pub invalidate_lpg : Ftl → ℕ → ℕ × Ftl
  unfolding retire_page invalidate_slot
  invalidate_lpg ftl lpa =
      let ppa = get_mapped_ppa ftl lpa in
      if ppa == page_unmapped
      then (ppa, ftl)
      else (let l = convert_to_ssd_layout ppa in
          let b = get_block_info l.bus l.chip l.block in
          let pg = shr l.page lp_page_shift in
          let ssd' = invalidate_slot ftl.ssd b pg (bit_and l.page lp_page_mask) in
          let ftl' = record ftl { ssd = ssd' } in
          let full = ((ssd'.block_at b).list_pages pg).nr_invalid_log_pages == nr_lp_in_pp in
          (
            ppa,
            set_mapped_ppa (if full then retire_page ftl' l.bus l.chip b else ftl') lpa
                page_unmapped,
          ))

  -- `__map_logical_to_physical`, which always returns 0.
  unfoldable pub map_logical_page : Ftl → ℕ → ℕ → ℕ → ℕ → ℕ → ℕ → Ftl
  unfolding invalidate_lpg fill_slot skip_slot finish_slot
  map_logical_page ftl lpa bus chip blk pg lp_ofs =
      let b = get_block_info bus chip blk in
      let ppa =
        convert_to_physical_address bus chip blk (bit_or (shl_u32 pg lp_page_shift) lp_ofs) in
      finish_slot
        (if lpa == page_unmapped
          then skip_slot ftl b pg lp_ofs
          else fill_slot (invalidate_lpg ftl lpa).1 lpa b pg lp_ofs ppa)
        lpa b pg lp_ofs

  -- The loop of `map_logical_to_physical` from logical page `lp_loop` on, with `n` rounds left.
  unfoldable pub map_logical_pages : ℕ → Ftl → (ℕ → ℕ) → ℕ → ℕ → ℕ → ℕ → ℕ → Ftl
  unfolding map_logical_page
  map_logical_pages zero ftl lpas bus chip block page lp_loop = ftl
  map_logical_pages (suc n) ftl lpas bus chip block page lp_loop =
      map_logical_pages n (map_logical_page ftl (lpas lp_loop) bus chip block page lp_loop) lpas bus
        chip block page (lp_loop + 1)

  unfoldable pub map_logical_to_physical : Ftl → (ℕ → ℕ) → ℕ → ℕ → ℕ → ℕ → Ftl
  unfolding map_logical_pages
  map_logical_to_physical ftl lpas bus chip block page =
      map_logical_pages nr_lp_in_pp ftl lpas bus chip block page 0

  -- The block and the page in it.
  unfoldable pub alloc_new_page : Ftl → ℕ → ℕ → Option (ℕ × ℕ) × Ftl
  alloc_new_page ftl bus chip = elim (get_curr_active_block ftl bus chip) [
    | some b ↦ (
      some (
        (ftl.ssd.block_at b).no_block,
        sub_u32 num_pages_per_block (ftl.ssd.block_at b).nr_free_pages,
      ),
      ftl,
    )
    | none ↦ elim (get_free_block ftl.ssd bus chip) [
      | none ↦ (none, ftl)
      | some b ↦
          let ftl' =
            set_curr_active_block (record ftl { ssd = reset_free_blk ut ftl.ssd b }) bus chip
              (some b) in
          (
            some (
              (ftl'.ssd.block_at b).no_block,
              sub_u32 num_pages_per_block (ftl'.ssd.block_at b).nr_free_pages,
            ),
            ftl',
          )
    ]
  ]

  -- `none` is the use of a null active block.
  unfoldable pub update_act_blk : Ftl → ℕ → ℕ → Option Ftl
  update_act_blk ftl bus chip = elim (get_curr_active_block ftl bus chip) [
    | none ↦ none
    | some b ↦
        if (ftl.ssd.block_at b).nr_free_pages == 0
        then (let ssd' =
              set_used_blk ut (on_block ftl.ssd b (λ blki. set_act_blk_flag blki false)) b in
            elim (get_free_block ssd' bus chip) [
              | none ↦ some (set_curr_active_block (record ftl { ssd = ssd' }) bus chip none)
              | some c ↦ some (
                  set_curr_active_block (record ftl { ssd = reset_free_blk ut ssd' c }) bus chip
                    (some c))
            ])
        else some ftl
  ]
