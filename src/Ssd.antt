-- ===== src/Ssd.antt =====
-- The state of the device's blocks: ssd_info.c and ssd_info.h. A function on a `struct flash_page *` or
-- a `struct flash_block *` is a function on the record that it points to, whose result is the record
-- behind it; where the C function also returns a counter, that is the field it has changed. The array
-- of a chip's blocks does not overlap another chip's, and the address of a block is its index.
pub mod Fresh
pub mod Setup
use flashbench.Common.{ℕ, zero, suc, ◌+◌, ◌*◌, Bool, true, false, Option, List, [], head, update}
use flashbench.Config.{
  add_u32, sub_u32, num_chips_per_bus, num_blocks_per_chip, num_pages_per_block, nr_lp_in_pp,
  page_unmapped,
}
use flashbench.Ut.{Ut}

pub data PageStatus : Type 0 where
  page_status_free page_status_valid page_status_invalid page_status_del : PageStatus

pub record FlashPage : Type 0 where
  pub page_status : ℕ → PageStatus
  pub no_logical_page_addr : ℕ → ℕ
  pub nr_invalid_log_pages : ℕ
  pub del_flag : Bool

pub record FlashBlock : Type 0 where
  pub no_block : ℕ
  pub no_chip : ℕ
  pub no_bus : ℕ
  pub nr_valid_pages : ℕ
  pub nr_invalid_pages : ℕ
  pub nr_free_pages : ℕ
  pub nr_valid_log_pages : ℕ
  pub nr_invalid_log_pages : ℕ
  pub nr_erase_cnt : ℕ
  pub is_bad_block : Bool
  pub last_modified_time : ℕ
  pub is_reserved_block : Bool
  pub is_active_block : Bool
  pub list_pages : ℕ → FlashPage
  pub del_flag : Bool

pub record FlashChip : Type 0 where
  pub nr_free_blocks : ℕ
  pub nr_used_blks : ℕ
  pub nr_dirt_blks : ℕ
  pub free_blks : List ℕ
  pub used_blks : List ℕ
  pub dirt_blks : List ℕ
  pub nr_dirty_blocks : ℕ

-- The blocks by address, and the chips by bus and chip.
pub record SsdInfo : Type 0 where
  pub block_at : ℕ → FlashBlock
  pub chip_at : ℕ → ℕ → FlashChip

-- A page.
unfoldable pub get_mapped_lpa : FlashPage → ℕ → ℕ
get_mapped_lpa pgi ofs = pgi.no_logical_page_addr ofs

unfoldable pub set_mapped_lpa : FlashPage → ℕ → ℕ → FlashPage
set_mapped_lpa pgi ofs lpa = record pgi {
  no_logical_page_addr = update pgi.no_logical_page_addr ofs lpa;
}

unfoldable pub get_pg_status : FlashPage → ℕ → PageStatus
get_pg_status pgi ofs = pgi.page_status ofs

unfoldable pub set_pg_status : FlashPage → ℕ → PageStatus → FlashPage
set_pg_status pgi ofs status = record pgi { page_status = update pgi.page_status ofs status }

unfoldable pub inc_nr_invalid_lps : FlashPage → FlashPage
inc_nr_invalid_lps pgi = record pgi { nr_invalid_log_pages = add_u32 pgi.nr_invalid_log_pages 1 }

-- A block.
unfoldable pub get_pgi_from_blki : FlashBlock → ℕ → FlashPage
get_pgi_from_blki blki pg = blki.list_pages pg

unfoldable pub inc_nr_valid_pgs : FlashBlock → FlashBlock
inc_nr_valid_pgs blki = record blki { nr_valid_pages = add_u32 blki.nr_valid_pages 1 }

unfoldable pub inc_nr_invalid_pgs : FlashBlock → FlashBlock
inc_nr_invalid_pgs blki = record blki { nr_invalid_pages = add_u32 blki.nr_invalid_pages 1 }

unfoldable pub dec_nr_valid_pgs : FlashBlock → FlashBlock
dec_nr_valid_pgs blki = record blki { nr_valid_pages = sub_u32 blki.nr_valid_pages 1 }

unfoldable pub dec_nr_free_pgs : FlashBlock → FlashBlock
dec_nr_free_pgs blki = record blki { nr_free_pages = sub_u32 blki.nr_free_pages 1 }

unfoldable pub inc_nr_valid_lps_in_blk : FlashBlock → FlashBlock
inc_nr_valid_lps_in_blk blki = record blki {
  nr_valid_log_pages = add_u32 blki.nr_valid_log_pages 1;
}

unfoldable pub inc_nr_invalid_lps_in_blk : FlashBlock → FlashBlock
inc_nr_invalid_lps_in_blk blki = record blki {
  nr_invalid_log_pages = add_u32 blki.nr_invalid_log_pages 1;
}

unfoldable pub dec_nr_valid_lps_in_blk : FlashBlock → FlashBlock
dec_nr_valid_lps_in_blk blki = record blki {
  nr_valid_log_pages = sub_u32 blki.nr_valid_log_pages 1;
}

unfoldable pub inc_bers_cnt : FlashBlock → FlashBlock
inc_bers_cnt blki = record blki { nr_erase_cnt = add_u32 blki.nr_erase_cnt 1 }

unfoldable pub set_rsv_blk_flag : FlashBlock → Bool → FlashBlock
set_rsv_blk_flag blki flag = record blki { is_reserved_block = flag }

unfoldable pub set_act_blk_flag : FlashBlock → Bool → FlashBlock
set_act_blk_flag blki flag = record blki { is_active_block = flag }

-- The loops of `init_blk_inf`: the first `n` logical pages of a page, and the first `n` pages.
unfoldable pub init_lps : ℕ → FlashPage → FlashPage
unfolding set_mapped_lpa set_pg_status
init_lps zero pgi = pgi
init_lps (suc lp) pgi =
    set_pg_status (set_mapped_lpa (init_lps lp pgi) lp page_unmapped) lp page_status_free

unfoldable pub init_pgs : ℕ → (ℕ → FlashPage) → ℕ → FlashPage
unfolding init_lps
init_pgs zero pages = pages
init_pgs (suc pg) pages = update (init_pgs pg pages) pg (
    init_lps nr_lp_in_pp
      (record (init_pgs pg pages pg) { nr_invalid_log_pages = 0; del_flag = false }))

unfoldable pub init_blk_inf : FlashBlock → FlashBlock
unfolding set_act_blk_flag set_rsv_blk_flag init_pgs
init_blk_inf blki = record (set_rsv_blk_flag (set_act_blk_flag blki false) false) {
  nr_free_pages = num_pages_per_block;
  nr_valid_pages = 0;
  nr_invalid_pages = 0;
  nr_valid_log_pages = 0;
  nr_invalid_log_pages = 0;
  del_flag = false;
  list_pages = init_pgs num_pages_per_block blki.list_pages;
}

unfoldable pub get_block_info : ℕ → ℕ → ℕ → ℕ
get_block_info bus chip block = (bus * num_chips_per_bus + chip) * num_blocks_per_chip + block

-- A change of the block at an address, of one of its pages, and of a block's chip.
abbrev pub on_block : SsdInfo → ℕ → (FlashBlock → FlashBlock) → SsdInfo
on_block s b f = record s { block_at = update s.block_at b (f (s.block_at b)) }

abbrev pub on_page : FlashBlock → ℕ → (FlashPage → FlashPage) → FlashBlock
on_page blki pg f = record blki { list_pages = update blki.list_pages pg (f (blki.list_pages pg)) }

abbrev pub on_chip : SsdInfo → ℕ → (FlashChip → FlashChip) → SsdInfo
on_chip s b f =
    let bus = (s.block_at b).no_bus in
    let chip = (s.block_at b).no_chip in
    record s {
      chip_at = update s.chip_at bus (update (s.chip_at bus) chip (f (s.chip_at bus chip)));
    }

-- The first block of a list, which its head pointer points to.
unfoldable pub get_free_block : SsdInfo → ℕ → ℕ → Option ℕ
get_free_block s bus chip = head (s.chip_at bus chip).free_blks

unfoldable pub get_used_block : SsdInfo → ℕ → ℕ → Option ℕ
get_used_block s bus chip = head (s.chip_at bus chip).used_blks

unfoldable pub get_dirt_block : SsdInfo → ℕ → ℕ → Option ℕ
get_dirt_block s bus chip = head (s.chip_at bus chip).dirt_blks

module _ (ut : Ut) where
  open ut use {dl_append, dl_delete}

  unfoldable pub set_free_blk : SsdInfo → ℕ → SsdInfo
  set_free_blk s b = on_chip s b (λ ci. record ci {
    free_blks = dl_append ci.free_blks b;
    nr_free_blocks = add_u32 ci.nr_free_blocks 1;
  })

  unfoldable pub reset_free_blk : SsdInfo → ℕ → SsdInfo
  reset_free_blk s b = on_chip s b (λ ci. record ci {
    free_blks = dl_delete ci.free_blks b;
    nr_free_blocks = sub_u32 ci.nr_free_blocks 1;
  })

  unfoldable pub set_used_blk : SsdInfo → ℕ → SsdInfo
  set_used_blk s b = on_chip s b (λ ci. record ci {
    used_blks = dl_append ci.used_blks b;
    nr_used_blks = add_u32 ci.nr_used_blks 1;
  })

  unfoldable pub reset_used_blk : SsdInfo → ℕ → SsdInfo
  reset_used_blk s b = on_chip s b (λ ci. record ci {
    used_blks = dl_delete ci.used_blks b;
    nr_used_blks = sub_u32 ci.nr_used_blks 1;
  })

  unfoldable pub set_dirt_blk : SsdInfo → ℕ → SsdInfo
  set_dirt_blk s b = on_chip s b (λ ci. record ci {
    dirt_blks = dl_append ci.dirt_blks b;
    nr_dirt_blks = add_u32 ci.nr_dirt_blks 1;
  })

  unfoldable pub reset_dirt_blk : SsdInfo → ℕ → SsdInfo
  reset_dirt_blk s b = on_chip s b (λ ci. record ci {
    dirt_blks = dl_delete ci.dirt_blks b;
    nr_dirt_blks = sub_u32 ci.nr_dirt_blks 1;
  })
