-- ===== src/Ssd/Setup.antt =====
-- The making and the end of the device's description: `create_ssd_info` and `destroy_ssd_info` of
-- ssd_info.c. The arrays of buses, chips and blocks are lists of the pointers that their elements hold,
-- and the values of the fields are set by a walk of their own, since no allocation depends on them.
pub mod Freed
pub mod Lists
use flashbench.Common.{
  ℕ, zero, suc, Bool, true, false, Option, none, some, List, [], ◌∷◌, replicate, update,
  if◌then◌else◌,
}
use flashbench.Config.{num_buses, num_chips_per_bus, num_blocks_per_chip, num_pages_per_block}
use flashbench.Memory.{Mem, Ptr, unset, null, to, kmalloc, kfree, on_result, fill, on_filled, each}
use flashbench.Ut.{Ut}
use flashbench.Ssd.{
  SsdInfo, FlashBlock, FlashChip, FlashPage, init_pgs, get_block_info, set_free_blk,
}

-- A chip's array of blocks, and the pointers to their pages.
pub record BlocksObj : Type 0 where
  pub list_blocks_at : ℕ
  pub list_pages_at : List (Ptr ℕ)

-- A bus's array of chips, and the pointers to their blocks.
pub record ChipsObj : Type 0 where
  pub list_chips_at : ℕ
  pub list_blocks : List (Ptr BlocksObj)

-- A new block, over the pages that the new array holds.
unfoldable pub init_block : (ℕ → FlashPage) → ℕ → ℕ → ℕ → FlashBlock
unfolding init_pgs
init_block pages bus chip block = record {
  no_block = block;
  no_chip = chip;
  no_bus = bus;
  nr_valid_pages = 0;
  nr_invalid_pages = 0;
  nr_free_pages = num_pages_per_block;
  nr_valid_log_pages = 0;
  nr_invalid_log_pages = 0;
  nr_erase_cnt = 0;
  is_bad_block = false;
  last_modified_time = 0;
  is_reserved_block = false;
  is_active_block = false;
  list_pages = init_pgs num_pages_per_block pages;
  del_flag = false;
}

-- A chip before its blocks.
abbrev pub new_chip : FlashChip
new_chip = record {
  nr_free_blocks = 0;
  nr_used_blks = 0;
  nr_dirt_blks = 0;
  free_blks = [];
  used_blks = [];
  dirt_blks = [];
  nr_dirty_blocks = 0;
}

module _ (ut : Ut) (junk : ℕ → FlashPage) where
  -- The loop over the first `n` blocks of a chip.
  unfoldable pub init_blocks : ℕ → ℕ → ℕ → SsdInfo → SsdInfo
  unfolding init_block
  init_blocks zero bus chip s = s
  init_blocks (suc block) bus chip s =
      let b = get_block_info bus chip block in
      let s' = init_blocks block bus chip s in
      set_free_blk ut
        (record s' { block_at = update s'.block_at b (init_block junk bus chip block) }) b

  -- The loop over the first `n` chips of a bus.
  unfoldable pub init_chips : ℕ → ℕ → SsdInfo → SsdInfo
  unfolding init_blocks
  init_chips zero bus s = s
  init_chips (suc chip) bus s =
      let s' = init_chips chip bus s in
      init_blocks num_blocks_per_chip bus chip
        (record s' { chip_at = update s'.chip_at bus (update (s'.chip_at bus) chip new_chip) })

  -- The loop over the first `n` buses.
  unfoldable pub init_buses : ℕ → SsdInfo → SsdInfo
  unfolding init_chips
  init_buses zero s = s
  init_buses (suc bus) s = init_chips num_chips_per_bus bus (init_buses bus s)

-- The description with its addresses.
pub record SsdObj : Type 0 where
  pub self : ℕ
  pub list_buses_at : ℕ
  pub list_chips : List (Ptr ChipsObj)
  pub info : SsdInfo

-- The allocations for the `n` chips of a bus: whether all were granted, and the pointers. The first
-- that is refused ends all loops.
unfoldable pub alloc_chips : ℕ → Mem → Bool × List (Ptr BlocksObj) × Mem
alloc_chips zero m = (true, [], m)
alloc_chips (suc n) m =
    on_result (kmalloc m) (λ m'. (false, null ∷ replicate n unset, m'))
      (λ a m'.
        on_filled (fill kmalloc num_blocks_per_chip m')
          (λ pages m''. (
            false,
            to (record { list_blocks_at = a; list_pages_at = pages }) ∷ replicate n unset,
            m'',
          ))
          (λ pages m''.
            let rest = alloc_chips n m'' in
            (rest.0, to (record { list_blocks_at = a; list_pages_at = pages }) ∷ rest.1, rest.2)))

-- The same for the buses.
unfoldable pub alloc_buses : ℕ → Mem → Bool × List (Ptr ChipsObj) × Mem
unfolding alloc_chips
alloc_buses zero m = (true, [], m)
alloc_buses (suc n) m =
    on_result (kmalloc m) (λ m'. (false, null ∷ replicate n unset, m'))
      (λ a m'.
        on_filled (alloc_chips num_chips_per_bus m')
          (λ chips m''. (
            false,
            to (record { list_chips_at = a; list_blocks = chips }) ∷ replicate n unset,
            m'',
          ))
          (λ chips m''.
            let rest = alloc_buses n m'' in
            (rest.0, to (record { list_chips_at = a; list_blocks = chips }) ∷ rest.1, rest.2)))

-- The loops at `FAIL_ALLOC_INFOS` and in `destroy_ssd_info`, from the inside out.
unfoldable pub free_blocks : BlocksObj → Mem → Mem
free_blocks c m = kfree c.list_blocks_at (each kfree c.list_pages_at m)

unfoldable pub free_chips : ChipsObj → Mem → Mem
unfolding free_blocks
free_chips c m = kfree c.list_chips_at (each free_blocks c.list_blocks m)

unfoldable pub free_infos : ℕ → ℕ → List (Ptr ChipsObj) → Mem → Mem
unfolding free_chips
free_infos p a buses m = kfree p (kfree a (each free_chips buses m))

module _ (ut : Ut) (junk : ℕ → FlashPage) (wild : SsdInfo) where
  -- `wild` is what the new arrays hold.
  unfoldable pub create_ssd_info : Mem → Option SsdObj × Mem
  unfolding alloc_buses free_infos
  create_ssd_info m =
      on_result (kmalloc m) (λ m1. (none, m1))
        (λ p m1.
          on_result (kmalloc m1) (λ m2. (none, kfree p m2))
            (λ a m2.
              on_filled (alloc_buses num_buses m2) (λ buses m3. (none, free_infos p a buses m3))
                (λ buses m3. (
                  some (record {
                    self = p;
                    list_buses_at = a;
                    list_chips = buses;
                    info = init_buses ut junk num_buses wild;
                  }),
                  m3,
                ))))

unfoldable pub destroy_ssd_info : SsdObj → Mem → Mem
unfolding free_infos
destroy_ssd_info o m = free_infos o.self o.list_buses_at o.list_chips m
