-- ===== src/Mapping/Setup.antt =====
-- The making and the end of the parts of the translation layer, with their allocations: the mapping
-- table and the manager of the active blocks of ftl_algorithm_page_mapping.c.
pub mod Freed
pub mod Start
use flashbench.Common.{
  ℕ, zero, suc, ◌-◌, ◌≡◌, Bool, true, false, Option, none, some, List, [], ◌∷◌, ◌*◌, ◌/◌, update,
  replicate, if◌then◌else◌,
}
use flashbench.Config.{
  num_buses, num_chips_per_bus, num_blocks_per_chip, num_pages_per_block, physical_page_size,
  logical_page_size, cfactor_percent, page_unmapped, u32_mod, nr_max_lpas_discard,
}
use flashbench.Memory.{Mem, Ptr, unset, null, to, crash, kmalloc, kfree, free_if, on_result}
use flashbench.Ut.{Ut}
use flashbench.Ssd.{SsdInfo, get_free_block, reset_free_blk, set_act_blk_flag, on_block}
use flashbench.Mapping.{chip_index}

-- `page_mapping_table_t` with its address
pub record MtObj : Type 0 where
  pub self : ℕ
  pub nr_entries : ℕ
  pub mappings_at : Ptr ℕ
  pub mappings : ℕ → ℕ

unfoldable pub destroy_mapping_table : Ptr MtObj → Mem → Mem
destroy_mapping_table unset m = crash m
destroy_mapping_table null m = m
destroy_mapping_table (to mt) m = kfree mt.self (free_if mt.mappings_at m)

-- The number of entries of the table.
abbrev pub nr_mappings : ℕ
nr_mappings =
    num_buses * num_chips_per_bus * num_blocks_per_chip * num_pages_per_block * physical_page_size
    / logical_page_size * cfactor_percent / 100

-- The loop over the first `n` entries.
unfoldable pub unmap_entries : ℕ → (ℕ → ℕ) → ℕ → ℕ
unmap_entries zero mappings = mappings
unmap_entries (suc i) mappings = update (unmap_entries i mappings) i page_unmapped

-- `junk` is what the new array holds.
unfoldable pub create_page_mapping_table : (ℕ → ℕ) → Mem → Option MtObj × Mem
unfolding unmap_entries
create_page_mapping_table junk m =
    on_result (kmalloc m) (λ m1. (none, m1))
      (λ p m1.
        on_result (kmalloc m1) (λ m2. (none, kfree p m2))
          (λ a m2. (
            some (record {
              self = p;
              nr_entries = nr_mappings;
              mappings_at = to a;
              mappings = unmap_entries nr_mappings junk;
            }),
            m2,
          )))

-- `fb_act_blk_mngr_t` with its address
pub record AbmObj : Type 0 where
  pub self : ℕ
  pub act_blks_at : Ptr ℕ
  pub act_blks : ℕ → Option ℕ
  pub mru_bus : ℕ
  pub mru_chip : ℕ

unfoldable pub destroy_act_blk_mngr : Ptr AbmObj → Mem → Mem
destroy_act_blk_mngr unset m = crash m
destroy_act_blk_mngr null m = m
destroy_act_blk_mngr (to abm) m = kfree abm.self (free_if abm.act_blks_at m)

-- The chips in the order of the loops over the buses and over the chips of a bus.
abbrev pub chips_in_order : List (ℕ × ℕ)
chips_in_order = (0, 0) ∷ (0, 1) ∷ []

module _ (ut : Ut) where
  -- The loops that take a free block for each chip, and whether they got through.
  unfoldable pub take_act_blks :
      List (ℕ × ℕ) → (ℕ → Option ℕ) → SsdInfo → Bool × (ℕ → Option ℕ) × SsdInfo
  take_act_blks [] act_blks s = (true, act_blks, s)
  take_act_blks ((bus, chip) ∷ chips) act_blks s = elim (get_free_block s bus chip) [
    | none ↦ (false, act_blks, s)
    | some b ↦
        take_act_blks chips (update act_blks (chip_index bus chip) (some b))
          (on_block (reset_free_blk ut s b) b (λ blki. set_act_blk_flag blki true))
  ]

  -- The manager with its memory, and the blocks.
  unfoldable pub create_act_blk_mngr : SsdInfo → Mem → (Option AbmObj × Mem) × SsdInfo
  unfolding take_act_blks destroy_act_blk_mngr
  create_act_blk_mngr s m =
      on_result (kmalloc m) (λ m1. ((none, m1), s))
        (λ p m1.
          on_result (kmalloc m1)
            (λ m2. ((none, destroy_act_blk_mngr (to (manager p null (λ i. none))) m2), s))
            (λ a m2.
              let (got, act_blks, s') = take_act_blks chips_in_order (λ i. none) s in
              let abm = manager p (to a) act_blks in
              if got then ((some abm, m2), s') else ((none, destroy_act_blk_mngr (to abm) m2), s')))
    where
      manager : ℕ → Ptr ℕ → (ℕ → Option ℕ) → AbmObj
      manager p a act_blks = record {
        self = p;
        act_blks_at = a;
        act_blks = act_blks;
        mru_bus = num_buses - 1;
        mru_chip = num_chips_per_bus - 1;
      }
