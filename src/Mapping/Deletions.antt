-- ===== src/Mapping/Deletions.antt =====
-- The manager of deletions of ftl_algorithm_page_mapping.c: its making and its end, with their
-- allocations.
pub mod Wild
pub mod Leak
use flashbench.Common.{
  ℕ, zero, suc, ◌-◌, ◌≡◌, Bool, true, false, Option, none, some, List, [], ◌∷◌, ◌*◌, ◌/◌, update,
  replicate, if◌then◌else◌,
}
use flashbench.Config.{
  num_buses, num_chips_per_bus, num_blocks_per_chip, num_pages_per_block, physical_page_size,
  logical_page_size, cfactor_percent, page_unmapped, u32_mod, nr_max_lpas_discard,
}
use flashbench.Memory.{Mem, Ptr, unset, null, to, crash, kmalloc, kfree, free_if, on_result}
use flashbench.Ut.{Ut}
use flashbench.Ssd.{SsdInfo, get_free_block, reset_free_blk, set_act_blk_flag, on_block}
use flashbench.Mapping.{chip_index}

-- `NUM_BTODS` and `NUM_WTODS`
abbrev pub num_btods : ℕ
num_btods = nr_max_lpas_discard

abbrev pub num_wtods : ℕ
num_wtods = nr_max_lpas_discard

-- -1 as a `u32`
abbrev pub minus_one : ℕ
minus_one = u32_mod - 1

-- `fb_del_mngr_t` with its address, the blocks in the array `btod` and the fields `wl_idx`, `bus` and
-- `chip` in the array `wtod`; a head of a hash table is set or not, and points to a table or is
-- null.
pub record DelmObj : Type 0 where
  pub self : ℕ
  pub btod : Ptr ℕ
  pub btod_blks : List (Option ℕ)
  pub nr_btod : Option ℕ
  pub hash_btod : Ptr ℕ
  pub wtod : Ptr ℕ
  pub wtods : List (ℕ × ℕ × ℕ)
  pub nr_wtod : Option ℕ
  pub hash_wtod : Ptr ℕ
  pub ppas : Ptr ℕ
  pub lpas_to_copy : Ptr ℕ
  pub data_to_copy : Ptr ℕ
  pub nr_pgs_to_copy : Option ℕ

-- The manager behind its own allocation: nothing is set.
abbrev pub wild_delm : ℕ → DelmObj
wild_delm p = record {
  self = p;
  btod = unset;
  btod_blks = [];
  nr_btod = none;
  hash_btod = unset;
  wtod = unset;
  wtods = [];
  nr_wtod = none;
  hash_wtod = unset;
  ppas = unset;
  lpas_to_copy = unset;
  data_to_copy = unset;
  nr_pgs_to_copy = none;
}

-- The assignments of `create_del_mngr`; the loop over an array stands before the next assignment.
abbrev pub set_btod : DelmObj → Ptr ℕ → DelmObj
set_btod delm a = record delm { btod = a }

abbrev pub set_wtod : DelmObj → Ptr ℕ → DelmObj
set_wtod delm a = record delm { btod_blks = replicate num_btods none; wtod = a }

abbrev pub set_ppas : DelmObj → Ptr ℕ → DelmObj
set_ppas delm a = record delm {
  wtods = replicate num_wtods (minus_one, minus_one, minus_one);
  ppas = a;
}

abbrev pub set_lpas_to_copy : DelmObj → Ptr ℕ → DelmObj
set_lpas_to_copy delm a = record delm { lpas_to_copy = a }

abbrev pub set_data_to_copy : DelmObj → Ptr ℕ → DelmObj
set_data_to_copy delm a = record delm { data_to_copy = a }

-- `HASH_CLEAR` of a table, which frees what uthash has allocated for it.
module _ (hash_clear : ℕ → Mem → Mem) where
  -- `HASH_CLEAR` by a head, which does nothing for null.
  unfoldable pub clear_head : Ptr ℕ → Mem → Mem
  clear_head unset m = crash m
  clear_head null m = m
  clear_head (to t) m = hash_clear t m

  unfoldable pub init_delm : DelmObj → Mem → DelmObj × Mem
  unfolding clear_head
  init_delm delm m = (
    record delm {
      nr_btod = some 0;
      hash_btod = null;
      nr_wtod = some 0;
      hash_wtod = null;
      nr_pgs_to_copy = some 0;
    },
    clear_head delm.hash_wtod (clear_head delm.hash_btod m),
  )

  unfoldable pub destroy_del_mngr : Ptr DelmObj → Mem → Mem
  unfolding clear_head
  destroy_del_mngr unset m = crash m
  destroy_del_mngr null m = m
  destroy_del_mngr (to delm) m = kfree delm.self (
      free_if delm.data_to_copy (
        free_if delm.lpas_to_copy (
          free_if delm.wtod
            (free_if delm.btod (clear_head delm.hash_wtod (clear_head delm.hash_btod m))))))

  -- An allocation for a field, or the way out at the label `FAIL`.
  unfoldable pub alloc_field :
      (Ptr ℕ → DelmObj) → Mem → (DelmObj → Mem → Option DelmObj × Mem) → Option DelmObj × Mem
  unfolding destroy_del_mngr
  alloc_field set m next =
      on_result (kmalloc m) (λ m'. (none, destroy_del_mngr (to (set null)) m'))
        (λ p m'. next (set (to p)) m')

  -- The function from its end to its start: behind the last allocation, and from each one on.
  unfoldable pub finish : DelmObj → Mem → Option DelmObj × Mem
  unfolding init_delm
  finish delm m =
      let r = init_delm (record delm { hash_btod = null; hash_wtod = null }) m in (some r.0, r.1)

  unfoldable pub from_data_to_copy : DelmObj → Mem → Option DelmObj × Mem
  unfolding alloc_field finish
  from_data_to_copy delm m = alloc_field (set_data_to_copy delm) m finish

  unfoldable pub from_lpas_to_copy : DelmObj → Mem → Option DelmObj × Mem
  unfolding alloc_field from_data_to_copy
  from_lpas_to_copy delm m = alloc_field (set_lpas_to_copy delm) m from_data_to_copy

  unfoldable pub from_ppas : DelmObj → Mem → Option DelmObj × Mem
  unfolding alloc_field from_lpas_to_copy
  from_ppas delm m = alloc_field (set_ppas delm) m from_lpas_to_copy

  unfoldable pub from_wtod : DelmObj → Mem → Option DelmObj × Mem
  unfolding alloc_field from_ppas
  from_wtod delm m = alloc_field (set_wtod delm) m from_ppas

  unfoldable pub from_btod : DelmObj → Mem → Option DelmObj × Mem
  unfolding alloc_field from_wtod
  from_btod delm m = alloc_field (set_btod delm) m from_wtod

  unfoldable pub create_del_mngr : Mem → Option DelmObj × Mem
  unfolding from_btod
  create_del_mngr m = on_result (kmalloc m) (λ m'. (none, m')) (λ p m'. from_btod (wild_delm p) m')
