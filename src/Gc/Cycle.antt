-- ===== src/Gc/Cycle.antt =====
-- A foreground collection: `prepare_act_blks`, `update_gc_blks` and `trigger_gc_page_mapping` of
-- rust/src/gc_page_mapping.rs.
pub mod Reserve
pub mod Whole
pub mod Ends
use flashbench.Common.{ℕ, Option, none, some, List, ◌∷◌, Status, success, error, ◌>>=◌}
use flashbench.Config.{add_u32}
use flashbench.Ut.{Ut}
use flashbench.Ssd.{init_blk_inf, inc_bers_cnt, on_block, get_dirt_block, reset_dirt_blk}
use flashbench.Mapping.{
  get_curr_gc_block, get_curr_active_block, set_curr_gc_block, set_curr_active_block,
}
use flashbench.Gc.{erase_block, GcState, each_chip, init_gcm, all_chips, set_vic_blks}
use flashbench.Gc.Copy.{get_valid_pgs_in_vic_blks, prog_valid_pgs_to_gc_blks}

-- The block at `b` is erased and is as new.
unfoldable pub erase_gc_blk : ℕ → ℕ → ℕ → GcState → GcState
erase_gc_blk bus chip b g = record g {
  ftl = record g.ftl { ssd = on_block g.ftl.ssd b (λ blki. inc_bers_cnt (init_blk_inf blki)) };
  accesses = erase_block bus chip (g.ftl.ssd.block_at b).no_block ∷ g.accesses;
  nr_blk_erasures = add_u32 g.nr_blk_erasures 1;
}

unfoldable pub prepare_act_blk : ℕ → ℕ → GcState → Status × GcState
unfolding erase_gc_blk
prepare_act_blk bus chip g = elim (get_curr_active_block g.ftl bus chip) [
  | some a ↦ (success, g)
  | none ↦ elim (get_curr_gc_block g.ftl bus chip) [
    | none ↦ (error, g)
    | some b ↦
        let g' = erase_gc_blk bus chip b g in
        (
          success,
          record g' {
            ftl = set_curr_gc_block (set_curr_active_block g'.ftl bus chip (some b)) bus chip none;
          },
        )
  ]
]

unfoldable pub prepare_act_blks : GcState → Status × GcState
unfolding prepare_act_blk
prepare_act_blks g = each_chip prepare_act_blk all_chips g

module _ (ut : Ut) where
  unfoldable pub update_gc_blk : ℕ → ℕ → GcState → Status × GcState
  update_gc_blk bus chip g = elim (get_curr_gc_block g.ftl bus chip) [
    | some b ↦ (success, g)
    | none ↦ elim (get_dirt_block g.ftl.ssd bus chip) [
      | none ↦ elim (get_curr_active_block g.ftl bus chip) [
        | none ↦ (error, g)
        | some a ↦ (success, g)
      ]
      | some b ↦ (
        success,
        record g {
          ftl =
              set_curr_gc_block (record g.ftl { ssd = reset_dirt_blk ut g.ftl.ssd b }) bus chip
                (some b);
        },
      )
    ]
  ]

  unfoldable pub update_gc_blks : GcState → Status × GcState
  unfolding update_gc_blk
  update_gc_blks g = each_chip (update_gc_blk) all_chips g

  -- The fourth and the fifth step.
  unfoldable pub rewrite_pgs : GcState → Option (Status × GcState)
  unfolding update_gc_blks
  rewrite_pgs g = do
    (written, g') ← prog_valid_pgs_to_gc_blks ut g
    elim written [ error ↦ some (error, g') | success ↦ some (update_gc_blks g') ]

  -- `fuel` is for the loop that reads; `none` is a loop that has not ended, or the use of a null
  -- pointer.
  unfoldable pub trigger_gc_page_mapping : ℕ → GcState → Option (Status × GcState)
  unfolding init_gcm prepare_act_blks set_vic_blks get_valid_pgs_in_vic_blks rewrite_pgs
  trigger_gc_page_mapping fuel g =
      let (prepared, g1) = prepare_act_blks (init_gcm g) in
      elim prepared [
        | error ↦ some (error, g1)
        | success ↦
            let (chosen, g2) = set_vic_blks g1 in
            elim chosen [
              | error ↦ some (error, g2)
              | success ↦ do g3 ← get_valid_pgs_in_vic_blks fuel g2; rewrite_pgs g3
            ]
      ]
