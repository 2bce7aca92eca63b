-- ===== src/Gc/Background.antt =====
-- A background collection: `trigger_bg_gc` of gc_page_mapping.c, and the functions of
-- rust/src/gc_page_mapping.rs with the prefix `fb_bgc_`.
pub mod Kept
pub mod Within
pub mod Bounded
use flashbench.Common.{
  ℕ, zero, suc, ◌+◌, Option, none, some, ◌∷◌, Status, success, error, ltb, ◌==◌, if◌then◌else◌,
  ◌>>=◌,
}
use flashbench.Config.{
  add_u32, sub_u32, to_u8, num_chips, num_pages_per_block, nr_lp_in_pp, bgc_th_nr_blks,
}
use flashbench.Ut.{Ut}
use flashbench.Ssd.{get_dirt_block, reset_dirt_blk, set_free_blk, get_pgi_from_blki}
use flashbench.Mapping.{
  Ftl, get_next_bus_chip, set_prev_bus_chip, get_curr_gc_block, get_curr_active_block,
  set_curr_gc_block, set_curr_active_block,
}
use flashbench.Gc.{
  read_page, GcState, on_success, each_chip, init_gcm, all_chips, get_vic_blk, set_vic_blk,
  get_first_valid_pg, set_first_valid_pg, find_first_valid_pg, select_vic_blk_from_used,
}
use flashbench.Gc.Copy.{copy_lpas, prog_valid_pgs_to_gc_blks}
use flashbench.Gc.Cycle.{erase_gc_blk, update_gc_blks}

unfoldable pub get_prev_bus_chip : Ftl → ℕ × ℕ
get_prev_bus_chip ftl = (to_u8 ftl.mru_bus, to_u8 ftl.mru_chip)

-- A loop of `n` rounds, each on the chip whose turn it is, that returns -1 from inside.
abbrev pub each_turn {ℓ} :
    {S : Type ℓ} → (S → ℕ × ℕ) → (ℕ → ℕ → S → Status × S) → ℕ → S → Status × S
each_turn turn step zero s = (success, s)
each_turn turn step (suc n) s = on_success (each_turn turn step n) (step (turn s).0 (turn s).1 s)

module _ (ut : Ut) where
  -- An erased block becomes the active block, or a free one.
  unfoldable pub place_erased : ℕ → ℕ → ℕ → Ftl → Ftl
  place_erased bus chip b ftl = elim (get_curr_active_block ftl bus chip) [
    | none ↦ set_curr_active_block ftl bus chip (some b)
    | some a ↦ record ftl { ssd = set_free_blk ut ftl.ssd b }
  ]

  -- A dirty block, if there is one, is the next block for garbage collection.
  unfoldable pub replace_gc_blk : ℕ → ℕ → Ftl → Ftl
  replace_gc_blk bus chip ftl = elim (get_dirt_block ftl.ssd bus chip) [
    | none ↦ set_curr_gc_block ftl bus chip none
    | some d ↦
        set_curr_gc_block (record ftl { ssd = reset_dirt_blk ut ftl.ssd d }) bus chip (some d)
  ]

  unfoldable pub bgc_prepare_act_blk : ℕ → ℕ → GcState → Status × GcState
  unfolding erase_gc_blk place_erased replace_gc_blk
  bgc_prepare_act_blk bus chip g = elim (get_curr_gc_block g.ftl bus chip) [
    | none ↦ (error, g)
    | some b ↦
        let g' = erase_gc_blk bus chip b g in
        (
          success,
          record g' {
            ftl =
                set_prev_bus_chip (replace_gc_blk bus chip (place_erased bus chip b g'.ftl)) bus
                  chip;
          },
        )
  ]

  unfoldable pub fb_bgc_prepare_act_blks : GcState → Status × GcState
  unfolding bgc_prepare_act_blk
  fb_bgc_prepare_act_blks g =
      each_turn (λ (s : GcState). get_next_bus_chip s.ftl) bgc_prepare_act_blk num_chips g

-- The statements that look for a new victim.
unfoldable pub find_vic_blk : ℕ → ℕ → GcState → Status × GcState
unfolding select_vic_blk_from_used set_vic_blk set_first_valid_pg find_first_valid_pg
find_vic_blk bus chip g = elim (select_vic_blk_from_used g.ftl.ssd bus chip) [
  | none ↦ (error, g)
  | some b ↦ (
    success,
    set_first_valid_pg (set_vic_blk g bus chip (some b)) bus chip
        (find_first_valid_pg (g.ftl.ssd.block_at b) 0),
  )
]

-- The chip's victim, if it has one, goes on at its next page that is not invalid.
unfoldable pub keep_vic_blk : ℕ → ℕ → GcState → Status × GcState
unfolding find_vic_blk
keep_vic_blk bus chip g = elim (get_vic_blk g bus chip) [
  | none ↦ find_vic_blk bus chip g
  | some b ↦
      let pg = find_first_valid_pg (g.ftl.ssd.block_at b) (get_first_valid_pg g bus chip) in
      let g' = set_first_valid_pg g bus chip pg in
      if pg == num_pages_per_block
      then find_vic_blk bus chip (set_vic_blk g' bus chip none)
      else (success, g')
]

unfoldable pub bgc_set_vic_blk : ℕ → ℕ → GcState → Status × GcState
unfolding keep_vic_blk
bgc_set_vic_blk bus chip g =
    let chipi = g.ftl.ssd.chip_at bus chip in
    if ltb (add_u32 chipi.nr_dirt_blks chipi.nr_free_blocks) bgc_th_nr_blks
    then keep_vic_blk bus chip g
    else (success, set_first_valid_pg (set_vic_blk g bus chip none) bus chip 0)

unfoldable pub fb_bgc_set_vic_blks : GcState → Status × GcState
unfolding bgc_set_vic_blk
fb_bgc_set_vic_blks g = each_chip bgc_set_vic_blk all_chips g

-- The state with the variables of `fb_bgc_read_valid_pgs`.
pub record BgcFetch : Type 0 where
  pub g : GcState
  pub ptr_lpas : ℕ
  pub ptr_data : ℕ

-- The page `pg` of the chip's victim is read.
unfoldable pub bgc_fetch_page : ℕ → ℕ → ℕ → ℕ → BgcFetch → Status × BgcFetch
unfolding copy_lpas
bgc_fetch_page bus chip b pg f =
    let blki = f.g.ftl.ssd.block_at b in
    let pgi = get_pgi_from_blki blki pg in
    let nr_pgs_to_read = sub_u32 nr_lp_in_pp pgi.nr_invalid_log_pages in
    let (lpas, ptr, bitmap) = copy_lpas nr_lp_in_pp pgi 0 f.g.gcm.lpas_to_copy f.ptr_lpas in
    if nr_pgs_to_read == 0 then (error, f) else (
      success,
      record {
        g = record f.g {
          ftl = set_prev_bus_chip f.g.ftl bus chip;
          gcm = record f.g.gcm {
            nr_pgs_to_copy = add_u32 f.g.gcm.nr_pgs_to_copy nr_pgs_to_read;
            lpas_to_copy = lpas;
          };
          accesses = read_page bus chip blki.no_block pg bitmap f.ptr_data ∷ f.g.accesses;
          nr_page_reads = add_u32 f.g.nr_page_reads 1;
        };
        ptr_lpas = ptr;
        ptr_data = f.ptr_data + nr_pgs_to_read;
      },
    )

unfoldable pub bgc_fetch_chip : ℕ → ℕ → BgcFetch → Status × BgcFetch
unfolding bgc_fetch_page
bgc_fetch_chip bus chip f = elim (get_vic_blk f.g bus chip) [
  | none ↦ (success, record f { g = record f.g { ftl = set_prev_bus_chip f.g.ftl bus chip } })
  | some b ↦ bgc_fetch_page bus chip b (get_first_valid_pg f.g bus chip) f
]

unfoldable pub fb_bgc_read_valid_pgs : GcState → Status × GcState
unfolding bgc_fetch_chip
fb_bgc_read_valid_pgs g =
    let (status, f) =
      each_turn (λ (f : BgcFetch). get_next_bus_chip f.g.ftl) bgc_fetch_chip num_chips
        (record { g = g; ptr_lpas = 0; ptr_data = 0 }) in
    (status, f.g)

unfoldable pub perf_inc_nr_gc_trigger_bg : GcState → GcState
perf_inc_nr_gc_trigger_bg g = record g { nr_gc_trigger_bg = add_u32 g.nr_gc_trigger_bg 1 }

module _ (ut : Ut) where
  -- The statements of `trigger_bg_gc` behind the reading.
  unfoldable pub bgc_rewrite_pgs : GcState → Option (Status × GcState)
  unfolding perf_inc_nr_gc_trigger_bg
  bgc_rewrite_pgs g = if g.gcm.nr_pgs_to_copy == 0 then some (success, g) else (do
    (written, g') ← prog_valid_pgs_to_gc_blks ut (perf_inc_nr_gc_trigger_bg g)
    elim written [ error ↦ some (error, g') | success ↦ some (update_gc_blks ut g') ])

  -- The statements behind the test for an active block.
  unfoldable pub bgc_step : GcState → Option (Status × GcState)
  unfolding init_gcm bgc_rewrite_pgs
  bgc_step g =
      let (chosen, g1) = fb_bgc_set_vic_blks (init_gcm g) in
      elim chosen [
        | error ↦ some (error, g1)
        | success ↦
            let (fetched, g2) = fb_bgc_read_valid_pgs g1 in
            elim fetched [ error ↦ some (error, g2) | success ↦ bgc_rewrite_pgs g2 ]
      ]

  -- `none` is the use of a null pointer.
  unfoldable pub trigger_bg_gc : GcState → Option (Status × GcState)
  unfolding get_prev_bus_chip bgc_step
  trigger_bg_gc g =
      let (bus, chip) = get_prev_bus_chip g.ftl in
      elim (get_curr_active_block g.ftl bus chip) [
        | some a ↦ bgc_step g
        | none ↦
            let (prepared, g') = fb_bgc_prepare_act_blks ut g in
            elim prepared [
              | error ↦ some (error, g')
              | success ↦ some (success, perf_inc_nr_gc_trigger_bg g')
            ]
      ]
