-- ===== src/Gc.antt =====
-- The garbage collection: rust/src/gc_page_mapping.rs and gc_page_mapping.c. This file has its state
-- and the choice of the victims; `mapping_context_lock` makes a call one step. What the virtual device
-- is asked for is recorded, newest first; the arrays `lpas_to_copy` and `data_to_copy` are known by
-- their indices, one for each logical page.
pub mod Copy
pub mod Cycle
pub mod Background
pub mod Choice
use flashbench.Common.{
  ℕ, zero, suc, ◌+◌, ◌-◌, Bool, true, false, not, ◌&&◌, Option, none, some, List, [], ◌∷◌, Status,
  success, error, ltb, ◌==◌, if◌then◌else◌, update,
}
use flashbench.Config.{add_u32, num_pages_per_block, nr_lp_in_pp}
use flashbench.Ssd.{SsdInfo, FlashBlock, get_pgi_from_blki, get_dirt_block}
use flashbench.Mapping.{Ftl, chip_index, get_curr_gc_block, get_curr_active_block}
use flashbench.Writes.{is_null}

-- What the device is asked for: the valid logical pages of a page, to the place `dest`; a page from
-- the place `src`; a block.
pub data GcAccess : Type 0 where
  read_page : (bus chip block page : ℕ) (page_bitmap : List Bool) (dest : ℕ) → GcAccess
  write_page : (bus chip block page : ℕ) (src : ℕ) → GcAccess
  erase_block : (bus chip block : ℕ) → GcAccess

-- `fb_gc_mngr_t`, of which the array `gc_blks` is in `Ftl`.
pub record GcMngr : Type 0 where
  pub vic_blks : ℕ → Option ℕ
  pub first_valid_pg : ℕ → ℕ
  pub lpas_to_copy : ℕ → ℕ
  pub nr_pgs_to_copy : ℕ

pub record GcState : Type 0 where
  pub ftl : Ftl
  pub gcm : GcMngr
  pub accesses : List GcAccess
  pub nr_wordline_prog_bg : ℕ
  pub nr_page_reads : ℕ
  pub nr_blk_erasures : ℕ
  pub nr_gc_trigger_bg : ℕ

-- A loop over chips that returns -1 from inside.
abbrev pub on_success {ℓ} : {S : Type ℓ} → (S → Status × S) → Status × S → Status × S
on_success next (success, s) = next s
on_success next (error, s) = (error, s)

abbrev pub each_chip {ℓ} : {S : Type ℓ} → (ℕ → ℕ → S → Status × S) → List (ℕ × ℕ) → S → Status × S
each_chip step [] s = (success, s)
each_chip step (c ∷ chips) s = on_success (each_chip step chips) (step c.0 c.1 s)

unfoldable pub init_gcm : GcState → GcState
init_gcm g = record g { gcm = record g.gcm { nr_pgs_to_copy = 0 } }

unfoldable pub get_vic_blk : GcState → ℕ → ℕ → Option ℕ
get_vic_blk g bus chip = g.gcm.vic_blks (chip_index bus chip)

unfoldable pub set_vic_blk : GcState → ℕ → ℕ → Option ℕ → GcState
set_vic_blk g bus chip blki = record g {
  gcm = record g.gcm { vic_blks = update g.gcm.vic_blks (chip_index bus chip) blki };
}

unfoldable pub set_first_valid_pg : GcState → ℕ → ℕ → ℕ → GcState
set_first_valid_pg g bus chip pg = record g {
  gcm = record g.gcm { first_valid_pg = update g.gcm.first_valid_pg (chip_index bus chip) pg };
}

unfoldable pub get_first_valid_pg : GcState → ℕ → ℕ → ℕ
get_first_valid_pg g bus chip = g.gcm.first_valid_pg (chip_index bus chip)

-- The loop of `find_first_valid_pg` from page `pg` on, with `n` pages left.
unfoldable pub first_valid : ℕ → FlashBlock → ℕ → ℕ
unfolding get_pgi_from_blki
first_valid zero blki pg = pg
first_valid (suc n) blki pg =
    let later = first_valid n blki (pg + 1) in
    if ltb (get_pgi_from_blki blki pg).nr_invalid_log_pages nr_lp_in_pp then pg else later

unfoldable pub find_first_valid_pg : FlashBlock → ℕ → ℕ
unfolding first_valid
find_first_valid_pg blki start_pg = first_valid (num_pages_per_block - start_pg) blki start_pg

-- The loop over the used blocks, with the largest number so far and the block that has it.
unfoldable pub most_invalid : SsdInfo → List ℕ → ℕ → Option ℕ → Option ℕ
most_invalid s [] nr_max vic = vic
most_invalid s (b ∷ blks) nr_max vic =
    let n = (s.block_at b).nr_invalid_log_pages in
    most_invalid s blks (if ltb nr_max n then n else nr_max) (if ltb nr_max n then some b else vic)

unfoldable pub select_vic_blk_from_used : SsdInfo → ℕ → ℕ → Option ℕ
unfolding most_invalid
select_vic_blk_from_used s bus chip = most_invalid s (s.chip_at bus chip).used_blks 0 none

unfoldable pub select_vic_blk_greedy : SsdInfo → ℕ → ℕ → Option ℕ
unfolding select_vic_blk_from_used
select_vic_blk_greedy s bus chip = elim (get_dirt_block s bus chip) [
  | some b ↦ some b
  | none ↦ select_vic_blk_from_used s bus chip
]

-- The body of the loops of `set_vic_blks` behind the choice.
unfoldable pub take_vic_blk : ℕ → ℕ → ℕ → GcState → GcState
unfolding set_vic_blk set_first_valid_pg find_first_valid_pg
take_vic_blk bus chip b g =
    let blki = g.ftl.ssd.block_at b in
    if blki.nr_valid_log_pages == 0
    then set_vic_blk g bus chip none
    else set_vic_blk
        (set_first_valid_pg
          (record g {
            gcm = record g.gcm {
              nr_pgs_to_copy = add_u32 g.gcm.nr_pgs_to_copy blki.nr_valid_log_pages;
            };
          })
          bus chip (find_first_valid_pg blki 0))
        bus chip (some b)

unfoldable pub choose_vic_blk : ℕ → ℕ → GcState → Status × GcState
unfolding take_vic_blk set_vic_blk select_vic_blk_greedy
choose_vic_blk bus chip g =
    if not (is_null (get_curr_gc_block g.ftl bus chip))
      && not (is_null (get_curr_active_block g.ftl bus chip))
    then (success, set_vic_blk g bus chip none)
    else (elim (select_vic_blk_greedy g.ftl.ssd bus chip) [
      | none ↦ (error, g)
      | some b ↦ (success, take_vic_blk bus chip b g)
    ])

-- The chips, in the order of both kinds of loops: the buses outside, or inside.
abbrev pub all_chips : List (ℕ × ℕ)
all_chips = (0, 0) ∷ (0, 1) ∷ []

unfoldable pub set_vic_blks : GcState → Status × GcState
unfolding choose_vic_blk
set_vic_blks g = each_chip choose_vic_blk all_chips g
