-- ===== src/Gc/Copy.antt =====
-- The copy of the valid pages: `get_valid_pgs_in_vic_blks` and `prog_valid_pgs_to_gc_blks` of
-- rust/src/gc_page_mapping.rs.
pub mod Fetched
pub mod Ends
pub mod Counters
pub mod Goal
pub mod Rewritten
use mathlib.Core.List.{foldl}
use mathlib.Core.Option
use flashbench.Common.{
  ℕ, zero, suc, ◌+◌, ◌-◌, ◌^◌, Bool, true, false, Option, none, some, List, [], ◌∷◌, Status,
  success, error, ltb, leb, ◌==◌, if◌then◌else◌, update, ◌>>=◌,
}
use flashbench.Config.{add_u32, sub_u32, num_pages_per_block, nr_lp_in_pp, page_unmapped}
use flashbench.Ut.{Ut}
use flashbench.Ssd.{
  PageStatus, FlashPage, page_status_free, page_status_valid, page_status_invalid, page_status_del,
  get_mapped_lpa, get_pg_status, get_pgi_from_blki,
}
use flashbench.Mapping.{
  Ftl, get_next_bus_chip, set_prev_bus_chip, alloc_new_page, map_logical_to_physical,
  update_act_blk,
}
use flashbench.Gc.{GcAccess, read_page, write_page, GcMngr, GcState, get_vic_blk, all_chips}

abbrev pub is_page_valid : PageStatus → Bool
is_page_valid page_status_valid = true
is_page_valid page_status_free = false
is_page_valid page_status_invalid = false
is_page_valid page_status_del = false

-- The loop over the logical pages of a page from `lp` on, with `n` rounds left: the array, the index
-- behind what it has written, and the entries of the bitmap.
unfoldable pub copy_lpas : ℕ → FlashPage → ℕ → (ℕ → ℕ) → ℕ → (ℕ → ℕ) × ℕ × List Bool
unfolding get_mapped_lpa get_pg_status
copy_lpas zero pgi lp lpas ptr = (lpas, ptr, [])
copy_lpas (suc n) pgi lp lpas ptr =
    let valid = is_page_valid (get_pg_status pgi lp) in
    let (lpas', ptr', bitmap) =
      copy_lpas n pgi (lp + 1) (if valid then update lpas ptr (get_mapped_lpa pgi lp) else lpas)
        (if valid then ptr + 1 else ptr) in
    (lpas', ptr', valid ∷ bitmap)

-- The state with the variables of `get_valid_pgs_in_vic_blks`.
pub record Fetch : Type 0 where
  pub g : GcState
  pub ptr_lpa : ℕ
  pub ptr_data : ℕ
  pub nr_read_pgs : ℕ

-- The body of its innermost loop, for the page `pg` of the block `b`, and for a chip.
unfoldable pub fetch_page : ℕ → ℕ → ℕ → ℕ → Fetch → Fetch
unfolding copy_lpas
fetch_page bus chip b pg f =
    let blki = f.g.ftl.ssd.block_at b in
    let pgi = get_pgi_from_blki blki pg in
    let nr_pgs_to_read = sub_u32 nr_lp_in_pp pgi.nr_invalid_log_pages in
    let (lpas, ptr, bitmap) = copy_lpas nr_lp_in_pp pgi 0 f.g.gcm.lpas_to_copy f.ptr_lpa in
    if ltb 0 nr_pgs_to_read
    then record {
      g = record f.g {
        gcm = record f.g.gcm { lpas_to_copy = lpas };
        accesses = read_page bus chip blki.no_block pg bitmap f.ptr_data ∷ f.g.accesses;
        nr_page_reads = add_u32 f.g.nr_page_reads 1;
      };
      ptr_lpa = ptr;
      ptr_data = f.ptr_data + nr_pgs_to_read;
      nr_read_pgs = add_u32 f.nr_read_pgs nr_pgs_to_read;
    }
    else f

unfoldable pub fetch_chip : ℕ → Fetch → ℕ × ℕ → Fetch
unfolding fetch_page
fetch_chip pg f c = elim (get_vic_blk f.g c.0 c.1) [ none ↦ f | some b ↦ fetch_page c.0 c.1 b pg f ]

-- The loops over the pages from `pg` on and over the chips, with `n` pages left.
unfoldable pub fetch_pages : ℕ → ℕ → Fetch → Fetch
unfolding fetch_chip
fetch_pages zero pg f = f
fetch_pages (suc n) pg f = fetch_pages n (pg + 1) (foldl (fetch_chip pg) f all_chips)

-- The outer loop, with at most `fuel` rounds; `none` is a loop that has not ended by then.
unfoldable pub fetch_all : ℕ → Fetch → Option Fetch
unfolding fetch_pages
fetch_all zero f = none
fetch_all (suc fuel) f = elim (ltb f.nr_read_pgs f.g.gcm.nr_pgs_to_copy) [
  | true ↦ fetch_all fuel (fetch_pages num_pages_per_block 0 f)
  | false ↦ some f
]

unfoldable pub get_valid_pgs_in_vic_blks : ℕ → GcState → Option GcState
unfolding fetch_all
get_valid_pgs_in_vic_blks fuel g =
    Option.map (λ (f : Fetch). f.g)
      (fetch_all fuel (record { g = g; ptr_lpa = 0; ptr_data = 0; nr_read_pgs = 0 }))

-- The loop that fills the addresses of a page that is not full, from `lp` on, with `n` rounds left.
unfoldable pub fill_unmapped : ℕ → ℕ → ℕ → (ℕ → ℕ) → ℕ → ℕ
fill_unmapped zero lp ptr lpas = lpas
fill_unmapped (suc n) lp ptr lpas =
    fill_unmapped n (lp + 1) ptr (update lpas (ptr + lp) page_unmapped)

module _ (ut : Ut) where
  -- The body of the loop of `prog_valid_pgs_to_gc_blks` behind the allocation of the page. `ptr` is the
  -- index in both arrays; `none` is the use of a null active block.
  unfoldable pub prog_page : ℕ → ℕ → ℕ → ℕ → ℕ → ℕ → GcState → Option GcState
  unfolding fill_unmapped
  prog_page nr_pgs_to_prog ptr bus chip blk pg g =
      let lpas =
        if ltb nr_pgs_to_prog nr_lp_in_pp
        then fill_unmapped (nr_lp_in_pp - nr_pgs_to_prog) nr_pgs_to_prog ptr g.gcm.lpas_to_copy
        else g.gcm.lpas_to_copy in
      let mapped = map_logical_to_physical ut g.ftl (λ lp. lpas (ptr + lp)) bus chip blk pg in
      Option.map
        (λ (ftl : Ftl). record g {
          ftl = ftl;
          gcm = record g.gcm { lpas_to_copy = lpas };
          accesses = write_page bus chip blk pg ptr ∷ g.accesses;
          nr_wordline_prog_bg = add_u32 g.nr_wordline_prog_bg 1;
        })
        (update_act_blk ut (set_prev_bus_chip mapped bus chip) bus chip)

  -- The loop, with at most `fuel` rounds; `nr_pgs_to_prog` stops at 0 where the code's goes below.
  unfoldable pub prog_pages : ℕ → ℕ → ℕ → GcState → Option (Status × GcState)
  unfolding prog_page
  prog_pages fuel zero ptr g = some (success, g)
  prog_pages zero (suc nr) ptr g = none
  prog_pages (suc fuel) (suc nr) ptr g =
      let (bus, chip) = get_next_bus_chip g.ftl in
      let (page, ftl) = alloc_new_page ut g.ftl bus chip in
      let g' = record g { ftl = ftl } in
      elim page [
        | none ↦ some (error, g')
        | some p ↦ do
          g'' ← prog_page (suc nr) ptr bus chip p.0 p.1 g'
          prog_pages fuel (suc nr - nr_lp_in_pp) (ptr + nr_lp_in_pp) g''
      ]

  -- A number of 2^31 or more is below 0 as an `i32`.
  unfoldable pub prog_valid_pgs_to_gc_blks : GcState → Option (Status × GcState)
  unfolding prog_pages
  prog_valid_pgs_to_gc_blks g =
      let nr = if ltb g.gcm.nr_pgs_to_copy (2 ^ 31) then g.gcm.nr_pgs_to_copy else 0 in
      prog_pages nr nr 0 g
