-- ===== src/Reads.antt =====
-- The read requests: `make_read_request_page_mapping` of ftl_algorithm_page_mapping.c and the branch
-- `READ` of `make_request` of main.c. What `vdevice_read` is asked for is recorded as a list, newest
-- first; it ends a page later, by the bus controller, which is not part of these functions.
pub mod Count
pub mod Issue
use Prim.Native.Nat.{bit_and}
use flashbench.Common.{
  ℕ, ◌+◌, Option, none, some, List, [], ◌∷◌, Status, success, error, if◌then◌else◌, ◌==◌,
}
use flashbench.Config.{add_u32, shr, lp_page_mask, lp_page_shift}
use flashbench.Address.{Layout}
use flashbench.Bio.{FbBio, Bios, bio_endio, fb_destroy_bio, finish_one}
use flashbench.Mapping.{Ftl, get_mapped_physical_address}

-- A logical page that is read: its place, the page that it goes to, and the request it is part of.
pub record ReadAccess : Type 0 where
  pub bus : ℕ
  pub chip : ℕ
  pub block : ℕ
  pub page : ℕ
  pub page_offset : ℕ
  pub dest : ℕ
  pub fb_bio : ℕ

pub record ReadState : Type 0 where
  pub ftl : Ftl
  pub bios : Bios
  pub reads : List ReadAccess
  pub nr_page_reads : ℕ

unfoldable pub make_read_request : ReadState → ℕ → ℕ → ℕ → Status × ReadState
make_read_request s lpa dest p = elim (get_mapped_physical_address s.ftl lpa) [
  | none ↦ (error, s)
  | some r ↦
      let l = r.1 in
      (
        success,
        record s {
          reads =
              record {
                bus = l.bus;
                chip = l.chip;
                block = l.block;
                page = shr l.page lp_page_shift;
                page_offset = bit_and lp_page_mask l.page;
                dest = dest;
                fb_bio = p;
              }
              ∷ s.reads;
          nr_page_reads = add_u32 s.nr_page_reads 1;
        },
      )
]

-- The loop over the pages of the request at `p`, each with its address.
unfoldable pub read_loop : List (ℕ × ℕ) → ReadState → ℕ → ReadState
unfolding make_read_request
read_loop [] s p = s
read_loop (page ∷ pages) s p =
    let (status, s') = make_read_request s page.0 page.1 p in
    elim status [
      | success ↦ read_loop pages s' p
      | error ↦ read_loop pages (record s' { bios = finish_one s'.bios p }) p
    ]

-- The entries of a request, of which the first `req_count` are in use.
abbrev pub entries_of : List ℕ → List ℕ → List (ℕ × ℕ)
entries_of [] kpages = []
entries_of (lpa ∷ lpas) [] = []
entries_of (lpa ∷ lpas) (kpage ∷ kpages) = (lpa, kpage) ∷ entries_of lpas kpages

unfoldable pub read_pages : ReadState → ℕ → ReadState
unfolding read_loop
read_pages s p =
    let fbio = s.bios.fb_bio p in
    if fbio.req_count == 0
    then record s { bios = fb_destroy_bio (bio_endio s.bios p) p }
    else read_loop (entries_of fbio.lpas fbio.kpages) s p
