-- ===== src/Mapping/Place.antt =====
-- A logical page is mapped to its place in a block.
use Prim.Native.Nat.{bit_and, bit_or}
use flashbench.Common.{
  ℕ, ◌+◌, ◌*◌, ◌<◌, ◌≡◌, ◌≢◌, refl, ap, ◌∙◌, true, ◌&&◌, arith, ◌==◌, if◌then◌else◌, update,
}
use flashbench.Common.Bits.{bit_or-shift, masked_three}
use flashbench.Config.{
  page_unmapped, shr, shl_u32, lp_page_shift, lp_page_mask, nr_lp_in_pp, num_buses,
  num_chips_per_bus, num_blocks_per_chip, num_pages_per_block,
}
use flashbench.Address.{Layout, convert_to_ssd_layout, convert_to_physical_address}
use flashbench.Address.RoundTrip.{
  Fits, encode, encode_sum, convert_to_ssd_layout-convert_to_physical_address,
}
use flashbench.Ssd.{
  SsdInfo, page_status_valid, get_block_info, set_mapped_lpa, set_pg_status,
  inc_nr_valid_lps_in_blk, dec_nr_free_pgs, inc_nr_valid_pgs,
}
use flashbench.Mapping.{Ftl, fill_slot, finish_slot, set_mapped_ppa}
use flashbench.Mapping.Slots.{status_at, lpa_at}
use flashbench.Mapping.Links.{block_of, page_of, offset_of}

-- A logical page of the device.
pub record Place (bus chip blk pg ofs : ℕ) : Type 0 where
  pub bus_in : bus < num_buses
  pub chip_in : chip < num_chips_per_bus
  pub blk_in : blk < num_blocks_per_chip
  pub pg_in : pg < num_pages_per_block
  pub ofs_in : ofs < nr_lp_in_pp

module _ {bus chip blk pg ofs : ℕ} (p : Place bus chip blk pg ofs) where
  -- The page number of the address, which counts logical pages.
  page_number : bit_or (shl_u32 pg lp_page_shift) ofs ≡ pg * 4 + ofs
  page_number = omega (
    arith,
    bit_or-shift 2 pg ofs (omega (arith, p.ofs_in)),
    p.pg_in,
    ap (λ i. bit_or i ofs) {x = shl_u32 pg 2} {y = pg * 4} (omega (arith, p.pg_in)),
  )

  unfoldable pub place : Layout
  place = record { bus = bus; chip = chip; block = blk; page = pg * 4 + ofs }

  pub place-Fits : Fits place
  unfolding place
  place-Fits = record {
    bus_fits = omega (arith, p.bus_in);
    chip_fits = omega (arith, p.chip_in);
    block_fits = omega (arith, p.blk_in);
    page_fits = omega (arith, p.pg_in, p.ofs_in);
  }

  unfoldable pub new_ppa : ℕ
  new_ppa = convert_to_physical_address bus chip blk (bit_or (shl_u32 pg lp_page_shift) ofs)

  new_ppa-eq : new_ppa ≡ encode place
  unfolding new_ppa place
  new_ppa-eq = ap (convert_to_physical_address bus chip blk) page_number

  pub new_layout : convert_to_ssd_layout new_ppa ≡ place
  new_layout =
      ap convert_to_ssd_layout new_ppa-eq
      ∙ convert_to_ssd_layout-convert_to_physical_address place place-Fits

  pub new_block : block_of new_ppa ≡ get_block_info bus chip blk
  unfolding place
  new_block = ap (λ (l : Layout). get_block_info l.bus l.chip l.block) new_layout

  pub new_page : page_of new_ppa ≡ pg
  unfolding place
  new_page = ap (λ (l : Layout). shr l.page lp_page_shift) new_layout ∙ omega (arith, p.ofs_in)

  pub new_offset : offset_of new_ppa ≡ ofs
  unfolding place
  new_offset =
      ap (λ (l : Layout). bit_and l.page lp_page_mask) new_layout
      ∙ masked_three (pg * 4 + ofs)
      ∙ omega (arith, p.ofs_in)

  pub new_ppa_mapped : new_ppa ≢ page_unmapped
  unfolding place
  new_ppa_mapped e = omega (
    arith,
    new_ppa-eq,
    encode_sum place place-Fits,
    p.bus_in,
    p.chip_in,
    p.blk_in,
    p.pg_in,
    p.ofs_in,
  )

-- What the mapping of one logical page does behind the invalidation of its old place.
pub record Mapped (s s' : SsdInfo) (b pg ofs lpa : ℕ) : Type 0 where
  pub statuses :
      (c q o : ℕ)
      → status_at s' c q o
        ≡ (if b == c && (pg == q && ofs == o) then page_status_valid else status_at s c q o)
  pub lpas :
      (c q o : ℕ)
      → lpa_at s' c q o ≡ (if b == c && (pg == q && ofs == o) then lpa else lpa_at s c q o)

-- The same logical page has one status.
pub same_status :
    (s : SsdInfo) (b c pg q ofs o : ℕ)
    → (b == c && (pg == q && ofs == o)) ≡ true
    → status_at s b pg ofs ≡ status_at s c q o
same_status s b c pg q ofs o e = ground (
  arith,
  ap (λ i. status_at s i pg ofs) {x = b} {y = c},
  ap (λ i. status_at s c i ofs) {x = pg} {y = q},
  ap (λ i. status_at s c q i) {x = ofs} {y = o},
)

module _ (x : Ftl) (lpa b pg ofs ppa : ℕ) where
  unfoldable pub filled : Ftl
  filled = finish_slot (fill_slot x lpa b pg ofs ppa) lpa b pg ofs

  pub filled-Mapped : Mapped x.ssd filled.ssd b pg ofs lpa
  unfolding filled finish_slot fill_slot set_mapped_ppa set_mapped_lpa set_pg_status
      inc_nr_valid_lps_in_blk dec_nr_free_pgs inc_nr_valid_pgs
  filled-Mapped = record {
    statuses = λ c q o. ground (
      arith,
      ap (λ i. status_at x.ssd i q o) {x = b} {y = c},
      ap (λ i. status_at x.ssd b i o) {x = pg} {y = q},
    );
    lpas = λ c q o. ground (
      arith,
      ap (λ i. lpa_at x.ssd i q o) {x = b} {y = c},
      ap (λ i. lpa_at x.ssd b i o) {x = pg} {y = q},
    );
  }

  pub filled-mappings : filled.mappings ≡ update x.mappings lpa ppa
  unfolding filled finish_slot fill_slot set_mapped_ppa
  filled-mappings = refl
