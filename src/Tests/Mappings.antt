-- ===== src/Tests/Mappings.antt =====
-- The page mapping and the discard requests: runs of page_mapping_function.c with its Rust part, and of
-- ftl_algorithm_page_mapping.c.
use flashbench.Common.{
  ℕ, ◌+◌, ◌*◌, ◌^◌, ◌/◌, ◌<◌, ◌≤◌, ◌≡◌, ◌≢◌, ◌↔◌, refl, false, none, [], arith, if◌then◌else◌, ◌==◌,
}
use flashbench.Config.{page_unmapped, num_pages_per_block}
use flashbench.Address.{convert_to_ssd_layout}
use flashbench.Ut.Listing.{listing}
use flashbench.Ssd.{FlashBlock, FlashPage, FlashChip, page_status_free}
use flashbench.Mapping.{Ftl, invalidate_lpg, map_logical_page}
use flashbench.Mapping.Links.{IsLinked, invalidate_lpg-IsLinked}
use flashbench.Mapping.Place.{Place}
use flashbench.Mapping.Agree.{map_logical_page-IsLinked}
use flashbench.Discard.{discard_range, make_discard_request_page_mapping}
use flashbench.Discard.Ranges.{discard_range_lem}
use flashbench.Discard.Effects.{within, make_discard_request_page_mapping_lem}
use flashbench.WriteBuffer.Invariant.{IsValid}
use flashbench.WriteBuffer.View.{view}
use flashbench.Tests.Buffers.{buffer_1, valid_1}

abbrev free_page : FlashPage
free_page = record {
  page_status = λ o. page_status_free;
  no_logical_page_addr = λ o. page_unmapped;
  nr_invalid_log_pages = 0;
  del_flag = false;
}

abbrev free_block : FlashBlock
free_block = record {
  no_block = 0;
  no_chip = 0;
  no_bus = 0;
  nr_valid_pages = 0;
  nr_invalid_pages = 0;
  nr_free_pages = num_pages_per_block;
  nr_valid_log_pages = 0;
  nr_invalid_log_pages = 0;
  nr_erase_cnt = 7;
  is_bad_block = false;
  last_modified_time = 0;
  is_reserved_block = false;
  is_active_block = false;
  list_pages = λ pg. free_page;
  del_flag = false;
}

abbrev empty_chip : FlashChip
empty_chip = record {
  nr_free_blocks = 0;
  nr_used_blks = 0;
  nr_dirt_blks = 0;
  free_blks = [];
  used_blks = [];
  dirt_blks = [];
  nr_dirty_blocks = 0;
}

abbrev new_ftl : Ftl
new_ftl = record {
  ssd = record { block_at = λ b. free_block; chip_at = λ bus chip. empty_chip };
  mappings = λ k. page_unmapped;
  act_blks = λ i. none;
  gc_blks = λ i. none;
  mru_bus = 0;
  mru_chip = 1;
}

new_ftl-IsLinked : IsLinked new_ftl
new_ftl-IsLinked = record { valid = λ k h. absurd (h refl); back = λ k h. absurd (h refl) }

some_slot : Place 0 1 170 5 3
some_slot = record {
  bus_in = omega arith;
  chip_in = omega arith;
  blk_in = omega arith;
  pg_in = omega arith;
  ofs_in = omega arith;
}

-- Address 9 is mapped.
abbrev one_page : Ftl
one_page = map_logical_page listing new_ftl 9 0 1 170 5 3

map_logical_page-IsLinked_example :
    (convert_to_ssd_layout (one_page.mappings 9)
      ≡ record { bus = 0; chip = 1; block = 170; page = 5 * 4 + 3 })
    × ((k : ℕ) → 9 ≢ k → one_page.mappings k ≡ page_unmapped)
    × IsLinked one_page
map_logical_page-IsLinked_example =
    map_logical_page-IsLinked listing new_ftl 9 some_slot new_ftl-IsLinked (λ e. omega (arith, e))
      (λ e. absurd (cc))

invalidate_lpg-IsLinked_example :
    ((invalidate_lpg listing one_page 9).0 ≡ one_page.mappings 9)
    × ((k : ℕ)
        → (invalidate_lpg listing one_page 9).1.mappings k
          ≡ (if 9 == k then page_unmapped else one_page.mappings k))
    × IsLinked (invalidate_lpg listing one_page 9).1
invalidate_lpg-IsLinked_example =
    invalidate_lpg-IsLinked listing one_page 9 map_logical_page-IsLinked_example.2

-- Sectors 65 to 84: of the pages 8, 9 and 10 only page 9 is wholly inside.
covered : discard_range 65 (20 * 512) ≡ (9, 1)
unfolding discard_range
covered = refl

discard_range_lem_example :
    (((discard_range 65 10240).0 ≤ 9)
      × (9 < (discard_range 65 10240).0 + (discard_range 65 10240).1))
    ↔ ((65 ≤ 9 * 8) × (9 * 8 + 8 ≤ 65 + 10240 / 2 ^ 9))
discard_range_lem_example = discard_range_lem 65 10240 9 (omega arith)

make_discard_request_page_mapping_lem_example :
    ((k : ℕ)
      → view listing (make_discard_request_page_mapping listing 65 10240 (buffer_1, one_page)).0 k
        ≡ (if within (discard_range 65 10240).1 (discard_range 65 10240).0 k
            then none
            else view listing buffer_1 k))
    × ((k : ℕ)
        → (make_discard_request_page_mapping listing 65 10240 (buffer_1, one_page)).1.mappings k ≡ (
            if within (discard_range 65 10240).1 (discard_range 65 10240).0 k
            then page_unmapped
            else one_page.mappings k))
    × IsValid listing 2 none
        (make_discard_request_page_mapping listing 65 10240 (buffer_1, one_page)).0
    × IsLinked (make_discard_request_page_mapping listing 65 10240 (buffer_1, one_page)).1
unfolding discard_range
make_discard_request_page_mapping_lem_example =
    make_discard_request_page_mapping_lem listing 65 10240 buffer_1 one_page (omega arith) valid_1
      map_logical_page-IsLinked_example.2
