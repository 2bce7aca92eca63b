-- ===== src/Tests/Reading.antt =====
-- A read request for two pages, one of which has a place on the device.
use flashbench.Common.{◌≡◌, refl, none, [], ◌∷◌, arith, if◌then◌else◌, ◌==◌, false}
use flashbench.Config.{page_unmapped}
use flashbench.Bio.{Bios}
use flashbench.Mapping.{Ftl}
use flashbench.Mapping.Setup.Start.{first_blks}
use flashbench.Ut.Listing.{listing}
use flashbench.Reads.{ReadState, read_pages}
use flashbench.Reads.Count.{Left}
use flashbench.Reads.Issue.{entries, nr_mapped, asked, read_pages-Left}
use flashbench.Tests.Setups.{ready_ssd, old_page, old_ssd}

abbrev ftl : Ftl
ftl = record {
  ssd = ready_ssd;
  mappings = λ lpa. if lpa == 1 then 5 else page_unmapped;
  act_blks = first_blks listing (λ pg. old_page) old_ssd;
  gc_blks = λ i. none;
  mru_bus = 0;
  mru_chip = 1;
}

-- The request is at address 3.
abbrev bios : Bios
bios = record {
  fb_bio = λ p. record { req_count = 2; lpas = 1 ∷ 2 ∷ []; kpages = 900 ∷ 901 ∷ []; bio = 77 };
  live = λ p. p == 3;
  ended = [];
  use_after_free = false;
}

abbrev state : ReadState
state = record { ftl = ftl; bios = bios; reads = []; nr_page_reads = 0 }

read_pages-Left_example :
    Left 3 77 [] (nr_mapped ftl (entries bios 3)) (read_pages state 3).bios
    × ((read_pages state 3).reads ≡ asked ftl 3 (entries bios 3) [])
read_pages-Left_example =
    read_pages-Left state 3 (record { alive = refl; safe = refl; waits = refl }) (omega arith)
