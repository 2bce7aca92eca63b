-- ===== src/Tests/Writing.antt =====
-- Write requests and the flush of a buffer of five pages, on a new device.
use flashbench.Common.{
  map, ℕ, refl, ◌+◌, ◌*◌, ◌<◌, ◌≡◌, ◌&&◌, none, List, [], ◌∷◌, arith, length, Status, error,
}
use flashbench.Common.Counts.{count}
use flashbench.Config.{nr_lp_in_pp, page_unmapped}
use flashbench.Ut.Listing.{listing}
use flashbench.Ssd.{get_free_block}
use flashbench.WriteBuffer.{WriteBuffer, fb_create_write_buffer, fb_put_pg, fb_wb_set_free_pg}
use flashbench.WriteBuffer.Invariant.{IsValid}
use flashbench.WriteBuffer.Put.{fb_put_pg-IsValid}
use flashbench.WriteBuffer.Retry.{fb_create_write_buffer-IsValid}
use flashbench.Mapping.{Ftl, get_curr_gc_block}
use flashbench.Mapping.Setup.Start.{first_blks}
use flashbench.Discard.{fb_del_invalidate_pgs}
use flashbench.Writes.{WriteState, is_null, is_fgc_needed, make_write_request, fb_wb_flush}
use flashbench.Writes.Foreground.{Wrote, is_fgc_needed_lem, make_write_request-Wrote}
use flashbench.Writes.Pages.{Incoming, write_pages}
use flashbench.Writes.Pages.Ends.{Entered, put-idle, write_pages-Ended}
use flashbench.Writes.Flush.{Flushed, fb_wb_flush-Flushed}
use flashbench.Tests.Setups.{ready_ssd, old_page, old_ssd}

abbrev pub new_ftl : Ftl
new_ftl = record {
  ssd = ready_ssd;
  mappings = λ i. page_unmapped;
  act_blks = first_blks listing (λ pg. old_page) old_ssd;
  gc_blks = λ i. none;
  mru_bus = 0;
  mru_chip = 1;
}

abbrev pub new_state : WriteState
new_state = record { ftl = new_ftl; writes = []; nr_wordline_prog_fg = 0 }

-- A garbage collection that finds nothing.
abbrev pub no_gc : Ftl → Status × Ftl
no_gc ftl = (error, ftl)

is_fgc_needed_lem_example :
    is_fgc_needed new_ftl 0 1
    ≡ (is_null (get_curr_gc_block new_ftl 0 1) && is_null (get_free_block new_ftl.ssd 0 1))
is_fgc_needed_lem_example = is_fgc_needed_lem new_ftl 0 1 (omega arith) (omega arith)

make_write_request-Wrote_example :
    Wrote listing 0
      (make_write_request listing no_gc new_state (1 ∷ 2 ∷ 3 ∷ 4 ∷ []) ([] ∷ [] ∷ [] ∷ [] ∷ []))
make_write_request-Wrote_example =
    make_write_request-Wrote listing no_gc new_state (1 ∷ 2 ∷ 3 ∷ 4 ∷ []) ([] ∷ [] ∷ [] ∷ [] ∷ [])

abbrev entries : List ℕ
entries = 10 ∷ 20 ∷ 30 ∷ 40 ∷ 50 ∷ []

entries_once : (q : ℕ) → count q entries < 2
entries_once q = ground arith

abbrev put : ℕ → WriteBuffer listing → WriteBuffer listing
put lpa wb = (fb_put_pg listing wb lpa (lpa ∷ [])).1

abbrev pub empty_buffer : WriteBuffer listing
empty_buffer = fb_create_write_buffer listing entries (λ p. []) 1

pub empty_valid : IsValid listing 5 none empty_buffer
empty_valid =
    (fb_create_write_buffer-IsValid listing entries (λ p. []) 1 (omega arith)
      (λ q. omega (arith, entries_once q))).0

put_valid :
    (lpa : ℕ) (wb : WriteBuffer listing)
    → IsValid listing 5 none wb
    → IsValid listing 5 none (put lpa wb)
put_valid lpa wb v = fb_put_pg-IsValid listing lpa (lpa ∷ []) v

abbrev full_buffer : WriteBuffer listing
full_buffer = put 5 (put 4 (put 3 (put 2 (put 1 empty_buffer))))

full_valid : IsValid listing 5 none full_buffer
full_valid =
    put_valid 5 _ (put_valid 4 _ (put_valid 3 _ (put_valid 2 _ (put_valid 1 _ empty_valid))))

pub empty_idle : empty_buffer.writing_pgs ≡ []
unfolding fb_create_write_buffer fb_wb_set_free_pg
empty_idle = refl

-- A valid buffer with no page being written, and one page more.
abbrev Ready : WriteBuffer listing → Type 0
Ready wb = IsValid listing 5 none wb × (wb.writing_pgs ≡ [])

put-Ready : (lpa : ℕ) (wb : WriteBuffer listing) → Ready wb → Ready (put lpa wb)
put-Ready lpa wb r = (put_valid lpa wb r.0, put-idle listing lpa (lpa ∷ []) r.0 r.1)

idle : full_buffer.writing_pgs ≡ []
idle =
    (put-Ready 5 _
      (put-Ready 4 _ (put-Ready 3 _ (put-Ready 2 _ (put-Ready 1 _ (empty_valid, empty_idle)))))).1

fb_wb_flush-Flushed_example :
    Flushed listing no_gc 5 new_state full_buffer
      (0 * nr_lp_in_pp + length full_buffer.buf_pgs)
      (fb_wb_flush listing no_gc 6 new_state full_buffer)
fb_wb_flush-Flushed_example =
    fb_wb_flush-Flushed listing no_gc 6 new_state full_buffer full_valid idle
      (omega (arith, full_valid.total))

-- Six pages for the five entries.
abbrev six_pages : List (ℕ × List ℕ)
six_pages = (1, 1 ∷ []) ∷ (2, 2 ∷ []) ∷ (3, 3 ∷ []) ∷ (4, 4 ∷ []) ∷ (5, 5 ∷ []) ∷ (6, 6 ∷ []) ∷ []

abbrev pub incoming : Incoming listing
incoming = record { state = new_state; wb = empty_buffer; nr_incomming_write = 7 }

write_pages-Ended_example :
    Entered listing no_gc 5
      (7 + 6)
      (record incoming {
        state = record new_state {
          ftl = fb_del_invalidate_pgs listing new_ftl (map (λ page. page.0) six_pages);
        };
      })
      six_pages
      (write_pages listing no_gc incoming six_pages)
write_pages-Ended_example =
    write_pages-Ended listing no_gc incoming six_pages (omega arith) empty_valid empty_idle
      (omega arith)
