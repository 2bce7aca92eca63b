-- ===== src/Writes/Flush.antt =====
-- The flush of the write buffer: its rounds and its result.
use flashbench.Common.{
  ℕ, zero, suc, ◌+◌, ◌*◌, ◌<◌, ◌≡◌, refl, ap, subst, Option, none, some, List, [], arith, length,
  Status, success, error, ◌>>=◌, dec_lt,
}
use flashbench.Config.{nr_lp_in_pp}
use flashbench.Ut.{Ut}
use flashbench.WriteBuffer.{WriteBuffer, Data, fb_rm_written_pgs}
use flashbench.WriteBuffer.Invariant.{IsValid}
use flashbench.WriteBuffer.Flush.{Taken, fb_get_pgs_to_write_enough, fb_get_pgs_to_write_few}
use flashbench.WriteBuffer.Written.{Cleaned, fb_rm_written_pgs-Cleaned}
use flashbench.Mapping.{Ftl}
use flashbench.Writes.{WriteState, make_write_request, fb_wb_flush}
use flashbench.Writes.Placed.{Led, Programmed, Placed, make_write_request-Placed}

module _ (ut : Ut) (trigger_gc : Ftl → Status × Ftl) where
  -- Rounds of a flush, which lead from a state and a buffer to others. Each takes the oldest pages,
  -- programs them to a physical page, and takes the entries of pages that are being written out of the
  -- buffer.
  pub data Rounds (cap : ℕ)
      : WriteState → WriteBuffer ut → WriteState → WriteBuffer ut → Type 0 where
    over : {s : WriteState} {wb : WriteBuffer ut} → Rounds cap s wb s wb
    round :
        {s s1 s2 : WriteState} {wb taken wb1 wb2 : WriteBuffer ut} {lpas : List ℕ} {src : List Data}
        → Taken ut cap nr_lp_in_pp wb lpas src taken
        → Programmed ut trigger_gc s.ftl s.writes s.nr_wordline_prog_fg lpas src s1
        → Cleaned ut cap taken wb1
        → Rounds cap s1 wb1 s2 wb2
        → Rounds cap s wb s2 wb2

  -- Behind rounds, the oldest pages were taken, and nothing was written.
  pub record Stopped (cap : ℕ) (s : WriteState) (wb : WriteBuffer ut) (s' : WriteState)
      (wb' : WriteBuffer ut) : Type 0 where
    pub last : WriteState
    pub left : WriteBuffer ut
    pub rounds : Rounds cap s wb last left
    pub lpas : List ℕ
    pub src : List Data
    pub taken : Taken ut cap nr_lp_in_pp left lpas src wb'
    pub unwritten : s'.writes ≡ last.writes
    pub led : Led ut trigger_gc last.ftl s'.ftl

  -- A flush of `wb` has a result, behind which the buffer is valid. If it succeeds fewer pages than
  -- fill a physical page are left, none of them being written, behind rounds that wrote the others; if
  -- it fails one lot of pages was taken behind such rounds and not written. `total` is how many pages
  -- were buffered, with those written before.
  abbrev pub Flushed :
      (cap : ℕ)
      → WriteState
      → WriteBuffer ut
      → (total : ℕ) → Option (Status × WriteState × WriteBuffer ut)
      → Type 0
  Flushed cap s0 wb0 total none = ⊥
  Flushed cap s0 wb0 total (some (success, s, wb)) =
      IsValid ut cap none wb
      × (length wb.buf_pgs < nr_lp_in_pp)
      × (wb.writing_pgs ≡ [])
      × (length s.writes * nr_lp_in_pp + length wb.buf_pgs ≡ total)
      × Rounds cap s0 wb0 s wb
  Flushed cap s0 wb0 total (some (error, s, wb)) =
      IsValid ut cap none wb
      × ((length s.writes + 1) * nr_lp_in_pp + length wb.buf_pgs ≡ total)
      × Stopped cap s0 wb0 s wb

  -- One round more in front.
  before_round :
      {cap : ℕ} (total : ℕ) (s : WriteState) {s1 : WriteState} {wb taken wb1 : WriteBuffer ut}
      {lpas : List ℕ} {src : List Data}
      → Taken ut cap nr_lp_in_pp wb lpas src taken
      → Programmed ut trigger_gc s.ftl s.writes s.nr_wordline_prog_fg lpas src s1
      → Cleaned ut cap taken wb1
      → (o : Option (Status × WriteState × WriteBuffer ut)) → Flushed cap s1 wb1 total o
      → Flushed cap s wb total o
  before_round total s0 t p c none f = f
  before_round total s0 t p c (some (success, s, wb)) f = (f.0, f.1, f.2, f.3, round t p c f.4)
  before_round total s0 t p c (some (error, s, wb)) f = (
    f.0,
    f.1,
    record {
      last = f.2.last;
      left = f.2.left;
      rounds = round t p c f.2.rounds;
      lpas = f.2.lpas;
      src = f.2.src;
      taken = f.2.taken;
      unwritten = f.2.unwritten;
      led = f.2.led;
    },
  )

  -- That a flush of `fuel` rounds is enough.
  abbrev Enough : ℕ → ℕ → Type 0
  Enough cap fuel =
      (s : WriteState) (wb : WriteBuffer ut)
      → IsValid ut cap none wb
      → wb.writing_pgs ≡ []
      → length wb.buf_pgs < fuel
      → Flushed cap s wb (length s.writes * nr_lp_in_pp + length wb.buf_pgs)
          (fb_wb_flush ut trigger_gc fuel s wb)

  -- What follows the pages that a round has taken.
  flush_round :
      {cap : ℕ} (fuel : ℕ) (s : WriteState) (wb : WriteBuffer ut)
      → Enough cap fuel
      → IsValid ut cap none wb
      → length wb.buf_pgs < suc fuel
      → (lpas : List ℕ) (pages : List Data) (wb' : WriteBuffer ut)
      → Taken ut cap nr_lp_in_pp wb lpas pages wb'
      → (r : Option (Status × WriteState))
      → Placed ut trigger_gc s.ftl s.writes s.nr_wordline_prog_fg lpas pages r
      → Flushed cap s wb (length s.writes * nr_lp_in_pp + length wb.buf_pgs) (do
        (written, s') ← r
        elim written [
          | error ↦ some (error, s', wb')
          | success ↦ fb_wb_flush ut trigger_gc fuel s' (fb_rm_written_pgs ut wb')
        ])
  flush_round fuel s wb ih v h lpas pages wb' taken none w = absurd w
  flush_round fuel s wb ih v h lpas pages wb' taken (some (error, s')) w = (
    taken.valid,
    omega (
      arith,
      ap length w.0,
      taken.valid.total,
      v.total,
      taken.writing,
      ap length taken.same_free,
    ),
    record {
      last = s;
      left = wb;
      rounds = over;
      lpas = lpas;
      src = pages;
      taken = taken;
      unwritten = w.0;
      led = w.2;
    },
  )
  flush_round {cap} fuel s wb ih v h lpas pages wb' taken (some (success, s')) w =
      subst
        (λ total.
          Flushed cap s wb total (fb_wb_flush ut trigger_gc fuel s' (fb_rm_written_pgs ut wb')))
        (omega (arith, ap length w.written, shorter, ap length cleaned.same_buf))
        (before_round _ s taken w cleaned
          (fb_wb_flush ut trigger_gc fuel s' (fb_rm_written_pgs ut wb'))
          (ih s' (fb_rm_written_pgs ut wb') cleaned.valid cleaned.none_writing
            (omega (arith, h, shorter, ap length cleaned.same_buf))))
    where
      cleaned : Cleaned ut cap wb' (fb_rm_written_pgs ut wb')
      cleaned = fb_rm_written_pgs-Cleaned ut wb' taken.valid

      shorter : length wb'.buf_pgs + nr_lp_in_pp ≡ length wb.buf_pgs
      shorter = omega (arith, taken.valid.total, v.total, taken.writing, ap length taken.same_free)

  -- On a valid buffer with no page being written, and with one round of fuel more than there are
  -- buffered pages, `fb_wb_flush` ends, with a valid buffer. If it succeeds fewer than `NR_LP_IN_PP`
  -- buffered pages are left, none being written, and the others were written in rounds. Each round
  -- takes the `NR_LP_IN_PP` oldest pages, writes their data, in order, to the page that
  -- `alloc_new_page` gives on the chip whose turn it is, names the logical pages of that page for
  -- their addresses in the table and changes no other entry, gives the turn on, and takes the
  -- entries out of the buffer, where all other pages stay. If it fails, a lot of the oldest pages
  -- was taken behind such rounds and not written, and stays readable. Only garbage collection, which
  -- is any function on the mapping, and allocations that find no page come before an allocation.
  pub fb_wb_flush-Flushed :
      {cap : ℕ} (fuel : ℕ) (s : WriteState) (wb : WriteBuffer ut)
      → IsValid ut cap none wb
      → wb.writing_pgs ≡ []
      → length wb.buf_pgs < fuel
      → Flushed cap s wb
          (length s.writes * nr_lp_in_pp + length wb.buf_pgs)
          (fb_wb_flush ut trigger_gc fuel s wb)
  unfolding fb_wb_flush
  fb_wb_flush-Flushed zero s wb v idle h = absurd (omega arith)
  fb_wb_flush-Flushed {cap} (suc fuel) s wb v idle h =
      elim (dec_lt (length wb.buf_pgs) nr_lp_in_pp) [
        | yes few ↦ rw (fb_get_pgs_to_write_few ut nr_lp_in_pp wb v few) (v, few, idle, refl, over)
        | no enough ↦
            let (lpas, pages, wb', t, taken) =
              fb_get_pgs_to_write_enough ut nr_lp_in_pp wb v (omega (arith, enough)) in
            rw (t) (
              flush_round fuel s wb (fb_wb_flush-Flushed fuel) v h lpas pages wb' taken
                (make_write_request ut trigger_gc s lpas pages)
                (make_write_request-Placed ut trigger_gc s lpas pages))
      ]
