-- ===== src/Writes/Pages/Ends.antt =====
-- The rounds of a block request that writes.
use flashbench.Common.{
  status_elim, map, refl, subst, ℕ, false, zero, suc, ◌+◌, ◌*◌, ◌%◌, ◌<◌, ◌≤◌, ◌≡◌, ap, ◌∙◌, Option,
  none, some, List, [], ◌∷◌, arith, length, Status, success, error, inl, inr, ◌>>=◌, ◌⊎◌,
}
use flashbench.Common.Counts.{count}
use flashbench.Config.{nr_lp_in_pp, u32_mod, add_u32}
use flashbench.Ut.{Ut}
use flashbench.WriteBuffer.{
  WriteBuffer, Data, fb_put_pg, store_pg, claim_pg, unlist_pg, fb_wb_set_buf_pg,
  fb_wb_reset_free_pg, fb_wb_reset_buf_pg,
}
use flashbench.WriteBuffer.Invariant.{IsValid}
use flashbench.WriteBuffer.Put.{fb_put_pg-IsValid, fb_put_pg_error, fb_put_pg-view, put_cases}
use flashbench.Mapping.{Ftl}
use flashbench.Writes.{WriteState, fb_wb_flush}
use flashbench.Discard.{fb_del_invalidate_pgs}
use flashbench.Writes.Flush.{Flushed, fb_wb_flush-Flushed}
use flashbench.Writes.Pages.Trail.{Trail, Trail-came, Trail-room, over}
use flashbench.Writes.Pages.{Incoming, fb_del_invalid_data, put_pages, write_pages}

module _ (ut : Ut) where
  -- There is a result, behind which the buffer is valid. If the request succeeds no page is being
  -- written, and `n` pages have come in.
  abbrev pub Ended : (cap n : ℕ) → Option (Status × Incoming ut) → Type 0
  Ended cap n none = ⊥
  Ended cap n (some (success, r)) =
      IsValid ut cap none r.wb × (r.wb.writing_pgs ≡ []) × (r.nr_incomming_write ≡ n % u32_mod)
  Ended cap n (some (error, r)) = IsValid ut cap none r.wb

  Ended-same :
      (cap n n' : ℕ) (o : Option (Status × Incoming ut))
      → n % u32_mod ≡ n' % u32_mod
      → Ended cap n o
      → Ended cap n' o
  Ended-same cap n n' none e w = w
  Ended-same cap n n' (some (success, r)) e w = (w.0, w.1, w.2 ∙ e)
  Ended-same cap n n' (some (error, r)) e w = w

  -- Putting a page keeps it so that no page is being written.
  pub put-idle :
      {cap : ℕ} {wb : WriteBuffer ut} (lpa : ℕ) (src : Data)
      → IsValid ut cap none wb
      → wb.writing_pgs ≡ []
      → (fb_put_pg ut wb lpa src).1.writing_pgs ≡ []
  unfolding store_pg claim_pg unlist_pg fb_wb_set_buf_pg fb_wb_reset_free_pg fb_wb_reset_buf_pg
  put-idle {cap} {wb} lpa src v idle =
      put_cases ut wb lpa src (λ r. r.1.writing_pgs ≡ []) (λ e f. idle) (λ p l e f. idle)
        (λ p e.
          let flag : (wb.pg p).wflag ≡ false =
            v.buf_flag p (omega (arith, (v.found lpa p e).1, ap (count p) idle)) in
          rw (flag) idle)

  module _ (trigger_gc : Ftl → Status × Ftl) where
    -- The result and the pages.
    abbrev pub Entered :
        (cap n : ℕ) → Incoming ut → List (ℕ × Data) → Option (Status × Incoming ut) → Type 0
    Entered cap n r pages o = Ended cap n o × Trail ut trigger_gc cap r pages o

    -- Enough rounds for the pages, one less if an entry is free.
    abbrev EnoughRounds : ℕ → List (ℕ × Data) → WriteBuffer ut → Type 0
    EnoughRounds fuel pages wb =
        (2 * length pages < fuel)
        ⊎ ((0 < length pages) × (2 * length pages ≤ fuel) × (0 < length wb.free_pgs))

    at_most :
        (fuel : ℕ) (pages : List (ℕ × Data)) (wb : WriteBuffer ut)
        → EnoughRounds fuel pages wb
        → 2 * length pages ≤ fuel
    at_most fuel pages wb (inl h) = omega arith
    at_most fuel pages wb (inr h) = h.1

    fewer :
        (fuel : ℕ) (pages : List (ℕ × Data)) (wb : WriteBuffer ut)
        → EnoughRounds (suc fuel) pages wb
        → wb.free_pgs ≡ []
        → 2 * length pages ≤ fuel
    fewer fuel pages wb (inl h) e = omega arith
    fewer fuel pages wb (inr h) e = absurd (omega (arith, h.2, ap length e))

    -- That `fuel` rounds are enough where they seem so.
    abbrev Suffices : ℕ → ℕ → Type 0
    Suffices cap fuel =
        (r : Incoming ut) (pages : List (ℕ × Data))
        → IsValid ut cap none r.wb
        → r.wb.writing_pgs ≡ []
        → r.nr_incomming_write < u32_mod
        → EnoughRounds fuel pages r.wb
        → Entered cap (r.nr_incomming_write + length pages) r pages
            (put_pages ut trigger_gc fuel r pages)

    -- A page that there was no room for, behind the flush.
    abbrev behind_flush :
        ℕ
        → Incoming ut
        → ℕ × Data
        → List (ℕ × Data)
        → Option (Status × WriteState × WriteBuffer ut)
        → Option (Status × Incoming ut)
    behind_flush fuel r page pages f = do
      (flushed, s, wb') ← f
      elim flushed [
        | error ↦ some (error, record r { state = s; wb = wb' })
        | success ↦ put_pages ut trigger_gc fuel (record r { state = s; wb = wb' }) (page ∷ pages)
      ]

    retry :
        {cap : ℕ} (fuel : ℕ) (r : Incoming ut) (page : ℕ × Data) (pages : List (ℕ × Data))
        (total : ℕ)
        → Suffices cap fuel
        → nr_lp_in_pp ≤ cap
        → r.nr_incomming_write < u32_mod
        → 2 * length (page ∷ pages) ≤ fuel
        → (f : Option (Status × WriteState × WriteBuffer ut))
        → Flushed ut trigger_gc cap r.state r.wb total f
        → Entered cap
            (r.nr_incomming_write + length (page ∷ pages))
            r
            (page ∷ pages)
            (behind_flush fuel r page pages f)
    retry fuel r page pages total ih fits small enough none w = absurd w
    retry fuel r page pages total ih fits small enough (some (error, s, wb')) w = (
      w.0,
      record {
        front = [];
        back = page ∷ pages;
        last = r;
        parts = refl;
        entered = over;
        stopped = w.2;
      },
    )
    retry fuel r page pages total ih fits small enough (some (success, s, wb'))
          (v, few, idle, _, rounds) =
        let (ended, trail) =
          ih (record r { state = s; wb = wb' }) (page ∷ pages) v idle small
            (inr (omega arith, enough, omega (arith, v.total, ap length idle))) in
        (
          ended,
          Trail-room ut trigger_gc _ r (page ∷ pages) s wb'
              (put_pages ut trigger_gc fuel (record r { state = s; wb = wb' }) (page ∷ pages))
              rounds trail,
        )

    put_pages-Ended : {cap : ℕ} (fuel : ℕ) → nr_lp_in_pp ≤ cap → Suffices cap fuel
    unfolding put_pages
    put_pages-Ended zero fits r pages v idle small (inl h) = absurd (omega arith)
    put_pages-Ended zero fits r pages v idle small (inr h) = absurd (omega (arith, h.0, h.1))
    put_pages-Ended (suc fuel) fits r [] v idle small rounds = ((v, idle, omega arith), over)
    put_pages-Ended {cap} (suc fuel) fits r (page ∷ pages) v idle small rounds =
        let v' = fb_put_pg-IsValid ut page.0 page.1 v in
        let idle' = put-idle page.0 page.1 v idle in
        let wb = (fb_put_pg ut r.wb page.0 page.1).1 in
        let r' = record r { wb = wb; nr_incomming_write = add_u32 r.nr_incomming_write 1 } in
        let flushed = fb_wb_flush ut trigger_gc (length wb.buf_pgs + 1) r.state wb in
        status_elim (Entered cap (r.nr_incomming_write + length (page ∷ pages)) r (page ∷ pages))
          (fb_put_pg ut r.wb page.0 page.1).0 (put_pages ut trigger_gc fuel r' pages)
          (behind_flush fuel (record r { wb = wb }) page pages flushed)
          (λ ok.
            let (ended, trail) =
              put_pages-Ended fuel fits r' pages v' idle' (omega arith)
                (inl (omega (arith, at_most (suc fuel) (page ∷ pages) r.wb rounds))) in
            (
              Ended-same cap (r'.nr_incomming_write + length pages)
                  (r.nr_incomming_write + length (page ∷ pages))
                  (put_pages ut trigger_gc fuel r' pages) (omega arith) ended,
              Trail-came ut trigger_gc _ r page pages wb (put_pages ut trigger_gc fuel r' pages)
                  (fb_put_pg-view ut page.0 page.1 v ok) trail,
            ))
          (λ failed.
            let refused = fb_put_pg_error ut r.wb page.0 page.1 in
            subst
              (λ w.
                Entered cap (r.nr_incomming_write + length (page ∷ pages)) (record r { wb = w })
                  (page ∷ pages) (behind_flush fuel (record r { wb = wb }) page pages flushed))
              (refused.1 failed)
              (retry fuel (record r { wb = wb }) page pages _ (put_pages-Ended fuel fits) fits small
                (fewer fuel (page ∷ pages) r.wb rounds (refused.0.0 failed).1) flushed
                (fb_wb_flush-Flushed ut trigger_gc (length wb.buf_pgs + 1) r.state wb v' idle'
                  (omega arith))))

    -- On a valid buffer of at least `NR_LP_IN_PP` entries with no page being written, a block request
    -- that writes comes to an end, with two rounds of fuel for each page and one more: no page waits
    -- for room for ever, and the buffer is valid behind it. The data on the device under its addresses
    -- is invalidated first. If it succeeds, its pages have come into the buffer in order, counted by a
    -- `u32`: behind each the buffer holds its data under its address, and what it held under all
    -- others, until rounds of a flush write the oldest pages to the device.
    -- No page is being written at the end. If it fails, a front part of the pages came in like this,
    -- and the flush for the next one failed behind its rounds, with one lot of pages that was taken
    -- and not written.
    pub write_pages-Ended :
        {cap : ℕ} (r : Incoming ut) (pages : List (ℕ × Data))
        → nr_lp_in_pp ≤ cap
        → IsValid ut cap none r.wb
        → r.wb.writing_pgs ≡ []
        → r.nr_incomming_write < u32_mod
        → Entered cap
            (r.nr_incomming_write + length pages)
            (record r {
              state = record r.state {
                ftl = fb_del_invalidate_pgs ut r.state.ftl (map (λ page. page.0) pages);
              };
            })
            pages
            (write_pages ut trigger_gc r pages)
    unfolding write_pages fb_del_invalid_data
    write_pages-Ended r pages fits v idle small =
        put_pages-Ended (2 * length pages + 1) fits _ pages v idle small (inl (omega arith))
