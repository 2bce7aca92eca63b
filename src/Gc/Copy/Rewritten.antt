-- ===== src/Gc/Copy/Rewritten.antt =====
-- That the collected pages are written, and how often.
use mathlib.Core.Option
use flashbench.Common.{
  ℕ, zero, suc, ◌+◌, ◌-◌, ◌/◌, ◌^◌, ◌<◌, ◌≤◌, ◌≡◌, sym, ap, subst, ◌∙◌, Option, none, some, ◌∷◌,
  length, arith, Status, success, error, ltb, if◌then◌else◌, ◌>>=◌, lt→ltb,
}
use flashbench.Config.{nr_lp_in_pp, add_u32}
use flashbench.Ut.{Ut}
use flashbench.Mapping.{
  Ftl, get_next_bus_chip, set_prev_bus_chip, get_curr_active_block, chip_index,
  map_logical_to_physical,
}
use flashbench.Mapping.Active.{
  Active, update_act_blk-elim, alloc_new_page-elim, act_blks-map_logical_pages,
}
use flashbench.Gc.{GcState, write_page}
use flashbench.Gc.Copy.{prog_page, prog_pages, prog_valid_pgs_to_gc_blks, fill_unmapped}

module _ (ut : Ut) where
  -- There is a result, behind `w` accesses to the device: if it succeeds `n` logical pages were written,
  -- four in each access, and fewer if it fails.
  abbrev pub Rewritten : (w n : ℕ) → Option (Status × GcState) → Type 0
  Rewritten w n none = ⊥
  Rewritten w n (some (success, g)) = length g.accesses ≡ w + (n + 3) / nr_lp_in_pp
  Rewritten w n (some (error, g)) = length g.accesses < w + (n + 3) / nr_lp_in_pp

  Rewritten-next :
      (w n : ℕ) (o : Option (Status × GcState))
      → Rewritten (w + 1) (suc n - nr_lp_in_pp) o
      → Rewritten w (suc n) o
  Rewritten-next w n none h = h
  Rewritten-next w n (some (success, g)) h = omega (arith, h)
  Rewritten-next w n (some (error, g)) h = omega (arith, h)

  prog_page-elim {κ} :
      (P : Option GcState → Type κ) (nr ptr bus chip blk pg : ℕ) (g : GcState)
      → Active ut g.ftl bus chip
      → ((g' : GcState) → length g'.accesses ≡ length g.accesses + 1 → P (some g'))
      → P (prog_page ut nr ptr bus chip blk pg g)
  unfolding prog_page map_logical_to_physical get_curr_active_block set_prev_bus_chip
  prog_page-elim P nr ptr bus chip blk pg g (b, e) f =
      update_act_blk-elim ut
        (λ o. P (
          Option.map
            (λ (ftl : Ftl). record g {
              ftl = ftl;
              gcm = record g.gcm { lpas_to_copy = lpas };
              accesses = write_page bus chip blk pg ptr ∷ g.accesses;
              nr_wordline_prog_bg = add_u32 g.nr_wordline_prog_bg 1;
            })
            o))
        (set_prev_bus_chip
          (map_logical_to_physical ut g.ftl (λ lp. lpas (ptr + lp)) bus chip blk pg) bus chip)
        bus chip
        (
          b,
          ap (λ (a : ℕ → Option ℕ). a (chip_index bus chip))
                (act_blks-map_logical_pages ut nr_lp_in_pp g.ftl (λ lp. lpas (ptr + lp)) bus chip
                  blk pg 0)
              ∙ e,
        )
        (λ ftl' _. f _ (omega arith))
    where
      lpas : ℕ → ℕ
      lpas =
          if ltb nr nr_lp_in_pp
          then fill_unmapped (nr_lp_in_pp - nr) nr ptr g.gcm.lpas_to_copy
          else g.gcm.lpas_to_copy

  -- What follows the allocation of a page.
  abbrev behind_alloc : ℕ → ℕ → ℕ → GcState → Option (ℕ × ℕ) × Ftl → Option (Status × GcState)
  behind_alloc fuel nr ptr g r = elim r.0 [
    | none ↦ some (error, record g { ftl = r.1 })
    | some p ↦ do
      g'' ←
          prog_page ut (suc nr) ptr (get_next_bus_chip g.ftl).0 (get_next_bus_chip g.ftl).1 p.0 p.1
            (record g { ftl = r.1 })
      prog_pages ut fuel (suc nr - nr_lp_in_pp) (ptr + nr_lp_in_pp) g''
  ]

  prog_pages-Rewritten :
      (fuel nr ptr : ℕ) (g : GcState)
      → nr ≤ fuel
      → Rewritten (length g.accesses) nr (prog_pages ut fuel nr ptr g)
  unfolding prog_pages
  prog_pages-Rewritten zero zero ptr g h = omega arith
  prog_pages-Rewritten zero (suc nr) ptr g h = absurd (omega (arith, h))
  prog_pages-Rewritten (suc fuel) zero ptr g h = omega arith
  prog_pages-Rewritten (suc fuel) (suc nr) ptr g h =
      let bus = (get_next_bus_chip g.ftl).0 in
      let chip = (get_next_bus_chip g.ftl).1 in
      alloc_new_page-elim ut
        (λ r. Rewritten (length g.accesses) (suc nr) (behind_alloc fuel nr ptr g r)) g.ftl bus chip
        (λ ftl'. omega arith)
        (λ p ftl' active.
          prog_page-elim
            (λ o.
              Rewritten (length g.accesses) (suc nr)
                (o >>= prog_pages ut fuel (suc nr - nr_lp_in_pp) (ptr + nr_lp_in_pp)))
            (suc nr) ptr bus chip p.0 p.1 (record g { ftl = ftl' }) active
            (λ g' e. Rewritten-next (length g.accesses) nr _ (
              subst
                (λ w.
                  Rewritten w (suc nr - nr_lp_in_pp)
                    (prog_pages ut fuel (suc nr - nr_lp_in_pp) (ptr + nr_lp_in_pp) g'))
                e
                (prog_pages-Rewritten fuel (suc nr - nr_lp_in_pp) (ptr + nr_lp_in_pp) g'
                  (omega (arith, h))))))

  -- The loop of `prog_valid_pgs_to_gc_blks` ends and never meets a null active block. If it succeeds
  -- the device was asked to write as many physical pages as the collected logical pages, fewer than
  -- 2^31, fill, and fewer if it fails.
  pub prog_valid_pgs_to_gc_blks-Rewritten :
      (g : GcState)
      → g.gcm.nr_pgs_to_copy < 2 ^ 31
      → Rewritten (length g.accesses) g.gcm.nr_pgs_to_copy (prog_valid_pgs_to_gc_blks ut g)
  unfolding prog_valid_pgs_to_gc_blks
  prog_valid_pgs_to_gc_blks-Rewritten g h =
      subst
        (λ t.
          let nr = if t then g.gcm.nr_pgs_to_copy else 0 in
          Rewritten (length g.accesses) g.gcm.nr_pgs_to_copy (prog_pages ut nr nr 0 g))
        (sym (lt→ltb g.gcm.nr_pgs_to_copy (2 ^ 31) h))
        (prog_pages-Rewritten g.gcm.nr_pgs_to_copy g.gcm.nr_pgs_to_copy 0 g (omega arith))
