-- ===== src/Gc/Background/Kept.antt =====
-- What the choice of victims leaves alone.
use flashbench.Common.{
  ℕ, ◌≡◌, refl, ◌∙◌, none, some, List, [], ◌∷◌, Status, success, error, ltb, ◌==◌, if_elim,
  opt_elim, if◌then◌else◌,
}
use flashbench.Config.{num_pages_per_block, bgc_th_nr_blks, add_u32}
use flashbench.Gc.{
  GcState, on_success, each_chip, get_vic_blk, set_vic_blk, set_first_valid_pg,
  select_vic_blk_from_used, find_first_valid_pg, get_first_valid_pg,
}
use flashbench.Gc.Background.{find_vic_blk, keep_vic_blk, bgc_set_vic_blk}

-- The choice of victims touches neither the mapping nor the device.
pub record Kept (g g' : GcState) : Type 0 where
  pub ftl : g'.ftl ≡ g.ftl
  pub accesses : g'.accesses ≡ g.accesses
  pub goal : g'.gcm.nr_pgs_to_copy ≡ g.gcm.nr_pgs_to_copy

Kept-refl : (g : GcState) → Kept g g
Kept-refl g = record { ftl = refl; accesses = refl; goal = refl }

Kept-trans : {g g' g'' : GcState} → Kept g g' → Kept g' g'' → Kept g g''
Kept-trans a b = record {
  ftl = b.ftl ∙ a.ftl;
  accesses = b.accesses ∙ a.accesses;
  goal = b.goal ∙ a.goal;
}

pub each_chip-Kept :
    (step : ℕ → ℕ → GcState → Status × GcState)
    → ((bus chip : ℕ) (g : GcState) → Kept g (step bus chip g).1)
    → (cs : List (ℕ × ℕ)) (g : GcState) → Kept g (each_chip step cs g).1
each_chip-Kept step h [] g = Kept-refl g
each_chip-Kept step h (c ∷ cs) g = go (step c.0 c.1 g) (h c.0 c.1 g) (each_chip-Kept step h cs)
  where
    go :
        (r : Status × GcState)
        → Kept g r.1
        → ((g' : GcState) → Kept g' (each_chip step cs g').1)
        → Kept g (on_success (each_chip step cs) r).1
    go (error, g') k ih = k
    go (success, g') k ih = Kept-trans k (ih g')

find_vic_blk-Kept : (bus chip : ℕ) (g : GcState) → Kept g (find_vic_blk bus chip g).1
unfolding find_vic_blk set_vic_blk set_first_valid_pg
find_vic_blk-Kept bus chip g =
    opt_elim (λ (r : Status × GcState). Kept g r.1) (select_vic_blk_from_used g.ftl.ssd bus chip)
      (error, g)
      (λ b. (
        success,
        set_first_valid_pg (set_vic_blk g bus chip (some b)) bus chip
            (find_first_valid_pg (g.ftl.ssd.block_at b) 0),
      ))
      (Kept-refl g) (λ b. record { ftl = refl; accesses = refl; goal = refl })

keep_vic_blk-Kept : (bus chip : ℕ) (g : GcState) → Kept g (keep_vic_blk bus chip g).1
unfolding keep_vic_blk set_vic_blk set_first_valid_pg
keep_vic_blk-Kept bus chip g =
    opt_elim (λ (r : Status × GcState). Kept g r.1) (get_vic_blk g bus chip)
      (find_vic_blk bus chip g)
      (λ b.
        let pg = find_first_valid_pg (g.ftl.ssd.block_at b) (get_first_valid_pg g bus chip) in
        let g' = set_first_valid_pg g bus chip pg in
        if pg == num_pages_per_block
        then find_vic_blk bus chip (set_vic_blk g' bus chip none)
        else (success, g'))
      (find_vic_blk-Kept bus chip g)
      (λ b.
        let pg = find_first_valid_pg (g.ftl.ssd.block_at b) (get_first_valid_pg g bus chip) in
        let g' = set_first_valid_pg g bus chip pg in
        if_elim (λ (r : Status × GcState). Kept g r.1) (pg == num_pages_per_block)
          (find_vic_blk bus chip (set_vic_blk g' bus chip none)) (success, g')
          (Kept-trans (record { ftl = refl; accesses = refl; goal = refl })
            (find_vic_blk-Kept bus chip (set_vic_blk g' bus chip none)))
          (record { ftl = refl; accesses = refl; goal = refl }))

pub bgc_set_vic_blk-Kept : (bus chip : ℕ) (g : GcState) → Kept g (bgc_set_vic_blk bus chip g).1
unfolding bgc_set_vic_blk set_vic_blk set_first_valid_pg
bgc_set_vic_blk-Kept bus chip g =
    if_elim (λ (r : Status × GcState). Kept g r.1)
      (ltb
        (add_u32 (g.ftl.ssd.chip_at bus chip).nr_dirt_blks
          (g.ftl.ssd.chip_at bus chip).nr_free_blocks)
        bgc_th_nr_blks)
      (keep_vic_blk bus chip g)
      (success, set_first_valid_pg (set_vic_blk g bus chip none) bus chip 0)
      (keep_vic_blk-Kept bus chip g) (record { ftl = refl; accesses = refl; goal = refl })
