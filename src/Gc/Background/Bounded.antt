-- ===== src/Gc/Background/Bounded.antt =====
-- How much a step of the background collection does.
use flashbench.Common.{
  ℕ, zero, suc, ◌+◌, ◌*◌, ◌≤◌, ◌≡◌, refl, sym, ap, subst, ◌∙◌, Option, none, some, List, [], ◌∷◌,
  length, arith, Status, success, error, Each, ◌>>=◌, ◌==◌, if_elim, opt_elim,
}
use flashbench.Config.{num_chips, nr_lp_in_pp}
use flashbench.Ut.{Ut}
use flashbench.Ssd.{reset_dirt_blk, get_dirt_block}
use flashbench.Mapping.{
  set_curr_gc_block, Ftl, get_curr_active_block, get_next_bus_chip, get_curr_gc_block,
}
use flashbench.Gc.{GcState, on_success, each_chip, init_gcm, all_chips}
use flashbench.Gc.Copy.{prog_valid_pgs_to_gc_blks}
use flashbench.Gc.Copy.Rewritten.{Rewritten, prog_valid_pgs_to_gc_blks-Rewritten}
use flashbench.Gc.Cycle.{erase_gc_blk, update_gc_blk, update_gc_blks}
use flashbench.Gc.Background.{
  BgcFetch, each_turn, bgc_set_vic_blk, fb_bgc_set_vic_blks, bgc_fetch_chip, fb_bgc_read_valid_pgs,
  bgc_prepare_act_blk, fb_bgc_prepare_act_blks, bgc_rewrite_pgs, bgc_step, trigger_bg_gc,
  get_prev_bus_chip, perf_inc_nr_gc_trigger_bg,
}
use flashbench.Gc.Background.Kept.{Kept, each_chip-Kept, bgc_set_vic_blk-Kept}
use flashbench.Gc.Background.Within.{Slotted, Within, fetch_turn, fetch_turns-Within}

module _ (ut : Ut) where
  accesses-update_gc_blk :
      (bus chip : ℕ) (g : GcState) → (update_gc_blk ut bus chip g).1.accesses ≡ g.accesses
  unfolding update_gc_blk
  accesses-update_gc_blk bus chip g =
      go (get_curr_gc_block g.ftl bus chip) (get_dirt_block g.ftl.ssd bus chip)
        (get_curr_active_block g.ftl bus chip)
    where
      dirty : ℕ → GcState
      dirty b = record g {
        ftl =
            set_curr_gc_block (record g.ftl { ssd = reset_dirt_blk ut g.ftl.ssd b }) bus chip
              (some b);
      }

      pick : Option ℕ → Option ℕ → Option ℕ → Status × GcState
      pick c d a = elim c [
        | some b ↦ (success, g)
        | none ↦ elim d [
          | none ↦ elim a [ none ↦ (error, g) | some b ↦ (success, g) ]
          | some b ↦ (success, dirty b)
        ]
      ]

      go : (c d a : Option ℕ) → (pick c d a).1.accesses ≡ g.accesses
      go (some b) d a = refl
      go none none none = refl
      go none none (some b) = refl
      go none (some b) a = refl

  accesses-update_gc_blks : (g : GcState) → (update_gc_blks ut g).1.accesses ≡ g.accesses
  unfolding update_gc_blks
  accesses-update_gc_blks g = chips all_chips g
    where
      step :
          (cs : List (ℕ × ℕ)) (g : GcState) (r : Status × GcState)
          → r.1.accesses ≡ g.accesses
          → ((g' : GcState) → (each_chip (update_gc_blk ut) cs g').1.accesses ≡ g'.accesses)
          → (on_success (each_chip (update_gc_blk ut) cs) r).1.accesses ≡ g.accesses
      step cs g (error, g') e ih = e
      step cs g (success, g') e ih = ih g' ∙ e

      chips :
          (cs : List (ℕ × ℕ)) (g : GcState)
          → (each_chip (update_gc_blk ut) cs g).1.accesses ≡ g.accesses
      chips [] g = refl
      chips (c ∷ cs) g =
          step cs g (update_gc_blk ut c.0 c.1 g) (accesses-update_gc_blk c.0 c.1 g) (chips cs)

  bgc_prepare_act_blk-accesses :
      (bus chip : ℕ) (g : GcState)
      → length (bgc_prepare_act_blk ut bus chip g).1.accesses ≤ length g.accesses + 1
  unfolding bgc_prepare_act_blk erase_gc_blk
  bgc_prepare_act_blk-accesses bus chip g =
      opt_elim (λ (r : Status × GcState). length r.1.accesses ≤ length g.accesses + 1)
        (get_curr_gc_block g.ftl bus chip) (error, g) _ (omega arith) (λ b. omega arith)

  abbrev prepare_turn : GcState → ℕ × ℕ
  prepare_turn g = get_next_bus_chip g.ftl

  prepare_turns-accesses :
      (n : ℕ) (g : GcState)
      → length (each_turn prepare_turn (bgc_prepare_act_blk ut) n g).1.accesses
        ≤ length g.accesses + n
  prepare_turns-accesses zero g = omega arith
  prepare_turns-accesses (suc n) g =
      go (bgc_prepare_act_blk ut (prepare_turn g).0 (prepare_turn g).1 g)
        (bgc_prepare_act_blk-accesses (prepare_turn g).0 (prepare_turn g).1 g)
        (prepare_turns-accesses n)
    where
      go :
          (r : Status × GcState)
          → length r.1.accesses ≤ length g.accesses + 1
          → ((g' : GcState)
              → length (each_turn prepare_turn (bgc_prepare_act_blk ut) n g').1.accesses
                ≤ length g'.accesses + n)
          → length (on_success (each_turn prepare_turn (bgc_prepare_act_blk ut) n) r).1.accesses
            ≤ length g.accesses + suc n
      go (error, g') h ih = omega (arith, h)
      go (success, g') h ih = omega (arith, h, ih g')

  -- A step asks the device for at most twice as many accesses as there are chips.
  abbrev pub Bounded : GcState → Status × GcState → Type 0
  Bounded g r = length r.1.accesses ≤ length g.accesses + 2 * num_chips

  behind_prog : Option (Status × GcState) → Option (Status × GcState)
  behind_prog o = do
    (written, g') ← o
    elim written [ error ↦ some (error, g') | success ↦ some (update_gc_blks ut g') ]

  bgc_rewrite_pgs-Bounded :
      (g g' : GcState)
      → length g'.accesses ≤ length g.accesses + num_chips
      → g'.gcm.nr_pgs_to_copy ≤ nr_lp_in_pp * num_chips
      → Each (Bounded g) (bgc_rewrite_pgs ut g')
  unfolding bgc_rewrite_pgs perf_inc_nr_gc_trigger_bg behind_prog
  bgc_rewrite_pgs-Bounded g g' h k =
      if_elim (Each (Bounded g)) (g'.gcm.nr_pgs_to_copy == 0) (some (success, g'))
        (behind_prog (prog_valid_pgs_to_gc_blks ut (perf_inc_nr_gc_trigger_bg g')))
        (omega (arith, h))
        (go (prog_valid_pgs_to_gc_blks ut (perf_inc_nr_gc_trigger_bg g')) (
          prog_valid_pgs_to_gc_blks-Rewritten ut (perf_inc_nr_gc_trigger_bg g') (omega (arith, k))))
    where
      go :
          (o : Option (Status × GcState))
          → Rewritten ut (length g'.accesses) g'.gcm.nr_pgs_to_copy o
          → Each (Bounded g) (behind_prog o)
      go none w = w
      go (some (error, r)) w = omega (arith, w, h, k)
      go (some (success, r)) w = omega (arith, w, h, k, ap length (accesses-update_gc_blks r))

  bgc_step-Bounded : (g : GcState) → Slotted g.ftl.ssd → Each (Bounded g) (bgc_step ut g)
  unfolding bgc_step init_gcm fb_bgc_set_vic_blks fb_bgc_read_valid_pgs
  bgc_step-Bounded g h =
      choice (fb_bgc_set_vic_blks (init_gcm g))
        (each_chip-Kept bgc_set_vic_blk bgc_set_vic_blk-Kept all_chips (init_gcm g))
    where
      start : GcState → BgcFetch
      start g1 = record { g = g1; ptr_lpas = 0; ptr_data = 0 }

      fetched :
          (g1 : GcState) (r : Status × BgcFetch)
          → Kept (init_gcm g) g1
          → Within num_chips (start g1) r.1
          → Each
              (Bounded g)
              (elim r.0 [ error ↦ some (error, r.1.g) | success ↦ bgc_rewrite_pgs ut r.1.g ])
      fetched g1 (error, f) k w = omega (arith, w.accesses, ap length k.accesses)
      fetched g1 (success, f) k w =
          bgc_rewrite_pgs-Bounded g f.g (omega (arith, w.accesses, ap length k.accesses))
            (omega (arith, w.goal, k.goal))

      choice :
          (r : Status × GcState)
          → Kept (init_gcm g) r.1
          → Each (Bounded g) (elim r.0 [
            | error ↦ some (error, r.1)
            | success ↦
                let (status, g2) = fb_bgc_read_valid_pgs r.1 in
                elim status [ error ↦ some (error, g2) | success ↦ bgc_rewrite_pgs ut g2 ]
          ])
      choice (error, g1) k = omega (arith, ap length k.accesses)
      choice (success, g1) k =
          fetched g1 (each_turn fetch_turn bgc_fetch_chip num_chips (start g1)) k (
            fetch_turns-Within num_chips (start g1)
              (subst (λ (t : Ftl). Slotted t.ssd) (sym k.ftl) h))

  -- Where no page counts more invalid logical pages than it has slots, a step of the background
  -- collection always ends and never uses a null active block, and it asks the device for at most
  -- twice as many accesses as there are chips, whether it succeeds or not.
  pub trigger_bg_gc-Bounded :
      (g : GcState) → Slotted g.ftl.ssd → Each (Bounded g) (trigger_bg_gc ut g)
  unfolding trigger_bg_gc fb_bgc_prepare_act_blks perf_inc_nr_gc_trigger_bg
  trigger_bg_gc-Bounded g h =
      opt_elim (Each (Bounded g))
        (get_curr_active_block g.ftl (get_prev_bus_chip g.ftl).0 (get_prev_bus_chip g.ftl).1)
        (prepared (fb_bgc_prepare_act_blks ut g)) (λ a. bgc_step ut g)
        (go (fb_bgc_prepare_act_blks ut g) (prepare_turns-accesses num_chips g))
        (λ a. bgc_step-Bounded g h)
    where
      prepared : Status × GcState → Option (Status × GcState)
      prepared r = elim r.0 [
        | error ↦ some (error, r.1)
        | success ↦ some (success, perf_inc_nr_gc_trigger_bg r.1)
      ]

      go :
          (r : Status × GcState)
          → length r.1.accesses ≤ length g.accesses + num_chips
          → Each (Bounded g) (prepared r)
      go (error, r) w = omega (arith, w)
      go (success, r) w = omega (arith, w)
