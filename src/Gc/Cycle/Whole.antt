-- ===== src/Gc/Cycle/Whole.antt =====
-- A whole foreground collection, from a state whose counters are right.
use flashbench.Common.{
  ℕ, zero, suc, ◌+◌, ◌*◌, ◌<◌, ◌≤◌, ◌≡◌, ◌≢◌, ◌⊎◌, inl, inr, refl, sym, ap, ap₂, subst, ◌∙◌, Option,
  none, some, arith, Status, success, error, Each, ◌>>=◌, length,
}
use flashbench.Common.Counts.{count}
use flashbench.Config.{num_chips, num_chips_per_bus, num_pages_per_block, nr_lp_in_pp}
use flashbench.Ut.{Ut}
use flashbench.Ssd.{SsdInfo, FlashBlock, FlashChip}
use flashbench.Gc.{GcMngr, GcState, init_gcm, set_vic_blks}
use flashbench.Gc.Copy.{get_valid_pgs_in_vic_blks, prog_valid_pgs_to_gc_blks}
use flashbench.Gc.Copy.Fetched.{valid_lpas}
use flashbench.Gc.Copy.Ends.{Collected, IsCounted, get_valid_pgs_in_vic_blks-Collected}
use flashbench.Gc.Copy.Counters.{count_lps, BlockCounted, AllCounted}
use flashbench.Gc.Copy.Goal.{Targeted, set_vic_blks-Targeted}
use flashbench.Gc.Copy.Rewritten.{Rewritten, prog_valid_pgs_to_gc_blks-Rewritten}
use flashbench.Gc.Cycle.{prepare_act_blks, update_gc_blks, rewrite_pgs, trigger_gc_page_mapping}
use flashbench.Gc.Cycle.Reserve.{IsPrepared, Preparations, prepare_act_blks-Preparations}
use flashbench.Gc.Cycle.Ends.{Renewed, update_gc_blks-Renewed}

-- The counters of all used and dirty blocks are right, and no block that is set aside for garbage
-- collection is among them.
pub record IsCollectable (g : GcState) : Type 0 where
  pub counted : AllCounted g.ftl.ssd
  pub apart :
      (i b chip : ℕ)
      → i < num_chips
      → g.ftl.gc_blks i ≡ some b
      → chip < num_chips_per_bus
      → (count b (g.ftl.ssd.chip_at 0 chip).dirt_blks ≡ 0)
        × (count b (g.ftl.ssd.chip_at 0 chip).used_blks ≡ 0)

count_lps-same :
    (s s' : SsdInfo) (b n pg : ℕ)
    → s'.block_at b ≡ s.block_at b
    → count_lps s' (some b) n pg ≡ count_lps s (some b) n pg
count_lps-same s s' b zero pg e = refl
count_lps-same s s' b (suc n) pg e =
    ap₂ ◌+◌ (ap (λ (k : FlashBlock). length (valid_lpas nr_lp_in_pp (k.list_pages pg) 0)) e)
      (count_lps-same s s' b n (pg + 1) e)

BlockCounted-same :
    (s s' : SsdInfo) (b : ℕ) → s'.block_at b ≡ s.block_at b → BlockCounted s b → BlockCounted s' b
BlockCounted-same s s' b e c = record {
  pages = λ pg h.
      subst
        (λ (k : FlashBlock).
          (k.list_pages pg).nr_invalid_log_pages
            + length (valid_lpas nr_lp_in_pp (k.list_pages pg) 0)
          ≡ nr_lp_in_pp)
        (sym e) (c.pages pg h);
  valid =
      ap (λ (k : FlashBlock). k.nr_valid_log_pages) e
      ∙ c.valid
      ∙ sym (count_lps-same s s' b num_pages_per_block 0 e);
}

AllCounted-prepared : (g g' : GcState) → IsCollectable g → IsPrepared g g' → AllCounted g'.ftl.ssd
AllCounted-prepared g g' c p chip b h listed =
    let listed' =
      subst
        (λ (l : ℕ → ℕ → FlashChip).
          (0 < count b (l 0 chip).dirt_blks) ⊎ (0 < count b (l 0 chip).used_blks))
        p.lists listed in
    BlockCounted-same g.ftl.ssd g'.ftl.ssd b (p.blocks b (other listed'))
      (c.counted chip b h listed')
  where
    other :
        (0 < count b (g.ftl.ssd.chip_at 0 chip).dirt_blks)
          ⊎ (0 < count b (g.ftl.ssd.chip_at 0 chip).used_blks)
        → (i : ℕ) → i < num_chips
        → g.ftl.gc_blks i ≢ some b
    other (inl l) i k e = absurd (omega (arith, l, (c.apart i b chip k e h).0))
    other (inr l) i k e = absurd (omega (arith, l, (c.apart i b chip k e h).1))

module _ (ut : Ut) where
  rewrite_pgs-Renewed :
      (g : GcState)
      → g.gcm.nr_pgs_to_copy ≤ num_chips * num_pages_per_block * nr_lp_in_pp
      → Each Renewed (rewrite_pgs ut g)
  unfolding rewrite_pgs
  rewrite_pgs-Renewed g h =
      go (prog_valid_pgs_to_gc_blks ut g)
        (prog_valid_pgs_to_gc_blks-Rewritten ut g (omega (arith, h)))
    where
      go :
          (o : Option (Status × GcState))
          → Rewritten ut (length g.accesses) g.gcm.nr_pgs_to_copy o
          → Each Renewed (do
            (written, g') ← o
            elim written [ error ↦ some (error, g') | success ↦ some (update_gc_blks ut g') ])
      go none w = w
      go (some (error, g')) w = tt
      go (some (success, g')) w = update_gc_blks-Renewed ut g'

  -- The steps behind the choice of the victims, and behind the erasure.
  collect_rewrite :
      (fuel : ℕ) (g : GcState)
      → IsCounted g
      → Each Renewed (get_valid_pgs_in_vic_blks (suc (suc fuel)) g >>= rewrite_pgs ut)
  collect_rewrite fuel g c =
      go (get_valid_pgs_in_vic_blks (suc (suc fuel)) g)
        (get_valid_pgs_in_vic_blks-Collected fuel g c)
    where
      go : (o : Option GcState) → Each (Collected g) o → Each Renewed (o >>= rewrite_pgs ut)
      go none w = w
      go (some g') w = rewrite_pgs-Renewed g' (omega (arith, w.same_goal, c.goal, c.fits))

  abbrev behind_choice : ℕ → Status × GcState → Option (Status × GcState)
  behind_choice fuel (error, g) = some (error, g)
  behind_choice fuel (success, g) = get_valid_pgs_in_vic_blks (suc (suc fuel)) g >>= rewrite_pgs ut

  choice-Renewed :
      (fuel : ℕ) (g : GcState) (r : Status × GcState)
      → Targeted g r
      → Each Renewed (behind_choice fuel r)
  choice-Renewed fuel g (error, g') t = tt
  choice-Renewed fuel g (success, g') (same, counted) = collect_rewrite fuel g' counted

  abbrev behind_erasure : ℕ → Status × GcState → Option (Status × GcState)
  behind_erasure fuel (error, g) = some (error, g)
  behind_erasure fuel (success, g) = behind_choice fuel (set_vic_blks g)

  erasure-Renewed :
      (fuel : ℕ) (g : GcState) (r : Status × GcState)
      → g.gcm.nr_pgs_to_copy ≡ 0
      → IsCollectable g
      → Preparations g r
      → Each Renewed (behind_erasure fuel r)
  erasure-Renewed fuel g (error, g') z c p = tt
  erasure-Renewed fuel g (success, g') z c p = choice-Renewed fuel g' (set_vic_blks g') (
      set_vic_blks-Targeted g' (ap (λ (m : GcMngr). m.nr_pgs_to_copy) p.same_gcm ∙ z)
        (AllCounted-prepared g g' c p))

  -- From a state in which the counters of all used and dirty blocks are right, and no block set aside
  -- for garbage collection is among these, a foreground collection ends, with two rounds of fuel for the
  -- loop that reads, and never uses a null active block. If it succeeds each chip has a block for
  -- garbage collection or an active block.
  pub trigger_gc_page_mapping-Renewed :
      (fuel : ℕ) (g : GcState)
      → IsCollectable g
      → Each Renewed (trigger_gc_page_mapping ut (suc (suc fuel)) g)
  unfolding trigger_gc_page_mapping init_gcm
  trigger_gc_page_mapping-Renewed fuel g c =
      subst (Each Renewed) (same (prepare_act_blks (init_gcm g))) (
        erasure-Renewed fuel (init_gcm g) (prepare_act_blks (init_gcm g)) refl
          (record { counted = c.counted; apart = c.apart })
          (prepare_act_blks-Preparations (init_gcm g)))
    where
      same_choice :
          (r : Status × GcState)
          → behind_choice fuel r ≡ (elim r.0 [
            | error ↦ some (error, r.1)
            | success ↦ get_valid_pgs_in_vic_blks (suc (suc fuel)) r.1 >>= rewrite_pgs ut
          ])
      same_choice (error, g') = refl
      same_choice (success, g') = refl

      same :
          (r : Status × GcState)
          → behind_erasure fuel r ≡ (elim r.0 [
            | error ↦ some (error, r.1)
            | success ↦
                let (chosen, g2) = set_vic_blks r.1 in
                elim chosen [
                  | error ↦ some (error, g2)
                  | success ↦ get_valid_pgs_in_vic_blks (suc (suc fuel)) g2 >>= rewrite_pgs ut
                ]
          ])
      same (error, g') = refl
      same (success, g') = same_choice (set_vic_blks g')
