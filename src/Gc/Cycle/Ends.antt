-- ===== src/Gc/Cycle/Ends.antt =====
-- A whole foreground collection.
use flashbench.Common.{
  ℕ, zero, suc, ◌<◌, ◌≡◌, ◌≢◌, ◌⊎◌, inl, inr, refl, sym, ap, ◌∙◌, Option, none, some, [], ◌∷◌,
  arith, update_self, update_ne, Status, success, error,
}
use flashbench.Config.{num_chips}
use flashbench.Ut.{Ut}
use flashbench.Ssd.{get_dirt_block, reset_dirt_blk}
use flashbench.Mapping.{chip_index, get_curr_gc_block, get_curr_active_block, set_curr_gc_block}
use flashbench.Gc.{GcState, each_chip, on_success}
use flashbench.Gc.Cycle.{update_gc_blk, update_gc_blks}

-- Each chip has a block for garbage collection or an active block.
abbrev pub Supplied : GcState → ℕ → Type 0
Supplied g i = (g.ftl.gc_blks i ≢ none) ⊎ (g.ftl.act_blks i ≢ none)

abbrev pub Renewed : Status × GcState → Type 0
Renewed (error, g) = Unit
Renewed (success, g) = (i : ℕ) → i < num_chips → Supplied g i

module _ (ut : Ut) where
  -- What `update_gc_blk` changes for the chip with index `i`.
  record Updated (g g' : GcState) (i : ℕ) : Type 0 where
    now : Supplied g' i
    act : g'.ftl.act_blks ≡ g.ftl.act_blks
    others : (j : ℕ) → i ≢ j → g'.ftl.gc_blks j ≡ g.ftl.gc_blks j

  abbrev Update : GcState → ℕ → Status × GcState → Type 0
  Update g i (error, g') = Unit
  Update g i (success, g') = Updated g g' i

  abbrev dirty : ℕ → GcState → ℕ → GcState
  dirty chip g b = record g {
    ftl = set_curr_gc_block (record g.ftl { ssd = reset_dirt_blk ut g.ftl.ssd b }) 0 chip (some b);
  }

  held : (o : Option ℕ) (a : ℕ) → o ≡ some a → o ≢ none
  held o a e z = let clash : some a ≡ none = sym e ∙ z in absurd (cc)

  update_gc_blk-Update :
      (chip : ℕ) (g : GcState) → Update g (chip_index 0 chip) (update_gc_blk ut 0 chip g)
  unfolding update_gc_blk get_curr_gc_block get_curr_active_block set_curr_gc_block
  update_gc_blk-Update chip g =
      go (g.ftl.gc_blks (chip_index 0 chip)) (get_dirt_block g.ftl.ssd 0 chip)
        (g.ftl.act_blks (chip_index 0 chip)) refl refl
    where
      go :
          (c d a : Option ℕ)
          → g.ftl.gc_blks (chip_index 0 chip) ≡ c
          → g.ftl.act_blks (chip_index 0 chip) ≡ a
          → Update g (chip_index 0 chip) (elim c [
            | some b ↦ (success, g)
            | none ↦ elim d [
              | none ↦ elim a [ none ↦ (error, g) | some b ↦ (success, g) ]
              | some b ↦ (success, dirty chip g b)
            ]
          ])
      go (some b) d a e f = record { now = inl (held _ b e); act = refl; others = λ j ne. refl }
      go none none none e f = tt
      go none none (some b) e f = record {
        now = inr (held _ b f);
        act = refl;
        others = λ j ne. refl;
      }
      go none (some b) a e f = record {
        now = inl (held _ b (update_self g.ftl.gc_blks (chip_index 0 chip) (some b)));
        act = refl;
        others = λ j ne. update_ne g.ftl.gc_blks (some b) ne;
      }

  both-Updated : (g g1 g2 : GcState) → Updated g g1 0 → Updated g1 g2 1 → Renewed (success, g2)
  both-Updated g g1 g2 a b zero h = elim a.now [
    | inl x ↦ inl (λ z. x (sym (b.others 0 (λ e. omega (arith, e))) ∙ z))
    | inr x ↦ inr (λ z. x (ap (λ (f : ℕ → Option ℕ). f 0) (sym b.act) ∙ z))
  ]
  both-Updated g g1 g2 a b (suc zero) h = b.now
  both-Updated g g1 g2 a b (suc (suc i)) h = absurd (omega (arith, h))

  pub update_gc_blks-Renewed : (g : GcState) → Renewed (update_gc_blks ut g)
  unfolding update_gc_blks
  update_gc_blks-Renewed g = first (update_gc_blk ut 0 0 g) (update_gc_blk-Update 0 g)
    where
      second :
          (g1 : GcState) (r : Status × GcState)
          → Updated g g1 0
          → Update g1 1 r
          → Renewed (on_success (each_chip (update_gc_blk ut) []) r)
      second g1 (error, g2) a b = tt
      second g1 (success, g2) a b = both-Updated g g1 g2 a b

      first :
          (r : Status × GcState)
          → Update g 0 r
          → Renewed (on_success (each_chip (update_gc_blk ut) ((0, 1) ∷ [])) r)
      first (error, g1) a = tt
      first (success, g1) a = second g1 (update_gc_blk ut 0 1 g1) a (update_gc_blk-Update 1 g1)
