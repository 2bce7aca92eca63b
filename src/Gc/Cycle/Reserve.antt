-- ===== src/Gc/Cycle/Reserve.antt =====
-- The blocks that a collection sets aside.
use flashbench.Common.{
  ℕ, zero, suc, ◌<◌, ◌≡◌, ◌≢◌, refl, sym, ap, ap₂, subst, ◌∙◌, Option, none, some, [], ◌∷◌, arith,
  update_self, update_ne, Status, success, error,
}
use flashbench.Config.{num_chips}
use flashbench.Ssd.{init_blk_inf, inc_bers_cnt}
use flashbench.Mapping.{
  chip_index, get_curr_gc_block, get_curr_active_block, set_curr_gc_block, set_curr_active_block,
}
use flashbench.Gc.{GcState, each_chip, on_success}
use flashbench.Gc.Cycle.{erase_gc_blk, prepare_act_blk, prepare_act_blks}

-- The active block, or the block for garbage collection if there is none; and what is left of the latter.
abbrev pub promoted : Option ℕ → Option ℕ → Option ℕ
promoted (some a) gc = some a
promoted none gc = gc

abbrev pub left_over : Option ℕ → Option ℕ → Option ℕ
left_over (some a) gc = gc
left_over none gc = none

-- What `prepare_act_blk` changes for the chip with index `i`.
record Prepared (g g' : GcState) (i : ℕ) : Type 0 where
  act : g'.ftl.act_blks i ≡ promoted (g.ftl.act_blks i) (g.ftl.gc_blks i)
  gc : g'.ftl.gc_blks i ≡ left_over (g.ftl.act_blks i) (g.ftl.gc_blks i)
  found : promoted (g.ftl.act_blks i) (g.ftl.gc_blks i) ≢ none
  others :
      (j : ℕ)
      → i ≢ j
      → (g'.ftl.act_blks j ≡ g.ftl.act_blks j) × (g'.ftl.gc_blks j ≡ g.ftl.gc_blks j)
  lists : g'.ftl.ssd.chip_at ≡ g.ftl.ssd.chip_at
  blocks : (b : ℕ) → g.ftl.gc_blks i ≢ some b → g'.ftl.ssd.block_at b ≡ g.ftl.ssd.block_at b
  same_gcm : g'.gcm ≡ g.gcm

abbrev Preparation : GcState → ℕ → Status × GcState → Type 0
Preparation g i (error, g') = (g.ftl.act_blks i ≡ none) × (g.ftl.gc_blks i ≡ none)
Preparation g i (success, g') = Prepared g g' i

some-ne : (a : ℕ) → some a ≢ none
some-ne a e = absurd (cc)

-- The cases of `prepare_act_blk`, by the chip's active block and its block for garbage collection.
abbrev prepare_by : ℕ → GcState → Option ℕ → Option ℕ → Status × GcState
prepare_by chip g (some a) gc = (success, g)
prepare_by chip g none none = (error, g)
prepare_by chip g none (some b) =
    let g' = erase_gc_blk 0 chip b g in
    (
      success,
      record g' {
        ftl = set_curr_gc_block (set_curr_active_block g'.ftl 0 chip (some b)) 0 chip none;
      },
    )

prepare_by-Preparation :
    (chip : ℕ) (g : GcState) (a o : Option ℕ)
    → g.ftl.act_blks (chip_index 0 chip) ≡ a
    → g.ftl.gc_blks (chip_index 0 chip) ≡ o
    → Preparation g (chip_index 0 chip) (prepare_by chip g a o)
unfolding erase_gc_blk set_curr_active_block set_curr_gc_block
prepare_by-Preparation chip g (some a) o e f = record {
  act = e ∙ sym (ap (λ x. promoted x (g.ftl.gc_blks (chip_index 0 chip))) e);
  gc = sym (ap (λ x. left_over x (g.ftl.gc_blks (chip_index 0 chip))) e);
  found = λ z. some-ne a (sym (ap (λ x. promoted x (g.ftl.gc_blks (chip_index 0 chip))) e) ∙ z);
  others = λ j ne. (refl, refl);
  lists = refl;
  blocks = λ b ne. refl;
  same_gcm = refl;
}
prepare_by-Preparation chip g none none e f = (e, f)
prepare_by-Preparation chip g none (some b) e f = record {
  act =
      update_self g.ftl.act_blks (chip_index 0 chip) (some b)
      ∙ sym (ap (λ x. promoted x (g.ftl.gc_blks (chip_index 0 chip))) e ∙ f);
  gc =
      update_self g.ftl.gc_blks (chip_index 0 chip) none
      ∙ sym (ap (λ x. left_over x (g.ftl.gc_blks (chip_index 0 chip))) e);
  found = λ z. some-ne b (sym (ap (λ x. promoted x (g.ftl.gc_blks (chip_index 0 chip))) e ∙ f) ∙ z);
  others = λ j ne. (update_ne g.ftl.act_blks (some b) ne, update_ne g.ftl.gc_blks none ne);
  lists = refl;
  blocks = λ c ne.
      let apart : b ≢ c = λ z. ne (f ∙ ap some z) in
      update_ne (erase_gc_blk 0 chip b g).ftl.ssd.block_at _ apart
      ∙ update_ne g.ftl.ssd.block_at (inc_bers_cnt (init_blk_inf (g.ftl.ssd.block_at b))) apart;
  same_gcm = refl;
}

prepare_act_blk-Preparation :
    (chip : ℕ) (g : GcState) → Preparation g (chip_index 0 chip) (prepare_act_blk 0 chip g)
unfolding prepare_act_blk get_curr_active_block get_curr_gc_block
prepare_act_blk-Preparation chip g =
    subst (Preparation g (chip_index 0 chip))
      (same (g.ftl.act_blks (chip_index 0 chip)) (g.ftl.gc_blks (chip_index 0 chip)))
      (prepare_by-Preparation chip g (g.ftl.act_blks (chip_index 0 chip))
        (g.ftl.gc_blks (chip_index 0 chip)) refl refl)
  where
    same :
        (a o : Option ℕ)
        → prepare_by chip g a o ≡ (elim a [
          | some x ↦ (success, g)
          | none ↦ elim o [
            | none ↦ (error, g)
            | some b ↦
                let g' = erase_gc_blk 0 chip b g in
                (
                  success,
                  record g' {
                    ftl =
                        set_curr_gc_block
                          (set_curr_active_block g'.ftl 0 chip (some b))
                          0
                          chip
                          none;
                  },
                )
          ]
        ])
    same (some x) o = refl
    same none none = refl
    same none (some b) = refl

-- What the loops of `prepare_act_blks` change: each chip has an active block, which is the one it had or
-- else its block for garbage collection. Nothing changes but the latter blocks.
pub record IsPrepared (g g' : GcState) : Type 0 where
  pub act :
      (i : ℕ)
      → i < num_chips
      → (g'.ftl.act_blks i ≡ promoted (g.ftl.act_blks i) (g.ftl.gc_blks i))
        × (g'.ftl.act_blks i ≢ none)
        × (g'.ftl.gc_blks i ≡ left_over (g.ftl.act_blks i) (g.ftl.gc_blks i))
  pub lists : g'.ftl.ssd.chip_at ≡ g.ftl.ssd.chip_at
  pub blocks :
      (b : ℕ)
      → ((i : ℕ) → i < num_chips → g.ftl.gc_blks i ≢ some b)
      → g'.ftl.ssd.block_at b ≡ g.ftl.ssd.block_at b
  pub same_gcm : g'.gcm ≡ g.gcm

-- A chip has neither of the two blocks.
abbrev pub Stuck : GcState → Type 0
Stuck g = (i : ℕ) × (i < num_chips) × (g.ftl.act_blks i ≡ none) × (g.ftl.gc_blks i ≡ none)

abbrev pub Preparations : GcState → Status × GcState → Type 0
Preparations g (error, g') = Stuck g
Preparations g (success, g') = IsPrepared g g'

both-Prepared : (g g1 g2 : GcState) → Prepared g g1 0 → Prepared g1 g2 1 → IsPrepared g g2
both-Prepared g g1 g2 a b = record {
  act = λ i h. each i h;
  lists = b.lists ∙ a.lists;
  blocks = λ v h.
      b.blocks v (λ e. h 1 (omega arith) (sym (a.others 1 (λ z. omega (arith, z))).1 ∙ e))
      ∙ a.blocks v (h 0 (omega arith));
  same_gcm = b.same_gcm ∙ a.same_gcm;
}
  where
    same1 :
        promoted (g1.ftl.act_blks 1) (g1.ftl.gc_blks 1)
        ≡ promoted (g.ftl.act_blks 1) (g.ftl.gc_blks 1)
    same1 =
        ap₂ promoted (a.others 1 (λ z. omega (arith, z))).0 (a.others 1 (λ z. omega (arith, z))).1

    each :
        (i : ℕ)
        → i < num_chips
        → (g2.ftl.act_blks i ≡ promoted (g.ftl.act_blks i) (g.ftl.gc_blks i))
          × (g2.ftl.act_blks i ≢ none)
          × (g2.ftl.gc_blks i ≡ left_over (g.ftl.act_blks i) (g.ftl.gc_blks i))
    each zero h =
        let (act, gc) = b.others 0 (λ z. omega (arith, z)) in
        (act ∙ a.act, (λ z. a.found (sym (act ∙ a.act) ∙ z)), gc ∙ a.gc)
    each (suc zero) h = (
      b.act ∙ same1,
      (λ z. b.found (sym b.act ∙ z)),
      b.gc
          ∙ ap₂ left_over (a.others 1 (λ z. omega (arith, z))).0
              (a.others 1 (λ z. omega (arith, z))).1,
    )
    each (suc (suc i)) h = absurd (omega (arith, h))

-- `prepare_act_blks` fails only if a chip has neither an active block nor one for garbage collection. If
-- it succeeds each chip has an active block, which is the one it had, or else its block for garbage
-- collection, which it then has no more; all other blocks and the lists of blocks stay as they are.
pub prepare_act_blks-Preparations : (g : GcState) → Preparations g (prepare_act_blks g)
unfolding prepare_act_blks
prepare_act_blks-Preparations g = first (prepare_act_blk 0 0 g) (prepare_act_blk-Preparation 0 g)
  where
    second :
        (g1 : GcState) (r : Status × GcState)
        → Prepared g g1 0
        → Preparation g1 1 r
        → Preparations g (on_success (each_chip prepare_act_blk []) r)
    second g1 (error, g2) a (e, f) =
        let (act, gc) = a.others 1 (λ z. omega (arith, z)) in
        (1, omega arith, sym act ∙ e, sym gc ∙ f)
    second g1 (success, g2) a b = both-Prepared g g1 g2 a b

    first :
        (r : Status × GcState)
        → Preparation g 0 r
        → Preparations g (on_success (each_chip prepare_act_blk ((0, 1) ∷ [])) r)
    first (error, g1) (e, f) = (0, omega arith, e, f)
    first (success, g1) a = second g1 (prepare_act_blk 0 1 g1) a (prepare_act_blk-Preparation 1 g1)
