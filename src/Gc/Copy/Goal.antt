-- ===== src/Gc/Copy/Goal.antt =====
-- That `set_vic_blks` counts the pages that `get_valid_pgs_in_vic_blks` will find.
use flashbench.Common.{
  ℕ, zero, suc, ◌+◌, ◌*◌, ◌%◌, ◌<◌, ◌≤◌, ◌≡◌, refl, sym, ap, ap₂, subst, ◌∙◌, not, ◌&&◌, ◌⊎◌, inl,
  inr, Option, none, some, List, [], ◌∷◌, length, arith, ◌==◌, if_split, update, Status, success,
  error, head, Option-cases,
}
use flashbench.Common.Counts.{count, count_head}
use flashbench.Config.{u32_mod, num_chips, num_chips_per_bus, num_pages_per_block, nr_lp_in_pp}
use flashbench.Ssd.{SsdInfo, get_dirt_block}
use flashbench.Mapping.{Ftl, chip_index, get_curr_gc_block, get_curr_active_block}
use flashbench.Writes.{is_null}
use flashbench.Gc.{
  GcState, set_vic_blk, set_first_valid_pg, select_vic_blk_greedy, take_vic_blk, choose_vic_blk,
  set_vic_blks, on_success, each_chip,
}
use flashbench.Gc.Choice.{MostInvalid, select_vic_blk_greedy_lem}
use flashbench.Gc.Copy.Counters.{
  count_lps, length-pages_lpas, BlockCounted, AllCounted, count_lps-none, count_lps-le,
}
use flashbench.Gc.Copy.Fetched.{PageCounted, pages_lpas}
use flashbench.Gc.Copy.Ends.{victims_lpas, IsCounted}

-- A block that is chosen is dirty or used.
head-count : (l : List ℕ) (b : ℕ) → head l ≡ some b → 0 < count b l
head-count [] b e = absurd (cc)
head-count (x ∷ l) b e =
    let same : x ≡ b = cc in subst (λ y. 0 < count y (x ∷ l)) same (count_head x l)

select-listed :
    (s : SsdInfo) (bus chip b : ℕ)
    → select_vic_blk_greedy s bus chip ≡ some b
    → (0 < count b (s.chip_at bus chip).dirt_blks) ⊎ (0 < count b (s.chip_at bus chip).used_blks)
unfolding get_dirt_block
select-listed s bus chip b e = elim (Option-cases (get_dirt_block s bus chip)) [
  | inr (d, f) ↦
      let same : some d ≡ some b = sym ((select_vic_blk_greedy_lem s bus chip).0 d f) ∙ e in
      inl (head-count (s.chip_at bus chip).dirt_blks b (f ∙ same))
  | inl f ↦
      inr
        (subst (MostInvalid s (s.chip_at bus chip).used_blks) e
          ((select_vic_blk_greedy_lem s bus chip).1 f)).0
]

-- What the choice for a chip leaves: a victim that is counted, or none.
record Chosen (g g' : GcState) (i : ℕ) (o : Option ℕ) : Type 0 where
  same_ftl : g'.ftl ≡ g.ftl
  vics : g'.gcm.vic_blks ≡ update g.gcm.vic_blks i o
  goal :
      g'.gcm.nr_pgs_to_copy
      ≡ (g.gcm.nr_pgs_to_copy + count_lps g.ftl.ssd o num_pages_per_block 0) % u32_mod
  counted : (b pg : ℕ) → o ≡ some b → pg < num_pages_per_block → PageCounted g.ftl.ssd b pg
  few : count_lps g.ftl.ssd o num_pages_per_block 0 ≤ nr_lp_in_pp * num_pages_per_block

abbrev Choice : GcState → ℕ → Status × GcState → Type 0
Choice g i (error, g') = Unit
Choice g i (success, g') = (o : Option ℕ) × Chosen g g' i o

no_victim :
    (g : GcState) (bus chip : ℕ)
    → g.gcm.nr_pgs_to_copy < u32_mod
    → Chosen g (set_vic_blk g bus chip none) (chip_index bus chip) none
unfolding set_vic_blk
no_victim g bus chip h = record {
  same_ftl = refl;
  vics = refl;
  goal = omega (arith, h, count_lps-none g.ftl.ssd num_pages_per_block 0);
  counted = λ b pg e. absurd (cc);
  few = omega (arith, count_lps-none g.ftl.ssd num_pages_per_block 0);
}

take_vic_blk-Choice :
    (bus chip b : ℕ) (g : GcState)
    → g.gcm.nr_pgs_to_copy < u32_mod
    → BlockCounted g.ftl.ssd b
    → Choice g (chip_index bus chip) (success, take_vic_blk bus chip b g)
unfolding take_vic_blk set_vic_blk set_first_valid_pg
take_vic_blk-Choice bus chip b g h counted =
    if_split (λ g'. (o : Option ℕ) × Chosen g g' (chip_index bus chip) o)
      ((g.ftl.ssd.block_at b).nr_valid_log_pages == 0) _ _ (λ _. (none, no_victim g bus chip h))
      (λ _. (
        some b,
        record {
          same_ftl = refl;
          vics = refl;
          goal = ap (λ n. (g.gcm.nr_pgs_to_copy + n) % u32_mod) counted.valid;
          counted = λ b' pg e k.
              let same : b ≡ b' = cc in
              subst (λ v. PageCounted g.ftl.ssd v pg) same (counted.pages pg k);
          few =
              count_lps-le g.ftl.ssd b num_pages_per_block 0
                (λ i k. counted.pages i (omega (arith, k)));
        },
      ))

choose_vic_blk-Choice :
    (chip : ℕ) (g : GcState)
    → chip < num_chips_per_bus
    → g.gcm.nr_pgs_to_copy < u32_mod
    → AllCounted g.ftl.ssd
    → Choice g chip (choose_vic_blk 0 chip g)
unfolding choose_vic_blk
choose_vic_blk-Choice chip g k h all =
    if_split (Choice g chip)
      (not (is_null (get_curr_gc_block g.ftl 0 chip))
        && not (is_null (get_curr_active_block g.ftl 0 chip)))
      _ _
      (λ _.
        subst (λ i. Choice g i (success, set_vic_blk g 0 chip none)) {x = chip_index 0 chip}
          (omega arith) (none, no_victim g 0 chip h))
      (λ _.
        choice (select_vic_blk_greedy g.ftl.ssd 0 chip)
          (λ b e. all chip b k (select-listed g.ftl.ssd 0 chip b e)))
  where
    choice :
        (o : Option ℕ)
        → ((b : ℕ) → o ≡ some b → BlockCounted g.ftl.ssd b)
        → Choice g chip (elim o [ none ↦ (error, g) | some b ↦ (success, take_vic_blk 0 chip b g) ])
    choice none c = tt
    choice (some b) c =
        subst (λ i. Choice g i (success, take_vic_blk 0 chip b g)) {x = chip_index 0 chip}
          (omega arith) (take_vic_blk-Choice 0 chip b g h (c b refl))

-- What the loops over the chips leave.
abbrev pub Targeted : GcState → Status × GcState → Type 0
Targeted g (error, g') = Unit
Targeted g (success, g') = (g'.ftl ≡ g.ftl) × IsCounted g'

two_sums :
    {n0 n1 n2 l : ℕ} (c0 c1 : ℕ)
    → n0 ≡ 0
    → n1 ≡ (n0 + c0) % u32_mod
    → n2 ≡ (n1 + c1) % u32_mod
    → l ≡ c0 + c1
    → c0 ≤ nr_lp_in_pp * num_pages_per_block
    → c1 ≤ nr_lp_in_pp * num_pages_per_block
    → (n2 ≡ l) × (l ≤ num_chips * num_pages_per_block * nr_lp_in_pp)
two_sums c0 c1 a b c d e f = (omega arith, omega arith)

both-Chosen :
    (g g1 g2 : GcState) (o0 o1 : Option ℕ)
    → g.gcm.nr_pgs_to_copy ≡ 0
    → Chosen g g1 0 o0
    → Chosen g1 g2 1 o1
    → Targeted g (success, g2)
both-Chosen g g1 g2 o0 o1 z a b = (
  same,
  record {
    counted =
        λ i v pg k e l. subst (λ (t : Ftl). PageCounted t.ssd v pg) (sym same) (pages i v pg k e l);
    goal = sums.0;
    fits = sums.1;
  },
)
  where
    same : g2.ftl ≡ g.ftl
    same = b.same_ftl ∙ a.same_ftl

    vic0 : g2.gcm.vic_blks 0 ≡ o0
    vic0 = ap (λ (v : ℕ → Option ℕ). v 0) (b.vics ∙ ap (λ v. update v 1 o1) a.vics)

    vic1 : g2.gcm.vic_blks 1 ≡ o1
    vic1 = ap (λ (v : ℕ → Option ℕ). v 1) b.vics

    few1 : count_lps g.ftl.ssd o1 num_pages_per_block 0 ≤ nr_lp_in_pp * num_pages_per_block
    few1 =
        subst
          (λ (t : Ftl).
            count_lps t.ssd o1 num_pages_per_block 0 ≤ nr_lp_in_pp * num_pages_per_block)
          a.same_ftl b.few

    total :
        length (victims_lpas g2)
        ≡ count_lps g.ftl.ssd o0 num_pages_per_block 0
          + count_lps g.ftl.ssd o1 num_pages_per_block 0
    total =
        ap (λ (t : Ftl). length (pages_lpas t.ssd g2.gcm.vic_blks num_pages_per_block 0)) same
        ∙ length-pages_lpas g.ftl.ssd g2.gcm.vic_blks num_pages_per_block 0
        ∙ ap₂
            (λ o o'.
              count_lps g.ftl.ssd o num_pages_per_block 0
              + count_lps g.ftl.ssd o' num_pages_per_block 0)
            vic0 vic1

    sums :
        (g2.gcm.nr_pgs_to_copy ≡ length (victims_lpas g2))
        × (length (victims_lpas g2) ≤ num_chips * num_pages_per_block * nr_lp_in_pp)
    sums =
        two_sums _ _ z a.goal
          (b.goal
            ∙ ap
                (λ (t : Ftl).
                  (g1.gcm.nr_pgs_to_copy + count_lps t.ssd o1 num_pages_per_block 0) % u32_mod)
                a.same_ftl)
          total a.few few1

    pages :
        (i v pg : ℕ)
        → i < num_chips
        → g2.gcm.vic_blks i ≡ some v
        → pg < num_pages_per_block
        → PageCounted g.ftl.ssd v pg
    pages zero v pg k e l = a.counted v pg (sym vic0 ∙ e) l
    pages (suc zero) v pg k e l =
        subst (λ (t : Ftl). PageCounted t.ssd v pg) a.same_ftl (b.counted v pg (sym vic1 ∙ e) l)
    pages (suc (suc i)) v pg k e l = absurd (omega (arith, k))

-- If the counters of all used and dirty blocks are right, and none is to be copied yet, then
-- `set_vic_blks`, if it succeeds, chooses victims whose counters are right, and its sum of these is the
-- number of the valid logical pages in the victims, for which the arrays have room.
pub set_vic_blks-Targeted :
    (g : GcState) → g.gcm.nr_pgs_to_copy ≡ 0 → AllCounted g.ftl.ssd → Targeted g (set_vic_blks g)
unfolding set_vic_blks
set_vic_blks-Targeted g z all =
    first (choose_vic_blk 0 0 g) (choose_vic_blk-Choice 0 g (omega arith) (omega (arith, z)) all)
  where
    second :
        (g1 : GcState) (o : Option ℕ) (r : Status × GcState)
        → Chosen g g1 0 o
        → Choice g1 1 r
        → Targeted g (on_success (each_chip choose_vic_blk []) r)
    second g1 o (error, g2) a c = tt
    second g1 o (success, g2) a (o1, b) = both-Chosen g g1 g2 o o1 z a b

    first :
        (r : Status × GcState)
        → Choice g 0 r
        → Targeted g (on_success (each_chip choose_vic_blk ((0, 1) ∷ [])) r)
    first (error, g1) c = tt
    first (success, g1) (o, a) = second g1 o (choose_vic_blk 0 1 g1) a (
        choose_vic_blk-Choice 1 g1 (omega arith) (omega (arith, a.goal))
          (subst (λ (t : Ftl). AllCounted t.ssd) (sym a.same_ftl) all))
