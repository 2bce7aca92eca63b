-- ===== src/Ssd/Setup/Lists.antt =====
-- The blocks of a new description and the lists of its chips.
use flashbench.Common.{
  ℕ, zero, suc, ◌≤◌, ◌<◌, ◌≡◌, ◌≢◌, refl, sym, ap, ap₂, subst, ◌∙◌, List, [], ◌∷◌, ◌++◌, arith,
  update, update_self, update_ne, ℕ_discrete,
}
use flashbench.Common.Counts.{count, count-snoc, same_ne}
use flashbench.Config.{num_buses, num_chips_per_bus, num_blocks_per_chip, add_u32}
use flashbench.Ut.{Ut}
use flashbench.Ssd.{SsdInfo, FlashBlock, FlashChip, FlashPage, get_block_info, set_free_blk}
use flashbench.Ssd.Setup.{init_block, new_chip, init_blocks, init_chips, init_buses}

-- The first `n` blocks of a chip, in order.
abbrev pub blocks_of : ℕ → ℕ → ℕ → List ℕ
blocks_of bus chip zero = []
blocks_of bus chip (suc n) = blocks_of bus chip n ++ get_block_info bus chip n ∷ []

-- A chip whose first `n` blocks are free.
abbrev pub chip_of : ℕ → ℕ → ℕ → FlashChip
chip_of bus chip n = record new_chip { nr_free_blocks = n; free_blks = blocks_of bus chip n }

get_block_info_ne :
    (bus chip i j : ℕ) → i < j → get_block_info bus chip i ≢ get_block_info bus chip j
unfolding get_block_info
get_block_info_ne bus chip i j h e = omega (arith, h, e)

get_block_info_chip_ne :
    (bus chip chip' i j : ℕ)
    → chip < chip'
    → i < num_blocks_per_chip
    → get_block_info bus chip i ≢ get_block_info bus chip' j
unfolding get_block_info
get_block_info_chip_ne bus chip chip' i j h k e = omega (arith, h, k, e)

count-blocks_of :
    (bus chip n j : ℕ) → n ≤ j → count (get_block_info bus chip j) (blocks_of bus chip n) ≡ 0
count-blocks_of bus chip zero j h = refl
count-blocks_of bus chip (suc n) j h = omega (
  arith,
  count-snoc (get_block_info bus chip j) (get_block_info bus chip n) (blocks_of bus chip n),
  count-blocks_of bus chip n j (omega arith),
  same_ne (get_block_info_ne bus chip n j (omega arith)),
)

module _ (ut : Ut) where
  open ut use {dl_append, dl_append_lem}

  -- What the chip of a block becomes when the block is set free.
  abbrev freed : FlashChip → ℕ → FlashChip
  freed ci b = record ci {
    free_blks = dl_append ci.free_blks b;
    nr_free_blocks = add_u32 ci.nr_free_blocks 1;
  }

  set_free_blk_at :
      (s : SsdInfo) (b bus chip : ℕ)
      → (s.block_at b).no_bus ≡ bus
      → (s.block_at b).no_chip ≡ chip
      → set_free_blk ut s b ≡ record s {
        chip_at = update s.chip_at bus (update (s.chip_at bus) chip (freed (s.chip_at bus chip) b));
      }
  unfolding set_free_blk
  set_free_blk_at s b bus chip e e' =
      ap₂
        (λ x y. record s {
          chip_at = update s.chip_at x (update (s.chip_at x) y (freed (s.chip_at x y) b));
        })
        e e'

  freed-chip_of :
      (bus chip n : ℕ)
      → n < num_blocks_per_chip
      → freed (chip_of bus chip n) (get_block_info bus chip n) ≡ chip_of bus chip (suc n)
  freed-chip_of bus chip n h =
      ap₂ (λ l k. record new_chip { free_blks = l; nr_free_blocks = k })
        (dl_append_lem (blocks_of bus chip n) (get_block_info bus chip n)
          (count-blocks_of bus chip n n (omega arith)))
        (omega arith)

  module _ (junk : ℕ → FlashPage) where
    -- What the loop over the first `n` blocks of a chip makes of `s`.
    record Inited (n bus chip : ℕ) (s s' : SsdInfo) : Type 0 where
      pub chip_lem : s'.chip_at bus chip ≡ chip_of bus chip n
      pub block_lem :
          (i : ℕ) → i < n → s'.block_at (get_block_info bus chip i) ≡ init_block junk bus chip i
      pub other_chip : (chip' : ℕ) → chip ≢ chip' → s'.chip_at bus chip' ≡ s.chip_at bus chip'
      pub other_block :
          (q : ℕ) → ((i : ℕ) → i < n → get_block_info bus chip i ≢ q) → s'.block_at q ≡ s.block_at q

    -- The block of the loop's next round.
    abbrev with_block : ℕ → ℕ → ℕ → SsdInfo → SsdInfo
    with_block n bus chip s = record s {
      block_at = update s.block_at (get_block_info bus chip n) (init_block junk bus chip n);
    }

    Inited-step :
        (n bus chip : ℕ) (s s' : SsdInfo)
        → n < num_blocks_per_chip
        → Inited n bus chip s s'
        → Inited
            (suc n)
            bus
            chip
            s
            (set_free_blk ut (with_block n bus chip s') (get_block_info bus chip n))
    unfolding init_block
    Inited-step n bus chip s s' h r =
        subst (Inited (suc n) bus chip s)
          (sym (
            set_free_blk_at (with_block n bus chip s') b bus chip
              (ap (λ (blki : FlashBlock). blki.no_bus) new)
              (ap (λ (blki : FlashBlock). blki.no_chip) new)))
          (record {
            chip_lem =
                ap (λ f. f chip) (update_self s'.chip_at bus row)
                ∙ update_self (s'.chip_at bus) chip ci
                ∙ ap (λ c. freed c b) r.chip_lem
                ∙ freed-chip_of bus chip n h;
            block_lem = λ i k. elim (ℕ_discrete n i) [
              | yes e ↦
                  subst
                    (λ j.
                      update s'.block_at b (init_block junk bus chip n) (get_block_info bus chip j)
                      ≡ init_block junk bus chip j)
                    e new
              | no ne ↦
                  update_ne s'.block_at _
                    (λ e. get_block_info_ne bus chip i n (omega arith) (sym e))
                  ∙ r.block_lem i (omega arith)
            ];
            other_chip = λ chip' ne.
                ap (λ f. f chip') (update_self s'.chip_at bus row)
                ∙ update_ne (s'.chip_at bus) ci ne
                ∙ r.other_chip chip' ne;
            other_block = λ q ne.
                update_ne s'.block_at _ (ne n (omega arith))
                ∙ r.other_block q (λ i k. ne i (omega arith));
          })
      where
        b : ℕ
        b = get_block_info bus chip n

        ci : FlashChip
        ci = freed (s'.chip_at bus chip) b

        row : ℕ → FlashChip
        row = update (s'.chip_at bus) chip ci

        new : update s'.block_at b (init_block junk bus chip n) b ≡ init_block junk bus chip n
        new = update_self s'.block_at b (init_block junk bus chip n)

    init_blocks-Inited :
        (n bus chip : ℕ) (s : SsdInfo)
        → n ≤ num_blocks_per_chip
        → s.chip_at bus chip ≡ new_chip
        → Inited n bus chip s (init_blocks ut junk n bus chip s)
    unfolding init_blocks
    init_blocks-Inited zero bus chip s h e = record {
      chip_lem = e;
      block_lem = λ i k. absurd (omega arith);
      other_chip = λ chip' ne. refl;
      other_block = λ q ne. refl;
    }
    init_blocks-Inited (suc n) bus chip s h e =
        Inited-step n bus chip s (init_blocks ut junk n bus chip s) (omega arith)
          (init_blocks-Inited n bus chip s (omega arith) e)

    -- The first `n` chips of a bus have all their blocks.
    abbrev Ready : ℕ → ℕ → SsdInfo → Type 0
    Ready n bus s =
        (chip : ℕ)
        → chip < n
        → (s.chip_at bus chip ≡ chip_of bus chip num_blocks_per_chip)
          × ((i : ℕ)
              → i < num_blocks_per_chip
              → s.block_at (get_block_info bus chip i) ≡ init_block junk bus chip i)

    Ready-step :
        (n bus : ℕ) (s s' : SsdInfo)
        → Ready n bus s
        → Inited num_blocks_per_chip bus n
            (record s { chip_at = update s.chip_at bus (update (s.chip_at bus) n new_chip) })
            s'
        → Ready (suc n) bus s'
    Ready-step n bus s s' ready r chip h = elim (ℕ_discrete n chip) [
      | yes e ↦
          subst
            (λ c.
              (s'.chip_at bus c ≡ chip_of bus c num_blocks_per_chip)
              × ((i : ℕ)
                  → i < num_blocks_per_chip
                  → s'.block_at (get_block_info bus c i) ≡ init_block junk bus c i))
            e (r.chip_lem, r.block_lem)
      | no ne ↦ (
        r.other_chip chip ne
            ∙ ap (λ f. f chip) (update_self s.chip_at bus _)
            ∙ update_ne (s.chip_at bus) new_chip ne
            ∙ (ready chip (omega arith)).0,
        (λ i k.
            r.other_block (get_block_info bus chip i)
              (λ j k' e. get_block_info_chip_ne bus chip n i j (omega arith) k (sym e))
            ∙ (ready chip (omega arith)).1 i k),
      )
    ]

    init_chips-Ready : (n bus : ℕ) (s : SsdInfo) → Ready n bus (init_chips ut junk n bus s)
    unfolding init_chips
    init_chips-Ready zero bus s = λ chip h. absurd (omega arith)
    init_chips-Ready (suc n) bus s =
        Ready-step n bus (init_chips ut junk n bus s) (init_chips ut junk (suc n) bus s)
          (init_chips-Ready n bus s)
          (init_blocks-Inited num_blocks_per_chip bus n _ (omega arith) (
            ap (λ f. f n) (update_self (init_chips ut junk n bus s).chip_at bus _)
            ∙ update_self ((init_chips ut junk n bus s).chip_at bus) n new_chip))

    -- Behind the loops of `create_ssd_info` every chip's list of free blocks holds all of its blocks
    -- in order and no other list of it holds any, its counters agree, and each block is as a new
    -- block of its place, whatever the arrays held before.
    pub init_buses_lem :
        (s : SsdInfo) (bus chip : ℕ)
        → bus < num_buses
        → chip < num_chips_per_bus
        → ((init_buses ut junk num_buses s).chip_at bus chip ≡ chip_of bus chip num_blocks_per_chip)
          × ((i : ℕ)
              → i < num_blocks_per_chip
              → (init_buses ut junk num_buses s).block_at (get_block_info bus chip i)
                ≡ init_block junk bus chip i)
    unfolding init_buses
    init_buses_lem s zero chip h k = init_chips-Ready num_chips_per_bus 0 s chip k
    init_buses_lem s (suc bus) chip h k = absurd (omega arith)
