-- ===== src/Mapping/Setup/Start.antt =====
-- The mapping table and the manager of the active blocks behind their making.
use flashbench.Common.{
  ℕ, zero, suc, ◌-◌, ◌<◌, ◌≡◌, ◌≢◌, refl, ap, subst, ◌∙◌, true, Option, none, some, List, [], ◌∷◌,
  ◌++◌, arith, head, update, update_self, update_ne, ℕ_discrete,
}
use flashbench.Config.{num_buses, num_chips_per_bus, page_unmapped}
use flashbench.Memory.{Mem, to, kmalloc}
use flashbench.Memory.Holds.{on_result-elim}
use flashbench.Ut.{Ut}
use flashbench.Ssd.{
  SsdInfo, FlashBlock, FlashChip, FlashPage, get_block_info, get_free_block, reset_free_blk,
  set_act_blk_flag, on_block,
}
use flashbench.Ssd.Setup.{init_block, init_buses}
use flashbench.Ssd.Setup.Lists.{blocks_of, init_buses_lem}
use flashbench.Mapping.{chip_index}
use flashbench.Mapping.Setup.{
  MtObj, unmap_entries, nr_mappings, create_page_mapping_table, chips_in_order, take_act_blks,
  create_act_blk_mngr,
}

unmap_entries_lem :
    (n : ℕ) (mappings : ℕ → ℕ) (i : ℕ) → i < n → unmap_entries n mappings i ≡ page_unmapped
unfolding unmap_entries
unmap_entries_lem zero mappings i h = absurd (omega arith)
unmap_entries_lem (suc n) mappings i h = elim (ℕ_discrete n i) [
  | yes e ↦
      subst (λ j. update (unmap_entries n mappings) n page_unmapped j ≡ page_unmapped) e
        (update_self (unmap_entries n mappings) n page_unmapped)
  | no ne ↦
      update_ne (unmap_entries n mappings) page_unmapped ne
      ∙ unmap_entries_lem n mappings i (omega arith)
]

abbrev Unmapped : Option MtObj × Mem → Type 0
Unmapped (none, m) = Unit
Unmapped (some mt, m) = (i : ℕ) → i < mt.nr_entries → mt.mappings i ≡ page_unmapped

create_page_mapping_table-Unmapped :
    (junk : ℕ → ℕ) (m : Mem) → Unmapped (create_page_mapping_table junk m)
unfolding create_page_mapping_table
create_page_mapping_table-Unmapped junk m =
    on_result-elim Unmapped (kmalloc m) (λ m1. tt)
      (λ p m1.
        on_result-elim Unmapped (kmalloc m1) (λ m2. tt)
          (λ a m2 i h. unmap_entries_lem nr_mappings junk i h))

-- In a table that could be made no entry is mapped, whatever its memory held before.
pub create_page_mapping_table_unmapped :
    (junk : ℕ → ℕ) (m m' : Mem) (mt : MtObj) (i : ℕ)
    → create_page_mapping_table junk m ≡ (some mt, m')
    → i < mt.nr_entries
    → mt.mappings i ≡ page_unmapped
create_page_mapping_table_unmapped junk m m' mt i e h =
    subst Unmapped e (create_page_mapping_table-Unmapped junk m) i h

head-append : (l l' : List ℕ) (x : ℕ) → head l ≡ some x → head (l ++ l') ≡ some x
head-append [] l' x h = absurd (cc)
head-append (y ∷ l) l' x h = h

head-blocks_of :
    (bus chip n : ℕ) → head (blocks_of bus chip (suc n)) ≡ some (get_block_info bus chip 0)
head-blocks_of bus chip zero = refl
head-blocks_of bus chip (suc n) =
    head-append (blocks_of bus chip (suc n)) (get_block_info bus chip (suc n) ∷ [])
      (get_block_info bus chip 0) (head-blocks_of bus chip n)

module _ (ut : Ut) where
  -- The blocks behind one round.
  abbrev took : SsdInfo → ℕ → SsdInfo
  took s b = on_block (reset_free_blk ut s b) b (λ blki. set_act_blk_flag blki true)

  take_act_blks-step :
      (bus chip : ℕ) (chips : List (ℕ × ℕ)) (act_blks : ℕ → Option ℕ) (s : SsdInfo) (b : ℕ)
      → get_free_block s bus chip ≡ some b
      → take_act_blks ut ((bus, chip) ∷ chips) act_blks s
        ≡ take_act_blks ut chips (update act_blks (chip_index bus chip) (some b)) (took s b)
  unfolding take_act_blks
  take_act_blks-step bus chip chips act_blks s b e = rw (take_act_blks, e) refl

  -- The chips that the block is not on are as before.
  get_free_block-took :
      (s : SsdInfo) (b bus chip chip' : ℕ)
      → (s.block_at b).no_bus ≡ bus
      → (s.block_at b).no_chip ≡ chip
      → chip < chip'
      → get_free_block (took s b) bus chip' ≡ get_free_block s bus chip'
  unfolding get_free_block reset_free_blk
  get_free_block-took s b bus chip chip' e e' h =
      subst (λ x. get_free_block (took s b) x chip' ≡ get_free_block s x chip') e
        (ap (λ f. head (f chip').free_blks) (update_self s.chip_at (s.block_at b).no_bus _)
          ∙ ap (λ (ci : FlashChip). head ci.free_blks)
              (update_ne (s.chip_at (s.block_at b).no_bus) _ (λ e''. ne e'')))
    where
      ne : (s.block_at b).no_chip ≢ chip'
      ne = ground arith

  module _ (junk : ℕ → FlashPage) (wild : SsdInfo) where
    abbrev pub new_ssd : SsdInfo
    new_ssd = init_buses ut junk num_buses wild

    abbrev pub first : ℕ → ℕ
    first chip = get_block_info 0 chip 0

    first_free :
        (chip : ℕ) → chip < num_chips_per_bus → get_free_block new_ssd 0 chip ≡ some (first chip)
    unfolding get_free_block
    first_free chip h =
        ap (λ (ci : FlashChip). head ci.free_blks)
          (init_buses_lem ut junk wild 0 chip (omega arith) h).0
        ∙ head-blocks_of 0 chip 170

    first_place : (new_ssd.block_at (first 0)).no_bus ≡ 0
    unfolding init_block
    first_place =
        ap (λ (blki : FlashBlock). blki.no_bus)
          ((init_buses_lem ut junk wild 0 0 (omega arith) (omega arith)).1 0 (omega arith))

    first_chip : (new_ssd.block_at (first 0)).no_chip ≡ 0
    unfolding init_block
    first_chip =
        ap (λ (blki : FlashBlock). blki.no_chip)
          ((init_buses_lem ut junk wild 0 0 (omega arith) (omega arith)).1 0 (omega arith))

    abbrev pub first_blks : ℕ → Option ℕ
    first_blks = update (update (λ i. none) 0 (some (first 0))) 1 (some (first 1))

    take_act_blks-init_buses :
        take_act_blks ut chips_in_order (λ i. none) new_ssd
        ≡ (true, first_blks, took (took new_ssd (first 0)) (first 1))
    unfolding take_act_blks
    take_act_blks-init_buses =
        take_act_blks-step 0 0 ((0, 1) ∷ []) (λ i. none) new_ssd (first 0)
          (first_free 0 (omega arith))
        ∙ take_act_blks-step 0 1 [] (update (λ i. none) 0 (some (first 0))) (took new_ssd (first 0))
            (first 1)
            (get_free_block-took new_ssd (first 0) 0 0 1 first_place first_chip (omega arith)
              ∙ first_free 1 (omega arith))

    -- On a new device, if both allocations are granted, `create_act_blk_mngr` makes a manager whose
    -- active block is, for each chip, the first of the chip, and which gives its first turn to the
    -- first chip of the first bus.
    pub create_act_blk_mngr-init_buses :
        (m m1 m2 : Mem) (p a : ℕ)
        → kmalloc m ≡ (some p, m1)
        → kmalloc m1 ≡ (some a, m2)
        → (create_act_blk_mngr ut new_ssd m).0 ≡ (
          some (record {
            self = p;
            act_blks_at = to a;
            act_blks = first_blks;
            mru_bus = num_buses - 1;
            mru_chip = num_chips_per_bus - 1;
          }),
          m2,
        )
    unfolding create_act_blk_mngr
    create_act_blk_mngr-init_buses m m1 m2 p a e e' = rw (e, e', take_act_blks-init_buses) refl
