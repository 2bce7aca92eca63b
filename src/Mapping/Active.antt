-- ===== src/Mapping/Active.antt =====
-- The active blocks: which functions leave them alone, and that those that use one find it.
use flashbench.Common.{
  if_elim, opt_elim, ℕ, zero, suc, ◌+◌, ◌≡◌, refl, ◌∙◌, Bool, false, Option, none, some,
  update_self, Option-cases, inl, inr, ◌==◌, if◌then◌else◌,
}
use Prim.Native.Nat.{bit_and}
use flashbench.Address.{Layout, convert_to_ssd_layout}
use flashbench.Config.{shr, lp_page_shift, lp_page_mask, nr_lp_in_pp, page_unmapped}
use flashbench.Ut.{Ut}
use flashbench.Ssd.{
  SsdInfo, get_block_info, set_used_blk, reset_free_blk, on_block, set_act_blk_flag, get_free_block,
}
use flashbench.Mapping.{
  invalidate_slot, get_mapped_ppa, Ftl, chip_index, set_mapped_ppa, get_curr_gc_block,
  get_curr_active_block, set_curr_gc_block, set_curr_active_block, retire_block, retire_page,
  invalidate_lpg, fill_slot, skip_slot, finish_slot, map_logical_page, map_logical_pages,
  alloc_new_page, update_act_blk,
}

module _ (ut : Ut) where
  -- Mapping and invalidation leave the active blocks alone.
  act_blks-retire_block :
      (ftl : Ftl) (bus chip b : ℕ) → (retire_block ut ftl bus chip b).act_blks ≡ ftl.act_blks
  unfolding retire_block set_curr_gc_block get_curr_gc_block
  act_blks-retire_block ftl bus chip b = elim (Option-cases (ftl.gc_blks (chip_index bus chip))) [
    | inl e ↦ rw (retire_block, e) refl
    | inr (c, e) ↦ rw (retire_block, e) refl
  ]

  act_blks-retire_page :
      (ftl : Ftl) (bus chip b : ℕ) → (retire_page ut ftl bus chip b).act_blks ≡ ftl.act_blks
  unfolding retire_page
  act_blks-retire_page ftl bus chip b =
      if_elim (λ (r : Ftl). r.act_blks ≡ ftl.act_blks) _ _ _ (act_blks-retire_block _ bus chip b)
        refl

  act_blks-invalidate_lpg :
      (ftl : Ftl) (lpa : ℕ) → (invalidate_lpg ut ftl lpa).1.act_blks ≡ ftl.act_blks
  unfolding invalidate_lpg set_mapped_ppa
  act_blks-invalidate_lpg ftl lpa =
      if_elim (λ (r : ℕ × Ftl). r.1.act_blks ≡ ftl.act_blks) (ppa == page_unmapped) (ppa, ftl)
        (ppa, set_mapped_ppa (if full then retired else ftl') lpa page_unmapped) refl
        (if_elim (λ (r : Ftl). r.act_blks ≡ ftl.act_blks) full retired ftl'
          (act_blks-retire_page ftl' l.bus l.chip b) refl)
    where
      ppa : ℕ
      ppa = get_mapped_ppa ftl lpa

      l : Layout
      l = convert_to_ssd_layout ppa

      b : ℕ
      b = get_block_info l.bus l.chip l.block

      pg : ℕ
      pg = shr l.page lp_page_shift

      ftl' : Ftl
      ftl' = record ftl { ssd = invalidate_slot ftl.ssd b pg (bit_and l.page lp_page_mask) }

      full : Bool
      full = ((ftl'.ssd.block_at b).list_pages pg).nr_invalid_log_pages == nr_lp_in_pp

      retired : Ftl
      retired = retire_page ut ftl' l.bus l.chip b

  act_blks-map_logical_page :
      (ftl : Ftl) (lpa bus chip blk pg lp_ofs : ℕ)
      → (map_logical_page ut ftl lpa bus chip blk pg lp_ofs).act_blks ≡ ftl.act_blks
  unfolding map_logical_page fill_slot skip_slot finish_slot set_mapped_ppa
  act_blks-map_logical_page ftl lpa bus chip blk pg lp_ofs =
      if_elim (λ (r : Ftl). r.act_blks ≡ ftl.act_blks) (lpa == page_unmapped) _ _ refl
        (act_blks-invalidate_lpg ftl lpa)

  pub act_blks-map_logical_pages :
      (n : ℕ) (ftl : Ftl) (lpas : ℕ → ℕ) (bus chip blk pg lp : ℕ)
      → (map_logical_pages ut n ftl lpas bus chip blk pg lp).act_blks ≡ ftl.act_blks
  unfolding map_logical_pages
  act_blks-map_logical_pages zero ftl lpas bus chip blk pg lp = refl
  act_blks-map_logical_pages (suc n) ftl lpas bus chip blk pg lp =
      act_blks-map_logical_pages n (map_logical_page ut ftl (lpas lp) bus chip blk pg lp) lpas bus
        chip blk pg (lp + 1)
      ∙ act_blks-map_logical_page ftl (lpas lp) bus chip blk pg lp

  -- A chip with an active block.
  abbrev pub Active : Ftl → ℕ → ℕ → Type 0
  Active ftl bus chip = (b : ℕ) × (get_curr_active_block ftl bus chip ≡ some b)

  -- The table and the turn are the same.
  abbrev pub SameTable : Ftl → Ftl → Type 0
  SameTable ftl ftl' =
      (ftl'.mappings ≡ ftl.mappings) × (ftl'.mru_bus ≡ ftl.mru_bus) × (ftl'.mru_chip ≡ ftl.mru_chip)

  -- `update_act_blk` of such a chip goes through, and keeps the table and the turn.
  pub update_act_blk-elim {κ} :
      (P : Option Ftl → Type κ) (ftl : Ftl) (bus chip : ℕ)
      → Active ftl bus chip
      → ((ftl' : Ftl) → SameTable ftl ftl' → P (some ftl'))
      → P (update_act_blk ut ftl bus chip)
  unfolding update_act_blk set_curr_active_block
  update_act_blk-elim P ftl bus chip (b, e) f =
      rw (update_act_blk, e)
        (if_elim P ((ftl.ssd.block_at b).nr_free_pages == 0) _ (some ftl)
          (opt_elim P (get_free_block ssd' bus chip)
            (some (set_curr_active_block (record ftl { ssd = ssd' }) bus chip none))
            (λ c. some (
              set_curr_active_block (record ftl { ssd = reset_free_blk ut ssd' c }) bus chip
                (some c)))
            (f _ (refl, refl, refl)) (λ c. f _ (refl, refl, refl)))
          (f ftl (refl, refl, refl)))
    where
      ssd' : SsdInfo
      ssd' = set_used_blk ut (on_block ftl.ssd b (λ blki. set_act_blk_flag blki false)) b

  -- A page of a chip stands in its active block.
  pub alloc_new_page-elim {κ} :
      (P : Option (ℕ × ℕ) × Ftl → Type κ) (ftl : Ftl) (bus chip : ℕ)
      → ((ftl' : Ftl) → P (none, ftl'))
      → ((p : ℕ × ℕ) (ftl' : Ftl) → Active ftl' bus chip → P (some p, ftl'))
      → P (alloc_new_page ut ftl bus chip)
  unfolding alloc_new_page get_curr_active_block set_curr_active_block
  alloc_new_page-elim P ftl bus chip f g =
      elim (Option-cases (ftl.act_blks (chip_index bus chip))) [
        | inr (b, e) ↦ rw (alloc_new_page, e) (g _ ftl (b, e))
        | inl e ↦ elim (Option-cases (get_free_block ftl.ssd bus chip)) [
          | inr (b, e') ↦
              rw (alloc_new_page, e, e')
                (g _ _ (b, update_self ftl.act_blks (chip_index bus chip) (some b)))
          | inl e' ↦ rw (alloc_new_page, e, e') (f ftl)
        ]
      ]
