-- ===== src/Mapping/Table.antt =====
-- The table behind the mapping of the logical pages of a physical page.
use Prim.Native.Nat.{bit_or}
use flashbench.Common.{
  ℕ, zero, suc, ◌+◌, ◌≡◌, ◌≢◌, refl, sym, ap, ◌∙◌, ◌==◌, if◌then◌else◌, update, update_ne,
  ℕ_discrete, if_eq, if_ne,
}
use flashbench.Config.{page_unmapped, shl_u32, lp_page_shift}
use flashbench.Address.{convert_to_physical_address}
use flashbench.Ut.{Ut}
use flashbench.Mapping.{
  Ftl, invalidate_lpg, map_logical_page, map_logical_pages, fill_slot, skip_slot, finish_slot,
  set_mapped_ppa,
}
use flashbench.Mapping.Links.{invalidate_lpg_unmapped, invalidate_lpg-Invalidated}

-- The table in which `lpa` names `ppa`, unless `lpa` stands for no page.
abbrev pub named_page : (ℕ → ℕ) → ℕ → ℕ → ℕ → ℕ
named_page table lpa ppa = if lpa == page_unmapped then table else update table lpa ppa

-- The address of a logical page of a physical page.
abbrev pub ppa_of : (bus chip blk pg lp : ℕ) → ℕ
ppa_of bus chip blk pg lp =
    convert_to_physical_address bus chip blk (bit_or (shl_u32 pg lp_page_shift) lp)

-- The table in which the addresses from number `lp` on name the `n` logical pages from number `lp` on.
abbrev pub named_pages : ℕ → (ℕ → ℕ) → (ℕ → ℕ) → (bus chip blk pg lp : ℕ) → ℕ → ℕ
named_pages zero table lpas bus chip blk pg lp = table
named_pages (suc n) table lpas bus chip blk pg lp =
    named_pages n (named_page table (lpas lp) (ppa_of bus chip blk pg lp)) lpas bus chip blk pg
      (lp + 1)

module _ (ut : Ut) where
  -- Invalidation leaves the other addresses as they are.
  invalidate_lpg-other :
      (ftl : Ftl) (lpa k : ℕ) → lpa ≢ k → (invalidate_lpg ut ftl lpa).1.mappings k ≡ ftl.mappings k
  invalidate_lpg-other ftl lpa k ne = elim (ℕ_discrete (ftl.mappings lpa) page_unmapped) [
    | yes e ↦ ap (λ (r : ℕ × Ftl). r.1.mappings k) (invalidate_lpg_unmapped ut ftl lpa e)
    | no mapped ↦
        ap (λ t. t k) (invalidate_lpg-Invalidated ut ftl lpa mapped).table
        ∙ update_ne ftl.mappings page_unmapped ne
  ]

  over_invalidated :
      (ftl : Ftl) (lpa ppa k : ℕ)
      → Dec (lpa ≡ k)
      → update (invalidate_lpg ut ftl lpa).1.mappings lpa ppa k ≡ update ftl.mappings lpa ppa k
  over_invalidated ftl lpa ppa k (yes e) =
      if_eq ppa ((invalidate_lpg ut ftl lpa).1.mappings k) e ∙ sym (if_eq ppa (ftl.mappings k) e)
  over_invalidated ftl lpa ppa k (no ne) =
      update_ne (invalidate_lpg ut ftl lpa).1.mappings ppa ne
      ∙ invalidate_lpg-other ftl lpa k ne
      ∙ sym (update_ne ftl.mappings ppa ne)

  mappings-map_logical_page :
      (ftl : Ftl) (lpa bus chip blk pg lp : ℕ)
      → (map_logical_page ut ftl lpa bus chip blk pg lp).mappings
        ≡ named_page ftl.mappings lpa (ppa_of bus chip blk pg lp)
  unfolding map_logical_page fill_slot skip_slot finish_slot set_mapped_ppa
  mappings-map_logical_page ftl lpa bus chip blk pg lp = elim (ℕ_discrete lpa page_unmapped) [
    | yes e ↦ ap (λ (y : Ftl). y.mappings) (if_eq _ _ e) ∙ sym (if_eq _ _ e)
    | no ne ↦
        ap (λ (y : Ftl). y.mappings) (if_ne _ _ ne)
        ∙ (λ i k. over_invalidated ftl lpa (ppa_of bus chip blk pg lp) k (ℕ_discrete lpa k) i)
        ∙ sym (if_ne _ _ ne)
  ]

  pub mappings-map_logical_pages :
      (n : ℕ) (ftl : Ftl) (lpas : ℕ → ℕ) (bus chip blk pg lp : ℕ)
      → (map_logical_pages ut n ftl lpas bus chip blk pg lp).mappings
        ≡ named_pages n ftl.mappings lpas bus chip blk pg lp
  unfolding map_logical_pages
  mappings-map_logical_pages zero ftl lpas bus chip blk pg lp = refl
  mappings-map_logical_pages (suc n) ftl lpas bus chip blk pg lp =
      mappings-map_logical_pages n (map_logical_page ut ftl (lpas lp) bus chip blk pg lp) lpas bus
        chip blk pg (lp + 1)
      ∙ ap (λ table. named_pages n table lpas bus chip blk pg (lp + 1))
          (mappings-map_logical_page ftl (lpas lp) bus chip blk pg lp)
