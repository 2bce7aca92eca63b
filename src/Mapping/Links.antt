-- ===== src/Mapping/Links.antt =====
-- The table and the blocks agree: where an address is mapped, the logical page there is valid and bears
-- that address.
use Prim.Native.Nat.{bit_and}
use flashbench.Common.{
  ℕ, ◌≡◌, ◌≢◌, refl, sym, ap, subst, ◌∙◌, true, ◌&&◌, arith, ◌==◌, if◌then◌else◌, update,
  update_self, update_ne, ℕ_discrete, Bool-cases, inl, inr, if_eq, if_ne,
}
use flashbench.Config.{page_unmapped, shr, lp_page_shift, lp_page_mask, nr_lp_in_pp}
use flashbench.Address.{Layout, convert_to_ssd_layout}
use flashbench.Ut.{Ut}
use flashbench.Ssd.{SsdInfo, PageStatus, page_status_valid, page_status_invalid, get_block_info}
use flashbench.Mapping.{
  Ftl, invalidate_slot, invalidate_lpg, retire_page, set_mapped_ppa, get_mapped_ppa,
}
use flashbench.Mapping.Slots.{
  status_at, lpa_at, Quiet, if-Quiet, invalidate_slot_status, invalidate_slot_lpa,
  retire_page-Quiet,
}

-- The block, the page and the offset of the logical page at a physical address.
abbrev pub block_of : ℕ → ℕ
block_of ppa = let l = convert_to_ssd_layout ppa in get_block_info l.bus l.chip l.block

abbrev pub page_of : ℕ → ℕ
page_of ppa = shr (convert_to_ssd_layout ppa).page lp_page_shift

abbrev pub offset_of : ℕ → ℕ
offset_of ppa = bit_and (convert_to_ssd_layout ppa).page lp_page_mask

abbrev pub status_of : SsdInfo → ℕ → PageStatus
status_of s ppa = status_at s (block_of ppa) (page_of ppa) (offset_of ppa)

abbrev pub lpa_of : SsdInfo → ℕ → ℕ
lpa_of s ppa = lpa_at s (block_of ppa) (page_of ppa) (offset_of ppa)

pub record IsLinked (ftl : Ftl) : Type 0 where
  pub valid :
      (k : ℕ)
      → ftl.mappings k ≢ page_unmapped
      → status_of ftl.ssd (ftl.mappings k) ≡ page_status_valid
  pub back : (k : ℕ) → ftl.mappings k ≢ page_unmapped → lpa_of ftl.ssd (ftl.mappings k) ≡ k

-- What `invalidate_lpg` does for a mapped address.
pub record Invalidated (ftl : Ftl) (lpa : ℕ) (ftl' : Ftl) : Type 0 where
  pub table : ftl'.mappings ≡ update ftl.mappings lpa page_unmapped
  pub lpas : (c q o : ℕ) → lpa_at ftl'.ssd c q o ≡ lpa_at ftl.ssd c q o
  pub statuses :
      (c q o : ℕ)
      → status_at ftl'.ssd c q o ≡ (
          if block_of (ftl.mappings lpa) == c
            && (page_of (ftl.mappings lpa) == q && offset_of (ftl.mappings lpa) == o)
          then page_status_invalid
          else status_at ftl.ssd c q o)

-- The state behind the marking of the logical page of `lpa`.
abbrev marked : Ftl → ℕ → Ftl
marked ftl lpa =
    let ppa = ftl.mappings lpa in
    record ftl { ssd = invalidate_slot ftl.ssd (block_of ppa) (page_of ppa) (offset_of ppa) }

Quiet-Invalidated :
    (ftl : Ftl) (lpa : ℕ) (x : Ftl)
    → Quiet (marked ftl lpa) x
    → Invalidated ftl lpa (set_mapped_ppa x lpa page_unmapped)
unfolding set_mapped_ppa
Quiet-Invalidated ftl lpa x quiet = record {
  table = ap (λ t. update t lpa page_unmapped) quiet.1;
  lpas = λ c q o.
      ap (λ pages. (pages q).no_logical_page_addr o) (quiet.0 c)
      ∙ invalidate_slot_lpa ftl.ssd (block_of ppa) (page_of ppa) (offset_of ppa) c q o;
  statuses = λ c q o.
      ap (λ pages. (pages q).page_status o) (quiet.0 c)
      ∙ invalidate_slot_status ftl.ssd (block_of ppa) (page_of ppa) (offset_of ppa) c q o;
}
  where
    ppa : ℕ
    ppa = ftl.mappings lpa

-- The same logical page bears one address.
same_slot :
    (s : SsdInfo) (b c pg q ofs o : ℕ)
    → (b == c && (pg == q && ofs == o)) ≡ true
    → lpa_at s b pg ofs ≡ lpa_at s c q o
same_slot s b c pg q ofs o e = ground (
  arith,
  ap (λ i. lpa_at s i pg ofs) {x = b} {y = c},
  ap (λ i. lpa_at s c i ofs) {x = pg} {y = q},
  ap (λ i. lpa_at s c q i) {x = ofs} {y = o},
)

-- A change at one logical page is none at another, that bears another address.
not_here :
    (s : SsdInfo) (ppa ppa' : ℕ) (st : PageStatus)
    → lpa_of s ppa ≢ lpa_of s ppa'
    → (if block_of ppa == block_of ppa'
          && (page_of ppa == page_of ppa' && offset_of ppa == offset_of ppa')
        then st
        else status_of s ppa')
      ≡ status_of s ppa'
not_here s ppa ppa' st ne =
    elim (Bool-cases (
      block_of ppa == block_of ppa'
      && (page_of ppa == page_of ppa' && offset_of ppa == offset_of ppa'))) [
        | inl e ↦ absurd (
            ne (
              same_slot s (block_of ppa) (block_of ppa') (page_of ppa) (page_of ppa')
                (offset_of ppa) (offset_of ppa') e))
        | inr e ↦ ap (λ t. if t then st else status_of s ppa') e
      ]

Invalidated-IsLinked :
    {ftl ftl' : Ftl} {lpa : ℕ}
    → ftl.mappings lpa ≢ page_unmapped
    → IsLinked ftl
    → Invalidated ftl lpa ftl'
    → IsLinked ftl'
Invalidated-IsLinked {ftl} {ftl'} {lpa} mapped l i = record {
  valid = λ k h.
      ap (status_of ftl'.ssd) (kept k (apart k h))
      ∙ i.statuses (block_of (ftl.mappings k)) (page_of (ftl.mappings k))
          (offset_of (ftl.mappings k))
      ∙ not_marked k (apart k h) (still k h)
      ∙ l.valid k (still k h);
  back = λ k h.
      ap (lpa_of ftl'.ssd) (kept k (apart k h))
      ∙ i.lpas (block_of (ftl.mappings k)) (page_of (ftl.mappings k)) (offset_of (ftl.mappings k))
      ∙ l.back k (still k h);
}
  where
    kept : (k : ℕ) → lpa ≢ k → ftl'.mappings k ≡ ftl.mappings k
    kept k ne = ap (λ t. t k) i.table ∙ update_ne ftl.mappings page_unmapped ne

    apart : (k : ℕ) → ftl'.mappings k ≢ page_unmapped → lpa ≢ k
    apart k h e = h (
        ap (λ t. t k) i.table
        ∙ ap (update ftl.mappings lpa page_unmapped) (sym e)
        ∙ update_self ftl.mappings lpa page_unmapped)

    still : (k : ℕ) → ftl'.mappings k ≢ page_unmapped → ftl.mappings k ≢ page_unmapped
    still k h e = h (kept k (apart k h) ∙ e)

    not_marked :
        (k : ℕ)
        → lpa ≢ k
        → ftl.mappings k ≢ page_unmapped
        → (if block_of (ftl.mappings lpa) == block_of (ftl.mappings k)
              && (page_of (ftl.mappings lpa) == page_of (ftl.mappings k)
                  && offset_of (ftl.mappings lpa) == offset_of (ftl.mappings k))
            then page_status_invalid
            else status_of ftl.ssd (ftl.mappings k))
          ≡ status_of ftl.ssd (ftl.mappings k)
    not_marked k ne h =
        not_here ftl.ssd (ftl.mappings lpa) (ftl.mappings k) page_status_invalid
          (λ e. ne (sym (l.back lpa mapped) ∙ e ∙ l.back k h))

module _ (ut : Ut) where
  pub invalidate_lpg_unmapped :
      (ftl : Ftl) (lpa : ℕ)
      → ftl.mappings lpa ≡ page_unmapped
      → invalidate_lpg ut ftl lpa ≡ (page_unmapped, ftl)
  unfolding invalidate_lpg get_mapped_ppa
  invalidate_lpg_unmapped ftl lpa e = if_eq _ _ e ∙ ap (λ p. (p, ftl)) e

  invalidate_lpg_ppa :
      (ftl : Ftl) (lpa : ℕ)
      → ftl.mappings lpa ≢ page_unmapped
      → (invalidate_lpg ut ftl lpa).0 ≡ ftl.mappings lpa
  unfolding invalidate_lpg get_mapped_ppa
  invalidate_lpg_ppa ftl lpa ne = ap (λ (r : ℕ × Ftl). r.0) (if_ne (ftl.mappings lpa, ftl) _ ne)

  pub invalidate_lpg-Invalidated :
      (ftl : Ftl) (lpa : ℕ)
      → ftl.mappings lpa ≢ page_unmapped
      → Invalidated ftl lpa (invalidate_lpg ut ftl lpa).1
  unfolding invalidate_lpg get_mapped_ppa
  invalidate_lpg-Invalidated ftl lpa ne =
      subst (λ (r : ℕ × Ftl). Invalidated ftl lpa r.1) (sym (if_ne (ftl.mappings lpa, ftl) _ ne))
        (Quiet-Invalidated ftl lpa _ (
          if-Quiet
            ((((marked ftl lpa).ssd.block_at (block_of ppa)).list_pages
                (page_of ppa)).nr_invalid_log_pages
              == nr_lp_in_pp)
            (marked ftl lpa) (retire_page ut (marked ftl lpa) l.bus l.chip (block_of ppa))
            (marked ftl lpa) (retire_page-Quiet ut (marked ftl lpa) l.bus l.chip (block_of ppa))
            ((λ c. refl), refl)))
    where
      ppa : ℕ
      ppa = ftl.mappings lpa

      l : Layout
      l = convert_to_ssd_layout ppa

  -- `invalidate_lpg` answers the physical address that the logical address was mapped to. Behind it
  -- the logical address is unmapped, all others are mapped as before, and the table and the blocks
  -- agree if they did before.
  pub invalidate_lpg-IsLinked :
      (ftl : Ftl) (lpa : ℕ)
      → IsLinked ftl
      → ((invalidate_lpg ut ftl lpa).0 ≡ ftl.mappings lpa)
        × ((k : ℕ)
            → (invalidate_lpg ut ftl lpa).1.mappings k
              ≡ (if lpa == k then page_unmapped else ftl.mappings k))
        × IsLinked (invalidate_lpg ut ftl lpa).1
  invalidate_lpg-IsLinked ftl lpa l = elim (ℕ_discrete (ftl.mappings lpa) page_unmapped) [
    | yes e ↦
        subst
          (λ (r : ℕ × Ftl).
            (r.0 ≡ ftl.mappings lpa)
            × ((k : ℕ) → r.1.mappings k ≡ (if lpa == k then page_unmapped else ftl.mappings k))
            × IsLinked r.1)
          (sym (invalidate_lpg_unmapped ftl lpa e)) (sym e, (λ k. unmapped k e), l)
    | no ne ↦ (
      invalidate_lpg_ppa ftl lpa ne,
      (λ k. ap (λ t. t k) (invalidate_lpg-Invalidated ftl lpa ne).table),
      Invalidated-IsLinked ne l (invalidate_lpg-Invalidated ftl lpa ne),
    )
  ]
    where
      unmapped :
          (k : ℕ)
          → ftl.mappings lpa ≡ page_unmapped
          → ftl.mappings k ≡ (if lpa == k then page_unmapped else ftl.mappings k)
      unmapped k e = ground (arith, e, ap ftl.mappings {x = lpa} {y = k})
