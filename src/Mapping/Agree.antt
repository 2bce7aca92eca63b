-- ===== src/Mapping/Agree.antt =====
-- The table and the blocks agree behind the mapping of a logical page.
use flashbench.Common.{
  ℕ, ◌+◌, ◌*◌, ◌≡◌, ◌≢◌, sym, ap, subst, ◌∙◌, Bool, true, false, ◌&&◌, arith, ◌==◌, if◌then◌else◌,
  update, update_self, update_ne, ℕ_discrete, Bool-cases, inl, inr, if_ne,
}
use flashbench.Config.{page_unmapped}
use flashbench.Address.{convert_to_ssd_layout}
use flashbench.Ut.{Ut}
use flashbench.Ssd.{SsdInfo, page_status_valid, page_status_invalid, get_block_info}
use flashbench.Mapping.{Ftl, invalidate_lpg, map_logical_page, finish_slot}
use flashbench.Mapping.Slots.{status_at, lpa_at}
use flashbench.Mapping.Links.{
  IsLinked, block_of, page_of, offset_of, status_of, lpa_of, invalidate_lpg_unmapped,
  invalidate_lpg-Invalidated, invalidate_lpg-IsLinked,
}
use flashbench.Mapping.Place.{
  Place, Mapped, place, new_ppa, new_layout, new_block, new_page, new_offset, same_status, filled,
  filled-Mapped, filled-mappings,
}

module _ (x : Ftl) (lpa b pg ofs ppa : ℕ) (eb : block_of ppa ≡ b) (ep : page_of ppa ≡ pg)
    (eo : offset_of ppa ≡ ofs) where
  after : SsdInfo
  after = (filled x lpa b pg ofs ppa).ssd

  here : (status_of after ppa ≡ page_status_valid) × (lpa_of after ppa ≡ lpa)
  unfolding after
  here = (
    ap (λ i. status_at after i (page_of ppa) (offset_of ppa)) eb
        ∙ ap (λ i. status_at after b i (offset_of ppa)) ep
        ∙ ap (λ i. status_at after b pg i) eo
        ∙ m.statuses b pg ofs
        ∙ ground arith,
    ap (λ i. lpa_at after i (page_of ppa) (offset_of ppa)) eb
        ∙ ap (λ i. lpa_at after b i (offset_of ppa)) ep
        ∙ ap (λ i. lpa_at after b pg i) eo
        ∙ m.lpas b pg ofs
        ∙ ground arith,
  )
    where
      m : Mapped x.ssd (filled x lpa b pg ofs ppa).ssd b pg ofs lpa
      m = filled-Mapped x lpa b pg ofs ppa

  elsewhere :
      (m : ℕ)
      → status_at x.ssd b pg ofs ≢ status_of x.ssd m
      → (status_of after m ≡ status_of x.ssd m) × (lpa_of after m ≡ lpa_of x.ssd m)
  unfolding after
  elsewhere m ne = elim (Bool-cases (b == block_of m && (pg == page_of m && ofs == offset_of m))) [
    | inl e ↦ absurd (ne (same_status x.ssd b (block_of m) pg (page_of m) ofs (offset_of m) e))
    | inr e ↦ (
      (filled-Mapped x lpa b pg ofs ppa).statuses (block_of m) (page_of m) (offset_of m)
          ∙ ap (λ t. if t then page_status_valid else status_of x.ssd m) e,
      (filled-Mapped x lpa b pg ofs ppa).lpas (block_of m) (page_of m) (offset_of m)
          ∙ ap (λ t. if t then lpa else lpa_of x.ssd m) e,
    )
  ]

  filled-IsLinked :
      IsLinked x
      → status_at x.ssd b pg ofs ≢ page_status_valid
      → IsLinked (filled x lpa b pg ofs ppa)
  unfolding after
  filled-IsLinked l fresh = record {
    valid = λ k h. (at k h (ℕ_discrete lpa k)).0;
    back = λ k h. (at k h (ℕ_discrete lpa k)).1;
  }
    where
      table : (k : ℕ) → (filled x lpa b pg ofs ppa).mappings k ≡ update x.mappings lpa ppa k
      table k = ap (λ t. t k) (filled-mappings x lpa b pg ofs ppa)

      at :
          (k : ℕ)
          → (filled x lpa b pg ofs ppa).mappings k ≢ page_unmapped
          → Dec (lpa ≡ k)
          → (status_of after ((filled x lpa b pg ofs ppa).mappings k) ≡ page_status_valid)
            × (lpa_of after ((filled x lpa b pg ofs ppa).mappings k) ≡ k)
      at k h (yes e) =
          let to : (filled x lpa b pg ofs ppa).mappings k ≡ ppa =
            table k ∙ ap (update x.mappings lpa ppa) (sym e) ∙ update_self x.mappings lpa ppa in
          (ap (status_of after) to ∙ here.0, ap (lpa_of after) to ∙ here.1 ∙ e)
      at k h (no ne) =
          let to : (filled x lpa b pg ofs ppa).mappings k ≡ x.mappings k =
            table k ∙ update_ne x.mappings ppa ne in
          let old : x.mappings k ≢ page_unmapped = λ e. h (to ∙ e) in
          let (st, lp) = elsewhere (x.mappings k) (λ e. fresh (e ∙ l.valid k old)) in
          (ap (status_of after) to ∙ st ∙ l.valid k old, ap (lpa_of after) to ∙ lp ∙ l.back k old)

module _ (ut : Ut) where
  -- Invalidation makes no logical page valid.
  not_valid :
      (ftl : Ftl) (lpa c q o : ℕ)
      → status_at ftl.ssd c q o ≢ page_status_valid
      → status_at (invalidate_lpg ut ftl lpa).1.ssd c q o ≢ page_status_valid
  not_valid ftl lpa c q o fresh = elim (ℕ_discrete (ftl.mappings lpa) page_unmapped) [
    | yes e ↦
        subst (λ (r : ℕ × Ftl). status_at r.1.ssd c q o ≢ page_status_valid)
          (sym (invalidate_lpg_unmapped ut ftl lpa e)) fresh
    | no ne ↦ λ v.
        marked
          (block_of (ftl.mappings lpa) == c
            && (page_of (ftl.mappings lpa) == q && offset_of (ftl.mappings lpa) == o))
          (sym ((invalidate_lpg-Invalidated ut ftl lpa ne).statuses c q o) ∙ v)
  ]
    where
      marked :
          (t : Bool)
          → (if t then page_status_invalid else status_at ftl.ssd c q o) ≢ page_status_valid
      marked true v = absurd (cc)
      marked false v = fresh v

  as_filled :
      (ftl : Ftl) (lpa : ℕ) {bus chip blk pg ofs : ℕ} (p : Place bus chip blk pg ofs)
      → lpa ≢ page_unmapped
      → map_logical_page ut ftl lpa bus chip blk pg ofs
        ≡ filled (invalidate_lpg ut ftl lpa).1 lpa (get_block_info bus chip blk) pg ofs (new_ppa p)
  unfolding map_logical_page filled new_ppa
  as_filled ftl lpa {bus} {chip} {blk} {pg} {ofs} p u =
      ap (λ (y : Ftl). finish_slot y lpa (get_block_info bus chip blk) pg ofs) (if_ne _ _ u)

  -- Mapping a logical address, which is not `PAGE_UNMAPPED`, to a logical page of the device that is
  -- not valid: behind it the table names that place for the address and is otherwise as before, and
  -- the table and the blocks agree if they did before.
  pub map_logical_page-IsLinked :
      (ftl : Ftl) (lpa : ℕ) {bus chip blk pg ofs : ℕ}
      → Place bus chip blk pg ofs
      → IsLinked ftl
      → lpa ≢ page_unmapped
      → status_at ftl.ssd (get_block_info bus chip blk) pg ofs ≢ page_status_valid
      → (convert_to_ssd_layout ((map_logical_page ut ftl lpa bus chip blk pg ofs).mappings lpa)
          ≡ record { bus = bus; chip = chip; block = blk; page = pg * 4 + ofs })
        × ((k : ℕ)
            → lpa ≢ k
            → (map_logical_page ut ftl lpa bus chip blk pg ofs).mappings k ≡ ftl.mappings k)
        × IsLinked (map_logical_page ut ftl lpa bus chip blk pg ofs)
  unfolding place
  map_logical_page-IsLinked ftl lpa {bus} {chip} {blk} {pg} {ofs} p l u fresh =
      subst
        (λ (y : Ftl).
          (convert_to_ssd_layout (y.mappings lpa)
            ≡ record { bus = bus; chip = chip; block = blk; page = pg * 4 + ofs })
          × ((k : ℕ) → lpa ≢ k → y.mappings k ≡ ftl.mappings k)
          × IsLinked y)
        (sym (as_filled ftl lpa p u))
        (
          ap convert_to_ssd_layout (table lpa ∙ update_self x.mappings lpa (new_ppa p)) ∙ named,
          (λ k ne.
              table k
              ∙ update_ne x.mappings (new_ppa p) ne
              ∙ old.1 k
              ∙ if_ne page_unmapped (ftl.mappings k) ne),
          filled-IsLinked x lpa b pg ofs (new_ppa p) (new_block p) (new_page p) (new_offset p) old.2
              (not_valid ftl lpa b pg ofs fresh),
        )
    where
      x : Ftl
      x = (invalidate_lpg ut ftl lpa).1

      b : ℕ
      b = get_block_info bus chip blk

      old :
          ((invalidate_lpg ut ftl lpa).0 ≡ ftl.mappings lpa)
          × ((k : ℕ) → x.mappings k ≡ (if lpa == k then page_unmapped else ftl.mappings k))
          × IsLinked x
      old = invalidate_lpg-IsLinked ut ftl lpa l

      table :
          (k : ℕ)
          → (filled x lpa b pg ofs (new_ppa p)).mappings k ≡ update x.mappings lpa (new_ppa p) k
      table k = ap (λ t. t k) (filled-mappings x lpa b pg ofs (new_ppa p))

      named :
          convert_to_ssd_layout (new_ppa p)
          ≡ record { bus = bus; chip = chip; block = blk; page = pg * 4 + ofs }
      named = new_layout p
