-- ===== src/Discard/Effects.antt =====
-- What a discard request leaves of the write buffer and of the mapping.
use mathlib.Core.List.{foldl}
use flashbench.Common.{
  ℕ, zero, suc, ◌+◌, ◌-◌, ◌≤◌, ◌≡◌, refl, sym, ap, subst, ◌∙◌, Bool, ◌&&◌, none, List, [], ◌∷◌,
  ◌++◌, append_assoc, append-nil, arith, ltb, leb, ◌==◌, if◌then◌else◌, length, Bool-cases, inl,
  inr,
}
use flashbench.Config.{u32_mod, to_u32, page_unmapped, nr_max_lpas_discard}
use flashbench.Ut.{Ut}
use flashbench.WriteBuffer.{WriteBuffer, fb_rm_buf_pg}
use flashbench.WriteBuffer.Invariant.{IsValid}
use flashbench.WriteBuffer.View.{view}
use flashbench.WriteBuffer.Put.{fb_rm_buf_pg-IsValid, fb_rm_buf_pg-view}
use flashbench.Mapping.{Ftl, invalidate_lpg}
use flashbench.Mapping.Links.{IsLinked, invalidate_lpg-IsLinked}
use flashbench.Discard.{
  discard_range, make_discard_request_page_mapping, fb_del_invalidate_pgs, rm_buf_pgs, discard_pgs,
}

-- The addresses of `n` pages from page `lpa` on.
abbrev pub pages_from : ℕ → ℕ → List ℕ
pages_from zero lpa = []
pages_from (suc n) lpa = to_u32 lpa ∷ pages_from n (lpa + 1)

abbrev pub within : ℕ → ℕ → ℕ → Bool
within n lpa k = leb lpa k && ltb k (lpa + n)

foldl-append {ℓ ℓ'} :
    {A : Type ℓ} {B : Type ℓ'} (f : B → A → B) (b : B) (xs ys : List A)
    → foldl f b (xs ++ ys) ≡ foldl f (foldl f b xs) ys
foldl-append f b [] ys = refl
foldl-append f b (x ∷ xs) ys = foldl-append f (f b x) xs ys

module _ (ut : Ut) where
  abbrev flushed : ℕ → ℕ → List ℕ → Ftl → Ftl
  flushed n lpa batch ftl =
      discard_pgs ut n (lpa + 1) [] (fb_del_invalidate_pgs ut ftl (batch ++ to_u32 lpa ∷ []))

  abbrev gathered : ℕ → ℕ → List ℕ → Ftl → Ftl
  gathered n lpa batch ftl = discard_pgs ut n (lpa + 1) (batch ++ to_u32 lpa ∷ []) ftl

  -- The batches of `make_discard_request_page_mapping` make no difference.
  discard_pgs_lem :
      (n lpa : ℕ) (batch : List ℕ) (ftl : Ftl)
      → discard_pgs ut n lpa batch ftl ≡ fb_del_invalidate_pgs ut ftl (batch ++ pages_from n lpa)
  unfolding discard_pgs fb_del_invalidate_pgs
  discard_pgs_lem zero lpa [] ftl = refl
  discard_pgs_lem zero lpa (l ∷ batch) ftl =
      ap (fb_del_invalidate_pgs ut ftl) (sym (append-nil (l ∷ batch)))
  discard_pgs_lem (suc n) lpa batch ftl =
      elim (Bool-cases (length batch == nr_max_lpas_discard - 1)) [
        | inl e ↦
            ap (λ t. if t then flushed n lpa batch ftl else gathered n lpa batch ftl) e
            ∙ discard_pgs_lem n (lpa + 1) []
                (fb_del_invalidate_pgs ut ftl (batch ++ to_u32 lpa ∷ []))
            ∙ sym (
                foldl-append (λ f p. (invalidate_lpg ut f p).1) ftl (batch ++ to_u32 lpa ∷ [])
                  (pages_from n (lpa + 1)))
            ∙ ap (fb_del_invalidate_pgs ut ftl)
                (append_assoc batch (to_u32 lpa ∷ []) (pages_from n (lpa + 1)))
        | inr e ↦
            ap (λ t. if t then flushed n lpa batch ftl else gathered n lpa batch ftl) e
            ∙ discard_pgs_lem n (lpa + 1) (batch ++ to_u32 lpa ∷ []) ftl
            ∙ ap (fb_del_invalidate_pgs ut ftl)
                (append_assoc batch (to_u32 lpa ∷ []) (pages_from n (lpa + 1)))
      ]

  Unmapped : ℕ → ℕ → Ftl → Ftl → Type 0
  Unmapped n lpa ftl ftl' =
      ((k : ℕ) → ftl'.mappings k ≡ (if within n lpa k then page_unmapped else ftl.mappings k))
      × IsLinked ftl'

  pages_from-Unmapped :
      (n lpa : ℕ) (ftl : Ftl)
      → lpa + n ≤ u32_mod
      → IsLinked ftl
      → Unmapped n lpa ftl (fb_del_invalidate_pgs ut ftl (pages_from n lpa))
  unfolding fb_del_invalidate_pgs Unmapped
  pages_from-Unmapped zero lpa ftl h l = ((λ k. ground arith), l)
  pages_from-Unmapped (suc n) lpa ftl h l =
      let first = invalidate_lpg-IsLinked ut ftl (to_u32 lpa) l in
      let rest =
        pages_from-Unmapped n (lpa + 1) (invalidate_lpg ut ftl (to_u32 lpa)).1 (omega arith)
          first.2 in
      ((λ k. ground (arith, first.1 k, rest.0 k)), rest.1)

  removed :
      {cap : ℕ} (n lpa : ℕ) (wb : WriteBuffer ut)
      → lpa + n ≤ u32_mod
      → IsValid ut cap none wb
      → ((k : ℕ)
          → view ut (rm_buf_pgs ut n lpa wb) k ≡ (if within n lpa k then none else view ut wb k))
        × IsValid ut cap none (rm_buf_pgs ut n lpa wb)
  unfolding rm_buf_pgs
  removed zero lpa wb h v = ((λ k. ground arith), v)
  removed (suc n) lpa wb h v =
      let rest =
        removed n (lpa + 1) (fb_rm_buf_pg ut wb (to_u32 lpa)) (omega arith)
          (fb_rm_buf_pg-IsValid ut (to_u32 lpa) v) in
      ((λ k. ground (arith, fb_rm_buf_pg-view ut (to_u32 lpa) v k, rest.0 k)), rest.1)

  -- A discard request, whose pages have 32-bit addresses, on a valid write buffer and a mapping in
  -- which the table and the blocks agree: behind it neither holds any of its pages, both hold what they
  -- held of all others, the buffer is valid, and the table and the blocks agree.
  pub make_discard_request_page_mapping_lem :
      {cap : ℕ} (bi_sector bi_size : ℕ) (wb : WriteBuffer ut) (ftl : Ftl)
      → (discard_range bi_sector bi_size).0 + (discard_range bi_sector bi_size).1 ≤ u32_mod
      → IsValid ut cap none wb
      → IsLinked ftl
      → ((k : ℕ)
          → view ut (make_discard_request_page_mapping ut bi_sector bi_size (wb, ftl)).0 k ≡ (
              if within (discard_range bi_sector bi_size).1 (discard_range bi_sector bi_size).0 k
              then none
              else view ut wb k))
        × ((k : ℕ)
            → (make_discard_request_page_mapping ut bi_sector bi_size (wb, ftl)).1.mappings k ≡ (
                if within (discard_range bi_sector bi_size).1 (discard_range bi_sector bi_size).0 k
                then page_unmapped
                else ftl.mappings k))
        × IsValid ut cap none (make_discard_request_page_mapping ut bi_sector bi_size (wb, ftl)).0
        × IsLinked (make_discard_request_page_mapping ut bi_sector bi_size (wb, ftl)).1
  unfolding make_discard_request_page_mapping Unmapped
  make_discard_request_page_mapping_lem bi_sector bi_size wb ftl h v l =
      let (start, n) = discard_range bi_sector bi_size in
      let (views, valid) = removed n start wb h v in
      let (maps, linked) =
        subst (Unmapped n start ftl) (sym (discard_pgs_lem n start [] ftl))
          (pages_from-Unmapped n start ftl h l) in
      (views, maps, valid, linked)
