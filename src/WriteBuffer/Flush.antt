-- ===== src/WriteBuffer/Flush.antt =====
-- `fb_get_pgs_to_write`: the oldest buffered pages go out, and stay readable.
use flashbench.Common.{
  ℕ, zero, suc, ◌+◌, ◌≤◌, ◌<◌, ◌≡◌, refl, sym, ap, ap₂, ◌∙◌, inl, inr, none, some, List, [], ◌∷◌,
  map, success, error, arith, head, length, take, drop, List-cases, leb, true, false,
}
use flashbench.Common.Counts.{count, count_head, remove_head}
use flashbench.Ut.{Ut}
use flashbench.Ut.Lists.{length-dl_append}
use flashbench.WriteBuffer.{
  WriteBuffer, Data, fb_wb_set_writing_pg, fb_wb_reset_buf_pg, take_pgs, fb_get_pgs_to_write,
}
use flashbench.WriteBuffer.Invariant.{IsValid, lpa-flagged}
use flashbench.WriteBuffer.Detach.{reset_buf-IsValid}
use flashbench.WriteBuffer.Attach.{set_writing-IsValid}
use flashbench.WriteBuffer.View.{view, page_of, view-reset_buf, view-set_writing}

module _ (ut : Ut) where
  open ut use {hash_find}

  -- What `n` pages taken from the buffer are, and what is left behind.
  pub record Taken (cap n : ℕ) (wb : WriteBuffer ut) (lpas : List ℕ) (pages : List Data)
      (wb' : WriteBuffer ut) : Type 0 where
    pub valid : IsValid ut cap none wb'
    pub same_view : (k : ℕ) → view ut wb' k ≡ view ut wb k
    pub oldest : lpas ≡ map (λ p. (wb.pg p).lpa) (take n wb.buf_pgs)
    pub contents : map (view ut wb) lpas ≡ map some pages
    pub left : wb'.buf_pgs ≡ drop n wb.buf_pgs
    pub writing : length wb'.writing_pgs ≡ length wb.writing_pgs + n
    pub same_free : wb'.free_pgs ≡ wb.free_pgs

  -- The state after one round for the entry `p`.
  abbrev moved : WriteBuffer ut → ℕ → WriteBuffer ut
  moved wb p = fb_wb_set_writing_pg ut (fb_wb_reset_buf_pg ut wb p) p

  module _ (wb : WriteBuffer ut) (p : ℕ) (l : List ℕ) (e : wb.buf_pgs ≡ p ∷ l) where
    in_buf : 0 < count p wb.buf_pgs
    in_buf = rw e (count_head p l)

    held : {cap : ℕ} → IsValid ut cap none wb → IsValid ut cap (some p) (fb_wb_reset_buf_pg ut wb p)
    held v = reset_buf-IsValid ut v in_buf

    moved-IsValid : {cap : ℕ} → IsValid ut cap none wb → IsValid ut cap none (moved wb p)
    moved-IsValid v = set_writing-IsValid ut (held v)

    moved-buf : (moved wb p).buf_pgs ≡ l
    unfolding fb_wb_set_writing_pg fb_wb_reset_buf_pg
    moved-buf = rw e (ut.dl_delete_lem (p ∷ l) p (count_head p l) ∙ remove_head p l)

    moved-writing :
        {cap : ℕ}
        → IsValid ut cap none wb
        → length (moved wb p).writing_pgs ≡ length wb.writing_pgs + 1
    unfolding fb_wb_set_writing_pg fb_wb_reset_buf_pg
    moved-writing v = length-dl_append ut p wb.writing_pgs (omega (arith, v.once p, in_buf))

    moved-lpa : (q : ℕ) → ((moved wb p).pg q).lpa ≡ (wb.pg q).lpa
    unfolding fb_wb_set_writing_pg fb_wb_reset_buf_pg
    moved-lpa q = lpa-flagged wb.pg p true q

    moved-view : (k : ℕ) → view ut (moved wb p) k ≡ view ut wb k
    moved-view k = view-set_writing ut (fb_wb_reset_buf_pg ut wb p) p k ∙ view-reset_buf ut wb p k

    moved-free : (moved wb p).free_pgs ≡ wb.free_pgs
    unfolding fb_wb_set_writing_pg fb_wb_reset_buf_pg
    moved-free = refl

    head_view :
        {cap : ℕ} → IsValid ut cap none wb → view ut wb (wb.pg p).lpa ≡ some (wb.pg p).data_of
    unfolding view
    head_view v = ap (page_of ut wb.pg) (v.hashed p (omega (arith, in_buf)))

    take_round :
        (n : ℕ) (lpas : List ℕ) (pages : List Data) (wb' : WriteBuffer ut)
        → take_pgs ut n (moved wb p) ≡ some (lpas, pages, wb')
        → take_pgs ut (suc n) wb ≡ some ((wb.pg p).lpa ∷ lpas, (wb.pg p).data_of ∷ pages, wb')
    unfolding take_pgs
    take_round n lpas pages wb' t = rw (ap head e, take_pgs) (rw t refl)

    after_round :
        {cap : ℕ} (n : ℕ) (lpas : List ℕ) (pages : List Data) (wb' : WriteBuffer ut)
        → IsValid ut cap none wb
        → Taken cap n (moved wb p) lpas pages wb'
        → Taken cap (suc n) wb ((wb.pg p).lpa ∷ lpas) ((wb.pg p).data_of ∷ pages) wb'
    after_round n lpas pages wb' v t = record {
      valid = t.valid;
      same_view = λ k. t.same_view k ∙ moved-view k;
      oldest =
          ap ((wb.pg p).lpa ∷◌)
            (t.oldest ∙ ap₂ (λ f (m : List ℕ). map f (take n m)) (λ i q. moved-lpa q i) moved-buf)
          ∙ sym (ap (λ m. map (λ q. (wb.pg q).lpa) (take (suc n) m)) e);
      contents =
          ap₂ (λ x y. x ∷ y) (head_view v)
            (ap (λ f. map f lpas) (sym (λ i q. moved-view q i)) ∙ t.contents);
      left = t.left ∙ ap (drop n) moved-buf ∙ sym (ap (drop (suc n)) e);
      writing = omega (arith, t.writing, moved-writing v);
      same_free = t.same_free ∙ moved-free;
    }

  -- Enough buffered pages: the loop takes `n` of them.
  take_pgs-Taken :
      {cap : ℕ} (n : ℕ) (wb : WriteBuffer ut)
      → IsValid ut cap none wb
      → n ≤ length wb.buf_pgs
      → (lpas : List ℕ) × (pages : List Data) × (wb' : WriteBuffer ut) × (take_pgs ut n wb
          ≡ some (lpas, pages, wb'))
        × Taken cap n wb lpas pages wb'
  unfolding take_pgs
  take_pgs-Taken zero wb v h = (
    [],
    [],
    wb,
    refl,
    record {
      valid = v;
      same_view = λ k. refl;
      oldest = refl;
      contents = refl;
      left = refl;
      writing = omega arith;
      same_free = refl;
    },
  )
  take_pgs-Taken (suc n) wb v h = elim (List-cases wb.buf_pgs) [
    | inl e ↦ absurd (omega (arith, ap length e))
    | inr (p, l, e) ↦
        let (lpas, pages, wb', t, taken) =
          take_pgs-Taken n (moved wb p) (moved-IsValid wb p l e v)
            (omega (arith, ap length e, ap length (moved-buf wb p l e))) in
        (
          (wb.pg p).lpa ∷ lpas,
          (wb.pg p).data_of ∷ pages,
          wb',
          take_round wb p l e n lpas pages wb' t,
          after_round wb p l e n lpas pages wb' v taken,
        )
  ]

  -- With enough buffered pages `fb_get_pgs_to_write` succeeds: it never meets an empty list, and
  -- answers the pages of the `nr_pgs` oldest entries with their addresses, in order. They move to the
  -- pages that are being written, and a reader sees no change.
  pub fb_get_pgs_to_write_enough :
      {cap : ℕ} (nr_pgs : ℕ) (wb : WriteBuffer ut)
      → IsValid ut cap none wb
      → nr_pgs ≤ length wb.buf_pgs
      → (lpas : List ℕ) × (pages : List Data) × (wb' : WriteBuffer ut) × (fb_get_pgs_to_write ut wb
            nr_pgs
          ≡ some (success, lpas, pages, wb'))
        × Taken cap nr_pgs wb lpas pages wb'
  unfolding fb_get_pgs_to_write
  fb_get_pgs_to_write_enough nr_pgs wb v h =
      let (lpas, pages, wb', t, taken) = take_pgs-Taken nr_pgs wb v h in
      let enough : leb nr_pgs wb.nr_entries ≡ true = ground (arith, v.sized) in
      (lpas, pages, wb', rw (enough, t) refl, taken)

  -- With fewer buffered pages it fails and changes nothing.
  pub fb_get_pgs_to_write_few :
      {cap : ℕ} (nr_pgs : ℕ) (wb : WriteBuffer ut)
      → IsValid ut cap none wb
      → length wb.buf_pgs < nr_pgs
      → fb_get_pgs_to_write ut wb nr_pgs ≡ some (error, [], [], wb)
  unfolding fb_get_pgs_to_write
  fb_get_pgs_to_write_few nr_pgs wb v h =
      let few : leb nr_pgs wb.nr_entries ≡ false = ground (arith, v.sized) in rw few refl
