-- ===== src/WriteBuffer/Written.antt =====
-- `fb_rm_written_pgs`: the pages that are being written leave the buffer, and no others.
use flashbench.Common.{
  ℕ, zero, suc, ◌+◌, ◌<◌, ◌≡◌, ◌≢◌, refl, sym, ap, ap₂, subst, ◌∙◌, inl, inr, Bool, true, false,
  Option, none, some, List, [], ◌∷◌, arith, head, length, List-cases, Option-cases, ℕ_discrete,
  ◌==◌, if◌then◌else◌, if_eq, if_ne,
}
use flashbench.Common.Counts.{count, count_head, remove_head}
use flashbench.Ut.{Ut}
use flashbench.Ut.Lists.{length-dl_append}
use flashbench.Ut.Tables.{find-del_ne}
use flashbench.WriteBuffer.{
  WriteBuffer, Data, WbPg, fb_wb_reset_writing_pg, retire_pg, rm_written_loop, fb_rm_written_pgs,
}
use flashbench.WriteBuffer.Invariant.{IsValid, lpa-flagged, flagged, wflag-flagged_ne}
use flashbench.WriteBuffer.Detach.{reset_writing-IsValid}
use flashbench.WriteBuffer.Attach.{retire-IsValid}
use flashbench.WriteBuffer.View.{view, view-reset_writing, view-retire}

module _ (ut : Ut) where
  open ut use {hash_find}

  abbrev pub flag_of : (ℕ → WbPg) → Option ℕ → Bool
  flag_of pg none = false
  flag_of pg (some p) = (pg p).wflag

  -- The page of the address is being written.
  unfoldable pub is_writing : WriteBuffer ut → ℕ → Bool
  is_writing wb k = flag_of wb.pg (hash_find wb.hash_pgs k)

  abbrev unwritten : WriteBuffer ut → ℕ → Option Data
  unwritten wb k = if is_writing wb k then none else view ut wb k

  -- What the removal of the written pages makes of a buffer.
  pub record Cleaned (cap : ℕ) (wb wb' : WriteBuffer ut) : Type 0 where
    pub valid : IsValid ut cap none wb'
    pub none_writing : wb'.writing_pgs ≡ []
    pub same_buf : wb'.buf_pgs ≡ wb.buf_pgs
    pub free : length wb'.free_pgs ≡ length wb.free_pgs + length wb.writing_pgs
    pub remaining : (k : ℕ) → view ut wb' k ≡ (if is_writing wb k then none else view ut wb k)

  abbrev the_none : Option Data
  the_none = none

  both_none : (b : Bool) → (if b then none else the_none) ≡ the_none
  both_none true = refl
  both_none false = refl

  abbrev round : WriteBuffer ut → ℕ → WriteBuffer ut
  round wb p = retire_pg ut (fb_wb_reset_writing_pg ut wb p) p

  module _ (wb : WriteBuffer ut) (p : ℕ) (l : List ℕ) (e : wb.writing_pgs ≡ p ∷ l) where
    in_writing : 0 < count p wb.writing_pgs
    in_writing = rw e (count_head p l)

    held :
        {cap : ℕ}
        → IsValid ut cap none wb
        → IsValid ut cap (some p) (fb_wb_reset_writing_pg ut wb p)
    held v = reset_writing-IsValid ut v in_writing

    round-IsValid : {cap : ℕ} → IsValid ut cap none wb → IsValid ut cap none (round wb p)
    round-IsValid v = retire-IsValid ut (held v)

    round-writing : (round wb p).writing_pgs ≡ l
    unfolding retire_pg fb_wb_reset_writing_pg
    round-writing = rw e (ut.dl_delete_lem (p ∷ l) p (count_head p l) ∙ remove_head p l)

    round-buf : (round wb p).buf_pgs ≡ wb.buf_pgs
    unfolding retire_pg fb_wb_reset_writing_pg
    round-buf = refl

    round-free :
        {cap : ℕ} → IsValid ut cap none wb → length (round wb p).free_pgs ≡ length wb.free_pgs + 1
    unfolding retire_pg fb_wb_reset_writing_pg
    round-free v = length-dl_append ut p wb.free_pgs (omega (arith, v.once p, in_writing))

    lpa-reset : ((fb_wb_reset_writing_pg ut wb p).pg p).lpa ≡ (wb.pg p).lpa
    unfolding fb_wb_reset_writing_pg
    lpa-reset = lpa-flagged wb.pg p false p

    found : {cap : ℕ} → IsValid ut cap none wb → hash_find wb.hash_pgs (wb.pg p).lpa ≡ some p
    found v = v.hashed p (omega (arith, in_writing))

    round-view :
        {cap : ℕ} (k : ℕ)
        → IsValid ut cap none wb
        → view ut (round wb p) k ≡ (if (wb.pg p).lpa == k then none else view ut wb k)
    round-view k v = view-retire ut k (held v) ∙ rw (lpa-reset, view-reset_writing ut wb p k) refl

    writing_self :
        {cap : ℕ} (k : ℕ) → IsValid ut cap none wb → (wb.pg p).lpa ≡ k → is_writing wb k ≡ true
    unfolding is_writing
    writing_self k v d =
        ap (flag_of wb.pg) (ap (hash_find wb.hash_pgs) (sym d) ∙ found v)
        ∙ v.writing_flag p in_writing

    writing_ne :
        {cap : ℕ} (k : ℕ)
        → IsValid ut cap none wb
        → (wb.pg p).lpa ≢ k
        → is_writing (round wb p) k ≡ is_writing wb k
    unfolding is_writing retire_pg fb_wb_reset_writing_pg
    writing_ne k v ne =
        ap (flag_of (flagged wb.pg p false))
          (find-del_ne ut wb.hash_pgs (wb.pg p).lpa p (found v) (λ i f. sym (v.found i p f).0) k ne)
        ∙ other (hash_find wb.hash_pgs k)
            (λ q f d. ne (ap (λ i. (wb.pg i).lpa) d ∙ (v.found k q f).0))
      where
        other :
            (o : Option ℕ)
            → ((q : ℕ) → o ≡ some q → p ≢ q)
            → flag_of (flagged wb.pg p false) o ≡ flag_of wb.pg o
        other none apart = refl
        other (some q) apart = wflag-flagged_ne wb.pg p false q (apart q refl)

    round-unwritten :
        {cap : ℕ} (k : ℕ) → IsValid ut cap none wb → unwritten (round wb p) k ≡ unwritten wb k
    round-unwritten k v = elim (ℕ_discrete (wb.pg p).lpa k) [
      | yes d ↦
          ap (λ o. if is_writing (round wb p) k then none else o)
            (round-view k v ∙ if_eq none (view ut wb k) d)
          ∙ both_none (is_writing (round wb p) k)
          ∙ sym (ap (λ b. if b then none else view ut wb k) (writing_self k v d))
      | no ne ↦
          ap₂ (λ b o. if b then none else o) (writing_ne k v ne)
            (round-view k v ∙ if_ne none (view ut wb k) ne)
    ]

    after_round :
        {cap : ℕ} (wb' : WriteBuffer ut)
        → IsValid ut cap none wb
        → Cleaned cap (round wb p) wb'
        → Cleaned cap wb wb'
    after_round wb' v c = record {
      valid = c.valid;
      none_writing = c.none_writing;
      same_buf = c.same_buf ∙ round-buf;
      free = omega (arith, c.free, round-free v, ap length round-writing, ap length e);
      remaining = λ k. c.remaining k ∙ round-unwritten k v;
    }

  idle_none :
      {cap : ℕ} (wb : WriteBuffer ut) (k : ℕ)
      → IsValid ut cap none wb
      → wb.writing_pgs ≡ []
      → is_writing wb k ≡ false
  unfolding is_writing
  idle_none wb k v e = elim (Option-cases (hash_find wb.hash_pgs k)) [
    | inl f ↦ ap (flag_of wb.pg) f
    | inr (q, f) ↦
        ap (flag_of wb.pg) f ∙ v.buf_flag q (omega (arith, (v.found k q f).1, ap (count q) e))
  ]

  nothing :
      {cap : ℕ} (wb : WriteBuffer ut)
      → IsValid ut cap none wb
      → wb.writing_pgs ≡ []
      → Cleaned cap wb wb
  nothing wb v e = record {
    valid = v;
    none_writing = e;
    same_buf = refl;
    free = omega (arith, ap length e);
    remaining = λ k. sym (ap (λ b. if b then none else view ut wb k) (idle_none wb k v e));
  }

  -- The fuel is enough, and the loop removes all pages that are being written.
  rm_written_loop-Cleaned :
      {cap : ℕ} (fuel : ℕ) (wb : WriteBuffer ut)
      → IsValid ut cap none wb
      → length wb.writing_pgs < fuel
      → Cleaned cap wb (rm_written_loop ut fuel wb)
  unfolding rm_written_loop
  rm_written_loop-Cleaned {cap} zero wb v h = absurd (omega arith)
  rm_written_loop-Cleaned {cap} (suc fuel) wb v h = elim (List-cases wb.writing_pgs) [
    | inl e ↦ subst (Cleaned cap wb) (sym (rw (ap head e, rm_written_loop) refl)) (nothing wb v e)
    | inr (p, l, e) ↦ subst (Cleaned cap wb) (sym (rw (ap head e, rm_written_loop) refl)) (
        after_round wb p l e _ v (
          rm_written_loop-Cleaned fuel (round wb p) (round-IsValid wb p l e v)
            (omega (arith, ap length e, ap length (round-writing wb p l e)))))
  ]

  -- On a valid buffer `fb_rm_written_pgs` ends with no page being written: the addresses whose pages
  -- were being written are empty, those that were put again meanwhile keep their pages, and the
  -- entries are free again.
  pub fb_rm_written_pgs-Cleaned :
      {cap : ℕ} (wb : WriteBuffer ut)
      → IsValid ut cap none wb
      → Cleaned cap wb (fb_rm_written_pgs ut wb)
  unfolding fb_rm_written_pgs
  fb_rm_written_pgs-Cleaned wb v =
      rm_written_loop-Cleaned (length wb.writing_pgs + 1) wb v (omega arith)
