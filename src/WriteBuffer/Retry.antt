-- ===== src/WriteBuffer/Retry.antt =====
-- The operations of the write buffer together: the new buffer, a page that is put again while it is
-- written, and the flush that `make_write_request` makes room with.
use flashbench.Common.{
  ℕ, ◌+◌, ◌≤◌, ◌<◌, ◌≡◌, refl, sym, ap, subst, ◌∙◌, false, none, some, List, [], ◌∷◌, ◌++◌,
  append_assoc, append-nil, success, error, Status-cases, arith, length, if◌then◌else◌, if_eq,
  update, update_self, inl, inr,
}
use flashbench.Common.Counts.{count, same, same_self, count-snoc}
use flashbench.Config.{u32_mod, page_unmapped}
use flashbench.Ut.{Ut}
use flashbench.WriteBuffer.{
  WriteBuffer, WbPg, Data, fb_wb_set_free_pg, fb_create_write_buffer, fb_put_pg, store_pg,
  fb_get_pgs_to_write, fb_rm_written_pgs, claim_pg, unlist_pg,
}
use flashbench.WriteBuffer.Invariant.{IsValid}
use flashbench.WriteBuffer.View.{view, page_of}
use flashbench.WriteBuffer.Put.{
  put_cases, claimed, unlisted, lpa-claim, lpa-unlist, fb_put_pg_error, fb_put_pg-IsValid,
  fb_put_pg-view,
}
use flashbench.WriteBuffer.Flush.{fb_get_pgs_to_write_enough}
use flashbench.WriteBuffer.Written.{is_writing, flag_of, fb_rm_written_pgs-Cleaned}
use mathlib.Core.List.{foldl}

module _ (ut : Ut) where
  open ut use {hash_find}

  all_free :
      (wb : WriteBuffer ut) (entries : List ℕ)
      → ((q : ℕ) → count q wb.free_pgs + count q entries ≤ 1)
      → foldl (fb_wb_set_free_pg ut) wb entries ≡ record wb { free_pgs = wb.free_pgs ++ entries }
  unfolding fb_wb_set_free_pg
  all_free wb [] h = ap (λ f. record wb { free_pgs = f }) (sym (append-nil wb.free_pgs))
  all_free wb (p ∷ entries) h =
      all_free (fb_wb_set_free_pg ut wb p) entries (λ q. omega (arith, h q, more q))
      ∙ ap (λ f. record wb { free_pgs = f })
          (ap (◌++ entries) added ∙ append_assoc wb.free_pgs (p ∷ []) entries)
    where
      added : ut.dl_append wb.free_pgs p ≡ wb.free_pgs ++ p ∷ []
      added = ut.dl_append_lem wb.free_pgs p (omega (arith, h p, same_self p))

      more : (q : ℕ) → count q (ut.dl_append wb.free_pgs p) ≡ count q wb.free_pgs + same p q
      more q = ap (count q) added ∙ count-snoc q p wb.free_pgs

  -- A new buffer over `entries` that are all different is valid, and holds no page.
  pub fb_create_write_buffer-IsValid :
      (entries : List ℕ) (memory : ℕ → Data) (pg_size : ℕ)
      → length entries < u32_mod
      → ((q : ℕ) → count q entries ≤ 1)
      → IsValid ut (length entries) none (fb_create_write_buffer ut entries memory pg_size)
        × ((k : ℕ) → view ut (fb_create_write_buffer ut entries memory pg_size) k ≡ none)
  unfolding fb_create_write_buffer view
  fb_create_write_buffer-IsValid entries memory pg_size h once =
      subst (λ wb. IsValid ut (length entries) none wb × ((k : ℕ) → view ut wb k ≡ none))
        (sym (all_free _ entries (λ q. omega (arith, once q))))
        (
          record {
            small = h;
            sized = refl;
            total = omega arith;
            once = λ q. omega (arith, once q);
            writing_flag = λ q k. absurd (omega arith);
            buf_flag = λ q k. absurd (omega arith);
            free_flag = λ q k. refl;
            found = λ k q e. let z : none ≡ some q = sym (ut.hash_find-null k) ∙ e in absurd (cc);
            hashed = λ q k. absurd (omega arith);
          },
          λ k.
              ap
                (page_of ut
                  (λ p. record { lpa = page_unmapped; data_of = memory p; wflag = false }))
                (ut.hash_find-null k),
        )

  -- A page that has just been filled is not being written.
  writing-store :
      {cap p : ℕ} {wb : WriteBuffer ut} (src : Data)
      → IsValid ut cap (some p) wb
      → is_writing ut (store_pg ut wb p src) (wb.pg p).lpa ≡ false
  unfolding is_writing store_pg
  writing-store {cap} {p} {wb} src v =
      ap (flag_of ut filled) (v.hashed p (omega (arith, same_self p)))
      ∙ ap (λ (w : WbPg). w.wflag) (update_self wb.pg p _)
      ∙ v.free_flag p (omega (arith, same_self p))
    where
      filled : ℕ → WbPg
      filled = update wb.pg p (record (wb.pg p) { data_of = src })

  put-is_writing :
      {cap : ℕ} {wb : WriteBuffer ut} (lpa : ℕ) (src : Data)
      → IsValid ut cap none wb
      → (fb_put_pg ut wb lpa src).0 ≡ success
      → is_writing ut (fb_put_pg ut wb lpa src).1 lpa ≡ false
  put-is_writing {cap} {wb} lpa src v ok =
      put_cases ut wb lpa src (λ r. r.0 ≡ success → is_writing ut r.1 lpa ≡ false)
        (λ e f z. absurd (cc))
        (λ p l e f _.
          subst (λ k. is_writing ut (store_pg ut (claim_pg ut wb p lpa) p src) k ≡ false)
            (lpa-claim ut wb p lpa) (writing-store src (claimed ut p l v e f)))
        (λ p e _.
          subst (λ k. is_writing ut (store_pg ut (unlist_pg ut wb p) p src) k ≡ false)
            (lpa-unlist ut wb p ∙ (v.found lpa p e).0) (writing-store src (unlisted ut p v e)))
        ok

  -- A page that is put, perhaps while its older version is being written, survives the removal of the
  -- written pages.
  pub fb_rm_written_pgs-put :
      {cap : ℕ} {wb : WriteBuffer ut} (lpa : ℕ) (src : Data)
      → IsValid ut cap none wb
      → (fb_put_pg ut wb lpa src).0 ≡ success
      → view ut (fb_rm_written_pgs ut (fb_put_pg ut wb lpa src).1) lpa ≡ some src
  fb_rm_written_pgs-put {cap} {wb} lpa src v ok =
      (fb_rm_written_pgs-Cleaned ut put (fb_put_pg-IsValid ut lpa src v)).remaining lpa
      ∙ ap (λ b. if b then none else view ut put lpa) (put-is_writing lpa src v ok)
      ∙ fb_put_pg-view ut lpa src v ok lpa
      ∙ if_eq (some src) (view ut wb lpa) (λ i. lpa)
    where
      put : WriteBuffer ut
      put = (fb_put_pg ut wb lpa src).1

  -- When `fb_put_pg` fails on a buffer of `cap` entries none of which is being written, then the flush
  -- of up to `cap` pages succeeds, and once the pages are removed the same `fb_put_pg` succeeds.
  pub flush_makes_room :
      {cap : ℕ} (nr_pgs : ℕ) (wb : WriteBuffer ut) (lpa : ℕ) (src : Data)
      → IsValid ut cap none wb
      → (fb_put_pg ut wb lpa src).0 ≡ error
      → wb.writing_pgs ≡ []
      → 0 < nr_pgs
      → nr_pgs ≤ cap
      → (lpas : List ℕ) × (pages : List Data) × (wb' : WriteBuffer ut) × (fb_get_pgs_to_write ut wb
            nr_pgs
          ≡ some (success, lpas, pages, wb'))
        × ((fb_put_pg ut (fb_rm_written_pgs ut wb') lpa src).0 ≡ success)
  flush_makes_room {cap} nr_pgs wb lpa src v failed idle pos fits =
      let (no_page, no_free) = (fb_put_pg_error ut wb lpa src).0.0 failed in
      let (lpas, pages, wb', t, taken) =
        fb_get_pgs_to_write_enough ut nr_pgs wb v
          (omega (arith, v.total, ap length no_free, ap length idle)) in
      let cleaned = fb_rm_written_pgs-Cleaned ut wb' taken.valid in
      (lpas, pages, wb', t, room wb' (omega (arith, cleaned.free, taken.writing)))
    where
      room :
          (wb' : WriteBuffer ut)
          → 0 < length (fb_rm_written_pgs ut wb').free_pgs
          → (fb_put_pg ut (fb_rm_written_pgs ut wb') lpa src).0 ≡ success
      room wb' some_free = elim (Status-cases (fb_put_pg ut (fb_rm_written_pgs ut wb') lpa src).0) [
        | inl e ↦ e
        | inr e ↦ absurd (
            omega (
              arith,
              some_free,
              ap length ((fb_put_pg_error ut (fb_rm_written_pgs ut wb') lpa src).0.0 e).1,
            ))
      ]
