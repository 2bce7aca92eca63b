-- ===== src/WriteBuffer/View.antt =====
-- What the write buffer holds, as a map from logical addresses to pages, and what the steps of its
-- operations do to it.
use flashbench.Common.{
  ℕ, ◌≡◌, ◌≢◌, refl, sym, ap, ◌∙◌, inl, inr, true, false, Option, none, some, Status, success,
  error, arith, ◌==◌, if◌then◌else◌, update, update_self, update_ne, ℕ_discrete, Option-cases,
  Bool-cases, if_eq, if_ne,
}
use flashbench.Common.Counts.{same_self}
use flashbench.Ut.{Ut}
use flashbench.Ut.Tables.{find-add_ne, find-del_self, find-del_ne}
use flashbench.WriteBuffer.{
  WriteBuffer, WbPg, Data, fb_wb_set_writing_pg, fb_wb_reset_writing_pg, fb_wb_reset_buf_pg,
  fb_get_pg_data, unlist_pg, claim_pg, store_pg, retire_pg,
}
use flashbench.WriteBuffer.Invariant.{IsValid, flagged, data_of-flagged}

-- The answer of `fb_get_pg_data` for what the buffer holds.
abbrev pub answer : Option Data → Status × Option Data
answer none = (error, none)
answer (some d) = (success, some d)

module _ (ut : Ut) where
  open ut use {hash_find}

  abbrev pub page_of : (ℕ → WbPg) → Option ℕ → Option Data
  page_of pg none = none
  page_of pg (some p) = some (pg p).data_of

  -- The page that the buffer holds for a logical address.
  unfoldable pub view : WriteBuffer ut → ℕ → Option Data
  view wb k = page_of wb.pg (hash_find wb.hash_pgs k)

  -- Pages with the same contents are the same to a reader.
  page_of_same :
      (pg pg' : ℕ → WbPg)
      → ((q : ℕ) → (pg' q).data_of ≡ (pg q).data_of)
      → (o : Option ℕ) → page_of pg' o ≡ page_of pg o
  page_of_same pg pg' h none = refl
  page_of_same pg pg' h (some p) = ap some (h p)

  pub view-reset_writing :
      (wb : WriteBuffer ut) (p k : ℕ) → view (fb_wb_reset_writing_pg ut wb p) k ≡ view wb k
  unfolding view fb_wb_reset_writing_pg
  view-reset_writing wb p k =
      page_of_same wb.pg (flagged wb.pg p false) (data_of-flagged wb.pg p false)
        (hash_find wb.hash_pgs k)

  pub view-set_writing :
      (wb : WriteBuffer ut) (p k : ℕ) → view (fb_wb_set_writing_pg ut wb p) k ≡ view wb k
  unfolding view fb_wb_set_writing_pg
  view-set_writing wb p k =
      page_of_same wb.pg (flagged wb.pg p true) (data_of-flagged wb.pg p true)
        (hash_find wb.hash_pgs k)

  pub view-reset_buf :
      (wb : WriteBuffer ut) (p k : ℕ) → view (fb_wb_reset_buf_pg ut wb p) k ≡ view wb k
  unfolding view fb_wb_reset_buf_pg
  view-reset_buf wb p k = refl

  pub view-unlist : (wb : WriteBuffer ut) (p k : ℕ) → view (unlist_pg ut wb p) k ≡ view wb k
  unfolding unlist_pg
  view-unlist wb p k = elim (Bool-cases (wb.pg p).wflag) [
    | inl e ↦ rw e (view-reset_writing wb p k)
    | inr e ↦ rw e (view-reset_buf wb p k)
  ]

  -- Claiming an entry for a new address leaves the other addresses alone.
  pub view-claim :
      (wb : WriteBuffer ut) (p lpa k : ℕ)
      → hash_find wb.hash_pgs lpa ≡ none
      → lpa ≢ k
      → view (claim_pg ut wb p lpa) k ≡ view wb k
  unfolding view claim_pg
  view-claim wb p lpa k e ne =
      page_of_same wb.pg (update wb.pg p (record (wb.pg p) { lpa = lpa }))
        (λ q. ground (arith, ap (λ i. (wb.pg i).data_of) {x = p} {y = q}))
        (hash_find (ut.hash_add wb.hash_pgs lpa p) k)
      ∙ ap (page_of wb.pg) (find-add_ne ut wb.hash_pgs lpa p e k ne)

  held_found :
      {cap p : ℕ} {wb : WriteBuffer ut}
      → IsValid ut cap (some p) wb
      → hash_find wb.hash_pgs (wb.pg p).lpa ≡ some p
  held_found {cap} {p} {wb} v = v.hashed p (omega (arith, same_self p))

  only :
      {cap p : ℕ} {wb : WriteBuffer ut}
      → IsValid ut cap (some p) wb
      → (i : ℕ) → hash_find wb.hash_pgs i ≡ some p
      → i ≡ (wb.pg p).lpa
  only {cap} {p} v i e = sym (v.found i p e).0

  -- Filling the held entry gives its address the new page.
  pub view-store :
      {cap p : ℕ} {wb : WriteBuffer ut} (src : Data) (k : ℕ)
      → IsValid ut cap (some p) wb
      → view (store_pg ut wb p src) k ≡ (if (wb.pg p).lpa == k then some src else view wb k)
  unfolding view store_pg
  view-store {cap} {p} {wb} src k v = elim (ℕ_discrete (wb.pg p).lpa k) [
    | yes d ↦
        ap (page_of filled) (ap (hash_find wb.hash_pgs) (sym d) ∙ held_found v)
        ∙ ap (λ (w : WbPg). some w.data_of) (update_self wb.pg p _)
        ∙ sym (if_eq (some src) (page_of wb.pg (hash_find wb.hash_pgs k)) d)
    | no ne ↦
        others (hash_find wb.hash_pgs k)
          (λ q e d. ne (ap (λ i. (wb.pg i).lpa) d ∙ (v.found k q e).0))
        ∙ sym (if_ne (some src) (page_of wb.pg (hash_find wb.hash_pgs k)) ne)
  ]
    where
      filled : ℕ → WbPg
      filled = update wb.pg p (record (wb.pg p) { data_of = src })

      others : (o : Option ℕ) → ((q : ℕ) → o ≡ some q → p ≢ q) → page_of filled o ≡ page_of wb.pg o
      others none apart = refl
      others (some q) apart = ap (λ (w : WbPg). some w.data_of) (update_ne wb.pg _ (apart q refl))

  -- Retiring the held entry empties its address.
  pub view-retire :
      {cap p : ℕ} {wb : WriteBuffer ut} (k : ℕ)
      → IsValid ut cap (some p) wb
      → view (retire_pg ut wb p) k ≡ (if (wb.pg p).lpa == k then none else view wb k)
  unfolding view retire_pg
  view-retire {cap} {p} {wb} k v = elim (ℕ_discrete (wb.pg p).lpa k) [
    | yes d ↦
        ap (λ i. page_of wb.pg (hash_find (ut.hash_del wb.hash_pgs p) i)) (sym d)
        ∙ ap (page_of wb.pg) (find-del_self ut wb.hash_pgs (wb.pg p).lpa p (held_found v) (only v))
        ∙ sym (if_eq none (page_of wb.pg (hash_find wb.hash_pgs k)) d)
    | no ne ↦
        ap (page_of wb.pg) (find-del_ne ut wb.hash_pgs (wb.pg p).lpa p (held_found v) (only v) k ne)
        ∙ sym (if_ne none (page_of wb.pg (hash_find wb.hash_pgs k)) ne)
  ]

  -- `fb_get_pg_data` succeeds with the page of the address, and fails if there is none.
  pub fb_get_pg_data-view :
      (wb : WriteBuffer ut) (lpa : ℕ) → fb_get_pg_data ut wb lpa ≡ answer (view wb lpa)
  unfolding view fb_get_pg_data
  fb_get_pg_data-view wb lpa = elim (Option-cases (hash_find wb.hash_pgs lpa)) [
    | inl e ↦ rw (e, fb_get_pg_data)
    | inr (p, e) ↦ rw (e, fb_get_pg_data)
  ]
