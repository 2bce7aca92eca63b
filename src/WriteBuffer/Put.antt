-- ===== src/WriteBuffer/Put.antt =====
-- `fb_put_pg` and `fb_rm_buf_pg`: what a caller may rely on.
use flashbench.Common.{
  ℕ, ◌<◌, ◌≡◌, ◌↔◌, refl, sym, ap, subst, ◌∙◌, inl, inr, false, none, some, List, [], ◌∷◌, Status,
  success, error, arith, ◌==◌, if◌then◌else◌, update_self, ℕ_discrete, Option-cases, List-cases,
  Bool-cases, if_eq, if_ne,
}
use flashbench.Common.Counts.{count, count_head}
use flashbench.Ut.{Ut}
use flashbench.WriteBuffer.{
  WriteBuffer, WbPg, Data, fb_put_pg, fb_rm_buf_pg, unlist_pg, claim_pg, store_pg, retire_pg,
}
use flashbench.WriteBuffer.Invariant.{IsValid, lpa-flagged}
use flashbench.WriteBuffer.Detach.{unlist-IsValid, claim-IsValid}
use flashbench.WriteBuffer.Attach.{store-IsValid, retire-IsValid}
use flashbench.WriteBuffer.View.{view, page_of, view-unlist, view-claim, view-store, view-retire}

module _ (ut : Ut) where
  open ut use {hash_find}

  pub lpa-unlist : (wb : WriteBuffer ut) (p : ℕ) → ((unlist_pg ut wb p).pg p).lpa ≡ (wb.pg p).lpa
  unfolding unlist_pg
  lpa-unlist wb p = elim (Bool-cases (wb.pg p).wflag) [
    | inl e ↦ rw e (lpa-flagged wb.pg p false p)
    | inr e ↦ rw e refl
  ]

  pub lpa-claim : (wb : WriteBuffer ut) (p lpa : ℕ) → ((claim_pg ut wb p lpa).pg p).lpa ≡ lpa
  unfolding claim_pg
  lpa-claim wb p lpa = ap (λ (w : WbPg). w.lpa) (update_self wb.pg p _)

  module _ (wb : WriteBuffer ut) (lpa : ℕ) (src : Data) where
    put_hit :
        (p : ℕ)
        → hash_find wb.hash_pgs lpa ≡ some p
        → fb_put_pg ut wb lpa src ≡ (success, store_pg ut (unlist_pg ut wb p) p src)
    unfolding fb_put_pg
    put_hit p e = rw (e, fb_put_pg)

    put_full :
        hash_find wb.hash_pgs lpa ≡ none → wb.free_pgs ≡ [] → fb_put_pg ut wb lpa src ≡ (error, wb)
    unfolding fb_put_pg
    put_full e f = ground arith

    put_new :
        (p : ℕ) (l : List ℕ)
        → hash_find wb.hash_pgs lpa ≡ none
        → wb.free_pgs ≡ p ∷ l
        → fb_put_pg ut wb lpa src ≡ (success, store_pg ut (claim_pg ut wb p lpa) p src)
    unfolding fb_put_pg
    put_new p l e f = ground arith

    -- The three ways through `fb_put_pg`.
    pub put_cases {κ} :
        (P : Status × WriteBuffer ut → Type κ)
        → (hash_find wb.hash_pgs lpa ≡ none → wb.free_pgs ≡ [] → P (error, wb))
        → ((p : ℕ) (l : List ℕ)
            → hash_find wb.hash_pgs lpa ≡ none
            → wb.free_pgs ≡ p ∷ l
            → P (success, store_pg ut (claim_pg ut wb p lpa) p src))
        → ((p : ℕ)
            → hash_find wb.hash_pgs lpa ≡ some p
            → P (success, store_pg ut (unlist_pg ut wb p) p src))
        → P (fb_put_pg ut wb lpa src)
    put_cases P full new hit = elim (Option-cases (hash_find wb.hash_pgs lpa)) [
      | inl e ↦ elim (List-cases wb.free_pgs) [
        | inl f ↦ subst P (sym (put_full e f)) (full e f)
        | inr (p, l, f) ↦ subst P (sym (put_new p l e f)) (new p l e f)
      ]
      | inr (p, e) ↦ subst P (sym (put_hit p e)) (hit p e)
    ]

  free_head :
      (wb : WriteBuffer ut) (p : ℕ) (l : List ℕ) → wb.free_pgs ≡ p ∷ l → 0 < count p wb.free_pgs
  free_head wb p l f = rw f (count_head p l)

  pub claimed :
      {cap lpa : ℕ} {wb : WriteBuffer ut} (p : ℕ) (l : List ℕ)
      → IsValid ut cap none wb
      → hash_find wb.hash_pgs lpa ≡ none
      → wb.free_pgs ≡ p ∷ l
      → IsValid ut cap (some p) (claim_pg ut wb p lpa)
  claimed {wb = wb} p l v e f = claim-IsValid ut v (free_head wb p l f) e

  pub unlisted :
      {cap lpa : ℕ} {wb : WriteBuffer ut} (p : ℕ)
      → IsValid ut cap none wb
      → hash_find wb.hash_pgs lpa ≡ some p
      → IsValid ut cap (some p) (unlist_pg ut wb p)
  unlisted {lpa = lpa} p v e = unlist-IsValid ut v (omega (arith, (v.found lpa p e).1))

  -- `fb_put_pg` keeps the invariant, whether it succeeds or not.
  pub fb_put_pg-IsValid :
      {cap : ℕ} {wb : WriteBuffer ut} (lpa : ℕ) (src : Data)
      → IsValid ut cap none wb
      → IsValid ut cap none (fb_put_pg ut wb lpa src).1
  fb_put_pg-IsValid {cap} {wb} lpa src v =
      put_cases wb lpa src (λ r. IsValid ut cap none r.1) (λ e f. v)
        (λ p l e f. store-IsValid ut src (claimed p l v e f))
        (λ p e. store-IsValid ut src (unlisted p v e))

  -- A successful `fb_put_pg` on a valid buffer gives the address the new page, and leaves the pages
  -- of all other addresses as they were.
  pub fb_put_pg-view :
      {cap : ℕ} {wb : WriteBuffer ut} (lpa : ℕ) (src : Data)
      → IsValid ut cap none wb
      → (fb_put_pg ut wb lpa src).0 ≡ success
      → (k : ℕ)
      → view ut (fb_put_pg ut wb lpa src).1 k ≡ (if lpa == k then some src else view ut wb k)
  fb_put_pg-view {cap} {wb} lpa src v ok k =
      put_cases wb lpa src
        (λ r. r.0 ≡ success → view ut r.1 k ≡ (if lpa == k then some src else view ut wb k))
        (λ e f z. absurd (cc)) (λ p l e f _. view-store ut src k (claimed p l v e f) ∙ by_new p e)
        (λ p e _. view-store ut src k (unlisted p v e) ∙ by_hit p e) ok
    where
      by_new :
          (p : ℕ)
          → hash_find wb.hash_pgs lpa ≡ none
          → (if ((claim_pg ut wb p lpa).pg p).lpa == k
              then some src
              else view ut (claim_pg ut wb p lpa) k)
            ≡ (if lpa == k then some src else view ut wb k)
      by_new p e = rw (lpa-claim wb p lpa) elim (ℕ_discrete lpa k) [
        | yes d ↦
            if_eq (some src) (view ut (claim_pg ut wb p lpa) k) d
            ∙ sym (if_eq (some src) (view ut wb k) d)
        | no ne ↦
            if_ne (some src) (view ut (claim_pg ut wb p lpa) k) ne
            ∙ view-claim ut wb p lpa k e ne
            ∙ sym (if_ne (some src) (view ut wb k) ne)
      ]

      by_hit :
          (p : ℕ)
          → hash_find wb.hash_pgs lpa ≡ some p
          → (if ((unlist_pg ut wb p).pg p).lpa == k
              then some src
              else view ut (unlist_pg ut wb p) k)
            ≡ (if lpa == k then some src else view ut wb k)
      by_hit p e = rw (lpa-unlist wb p ∙ (v.found lpa p e).0, view-unlist ut wb p k) refl

  view_none : (wb : WriteBuffer ut) (k : ℕ) → hash_find wb.hash_pgs k ≡ none → view ut wb k ≡ none
  unfolding view
  view_none wb k e = ap (page_of ut wb.pg) e

  view_some :
      (wb : WriteBuffer ut) (k p : ℕ)
      → hash_find wb.hash_pgs k ≡ some p
      → view ut wb k ≡ some (wb.pg p).data_of
  unfolding view
  view_some wb k p e = ap (page_of ut wb.pg) e

  -- `fb_put_pg` fails exactly when the buffer holds no page for the address and no entry is free, and
  -- it then leaves the buffer as it was.
  pub fb_put_pg_error :
      (wb : WriteBuffer ut) (lpa : ℕ) (src : Data)
      → (((fb_put_pg ut wb lpa src).0 ≡ error) ↔ ((view ut wb lpa ≡ none) × (wb.free_pgs ≡ [])))
        × ((fb_put_pg ut wb lpa src).0 ≡ error → (fb_put_pg ut wb lpa src).1 ≡ wb)
  fb_put_pg_error wb lpa src =
      put_cases wb lpa src
        (λ r.
          ((r.0 ≡ error) ↔ ((view ut wb lpa ≡ none) × (wb.free_pgs ≡ [])))
          × (r.0 ≡ error → r.1 ≡ wb))
        (λ e f. (((λ _. (view_none wb lpa e, f)), (λ _. refl)), (λ _. refl)))
        (λ p l e f. (
          ((λ z. absurd (cc)), (λ z. let y : [] ≡ p ∷ l = sym z.1 ∙ f in absurd (cc))),
          (λ z. absurd (cc)),
        ))
        (λ p e. (
          (
            (λ z. absurd (cc)),
            (λ z.
                let y : none ≡ some (wb.pg p).data_of = sym z.0 ∙ view_some wb lpa p e in
                absurd (cc)),
          ),
          (λ z. absurd (cc)),
        ))

  -- The ways through `fb_rm_buf_pg`.
  rm_miss :
      (wb : WriteBuffer ut) (lpa : ℕ)
      → hash_find wb.hash_pgs lpa ≡ none
      → fb_rm_buf_pg ut wb lpa ≡ wb
  unfolding fb_rm_buf_pg
  rm_miss wb lpa e = rw (e, fb_rm_buf_pg) refl

  rm_hit :
      (wb : WriteBuffer ut) (lpa p : ℕ)
      → hash_find wb.hash_pgs lpa ≡ some p
      → fb_rm_buf_pg ut wb lpa ≡ retire_pg ut (unlist_pg ut wb p) p
  unfolding fb_rm_buf_pg
  rm_hit wb lpa p e = rw (e, fb_rm_buf_pg) refl

  pub rm_cases {κ} :
      (P : WriteBuffer ut → Type κ) (wb : WriteBuffer ut) (lpa : ℕ)
      → P wb
      → ((p : ℕ) → hash_find wb.hash_pgs lpa ≡ some p → P (retire_pg ut (unlist_pg ut wb p) p))
      → P (fb_rm_buf_pg ut wb lpa)
  rm_cases P wb lpa miss hit = elim (Option-cases (hash_find wb.hash_pgs lpa)) [
    | inl e ↦ subst P (sym (rm_miss wb lpa e)) miss
    | inr (p, e) ↦ subst P (sym (rm_hit wb lpa p e)) (hit p e)
  ]

  -- `fb_rm_buf_pg` keeps the invariant.
  pub fb_rm_buf_pg-IsValid :
      {cap : ℕ} {wb : WriteBuffer ut} (lpa : ℕ)
      → IsValid ut cap none wb
      → IsValid ut cap none (fb_rm_buf_pg ut wb lpa)
  fb_rm_buf_pg-IsValid {cap} {wb} lpa v =
      rm_cases (IsValid ut cap none) wb lpa v (λ p e. retire-IsValid ut (unlisted p v e))

  -- After `fb_rm_buf_pg` a valid buffer holds no page for the address, and holds what it held for all
  -- others.
  pub fb_rm_buf_pg-view :
      {cap : ℕ} {wb : WriteBuffer ut} (lpa : ℕ)
      → IsValid ut cap none wb
      → (k : ℕ) → view ut (fb_rm_buf_pg ut wb lpa) k ≡ (if lpa == k then none else view ut wb k)
  fb_rm_buf_pg-view {cap} {wb} lpa v k = elim (Option-cases (hash_find wb.hash_pgs lpa)) [
    | inl e ↦ ap (λ w. view ut w k) (rm_miss wb lpa e) ∙ missed e (ℕ_discrete lpa k)
    | inr (p, e) ↦
        ap (λ w. view ut w k) (rm_hit wb lpa p e)
        ∙ view-retire ut k (unlisted p v e)
        ∙ rw (lpa-unlist wb p ∙ (v.found lpa p e).0, view-unlist ut wb p k) refl
  ]
    where
      missed :
          hash_find wb.hash_pgs lpa ≡ none
          → Dec (lpa ≡ k)
          → view ut wb k ≡ (if lpa == k then none else view ut wb k)
      missed e (yes d) =
          ap (view ut wb) (sym d) ∙ view_none wb lpa e ∙ sym (if_eq none (view ut wb k) d)
      missed e (no ne) = sym (if_ne none (view ut wb k) ne)
