-- ===== src/WriteBuffer/Detach.antt =====
-- Taking an entry out of its list keeps the invariant, with the entry held.
use flashbench.Common.{
  ℕ, ◌+◌, ◌<◌, ◌≡◌, ◌≢◌, sym, ap, subst, ◌∙◌, inl, inr, true, false, Option, none, some, arith,
  length, update, update_self, update_ne, ℕ_discrete, dec_lt, Bool-cases,
}
use flashbench.Common.Counts.{count, same, same_self, same_ne}
use flashbench.Ut.{Ut}
use flashbench.Ut.Lists.{count-dl_delete, length-dl_delete}
use flashbench.Ut.Tables.{find-add_self, find-add_ne}
use flashbench.WriteBuffer.{
  WriteBuffer, WbPg, fb_wb_reset_writing_pg, fb_wb_reset_buf_pg, unlist_pg, claim_pg,
}
use flashbench.WriteBuffer.Invariant.{
  IsValid, listed, flagged, lpa-flagged, wflag-flagged_self, wflag-flagged_ne,
}

module _ (ut : Ut) where
  open ut use {hash_find}

  -- Taking an entry out of the list of buffered pages.
  pub reset_buf-IsValid :
      {cap p : ℕ} {wb : WriteBuffer ut}
      → IsValid ut cap none wb
      → 0 < count p wb.buf_pgs
      → IsValid ut cap (some p) (fb_wb_reset_buf_pg ut wb p)
  unfolding fb_wb_reset_buf_pg
  reset_buf-IsValid {cap} {p} {wb} v h = record {
    small = v.small;
    sized = omega (arith, v.sized, shorter);
    total = omega (arith, v.total, shorter);
    once = λ q. omega (arith, v.once q, fewer q);
    writing_flag = v.writing_flag;
    buf_flag = λ q k. v.buf_flag q (omega (arith, fewer q));
    free_flag = λ q k. elim (ℕ_discrete p q) [
      | yes e ↦ subst (λ i. (wb.pg i).wflag ≡ false) e (v.buf_flag p h)
      | no ne ↦ v.free_flag q (omega (arith, same_ne ne))
    ];
    found = λ k q e. ((v.found k q e).0, omega (arith, (v.found k q e).1, fewer q));
    hashed = λ q k. v.hashed q (omega (arith, fewer q));
  }
    where
      fewer : (q : ℕ) → count q (ut.dl_delete wb.buf_pgs p) + same p q ≡ count q wb.buf_pgs
      fewer q = count-dl_delete ut q p wb.buf_pgs h

      shorter : length (ut.dl_delete wb.buf_pgs p) + 1 ≡ length wb.buf_pgs
      shorter = length-dl_delete ut p wb.buf_pgs h

  -- Taking an entry out of the list of pages that are being written; its flag is cleared.
  pub reset_writing-IsValid :
      {cap p : ℕ} {wb : WriteBuffer ut}
      → IsValid ut cap none wb
      → 0 < count p wb.writing_pgs
      → IsValid ut cap (some p) (fb_wb_reset_writing_pg ut wb p)
  unfolding fb_wb_reset_writing_pg
  reset_writing-IsValid {cap} {p} {wb} v h = record {
    small = v.small;
    sized = v.sized;
    total = omega (arith, v.total, shorter);
    once = λ q. omega (arith, v.once q, fewer q);
    writing_flag = λ q k.
        wflag-flagged_ne wb.pg p false q (λ e. gone q e k)
        ∙ v.writing_flag q (omega (arith, fewer q));
    buf_flag = λ q k. cleared q (λ ne. v.buf_flag q k);
    free_flag = λ q k. cleared q (λ ne. v.free_flag q (omega (arith, same_ne ne)));
    found = λ k q e. (
      lpa-flagged wb.pg p false q ∙ (v.found k q e).0,
      omega (arith, (v.found k q e).1, fewer q),
    );
    hashed = λ q k.
        ap (hash_find wb.hash_pgs) (lpa-flagged wb.pg p false q)
        ∙ v.hashed q (omega (arith, fewer q));
  }
    where
      fewer : (q : ℕ) → count q (ut.dl_delete wb.writing_pgs p) + same p q ≡ count q wb.writing_pgs
      fewer q = count-dl_delete ut q p wb.writing_pgs h

      shorter : length (ut.dl_delete wb.writing_pgs p) + 1 ≡ length wb.writing_pgs
      shorter = length-dl_delete ut p wb.writing_pgs h

      gone : (q : ℕ) → p ≡ q → 0 < count q (ut.dl_delete wb.writing_pgs p) → ⊥
      gone q e k = omega (
        arith,
        fewer p,
        same_self p,
        v.once p,
        ap (λ i. count i (ut.dl_delete wb.writing_pgs p)) e,
      )

      cleared :
          (q : ℕ) → (p ≢ q → (wb.pg q).wflag ≡ false) → (flagged wb.pg p false q).wflag ≡ false
      cleared q old = elim (ℕ_discrete p q) [
        | yes e ↦
            subst (λ i. (flagged wb.pg p false i).wflag ≡ false) e
              (wflag-flagged_self wb.pg p false)
        | no ne ↦ wflag-flagged_ne wb.pg p false q ne ∙ old ne
      ]

  -- An entry that the hash table finds leaves the list that its flag names.
  pub unlist-IsValid :
      {cap p : ℕ} {wb : WriteBuffer ut}
      → IsValid ut cap none wb
      → 0 < listed ut wb p
      → IsValid ut cap (some p) (unlist_pg ut wb p)
  unfolding unlist_pg
  unlist-IsValid {cap} {p} {wb} v h = elim (Bool-cases (wb.pg p).wflag) [
    | inl e ↦ rw e (reset_writing-IsValid v (omega (arith, in_buf e)))
    | inr e ↦ rw e (reset_buf-IsValid v (omega (arith, in_writing e)))
  ]
    where
      in_buf : (wb.pg p).wflag ≡ true → count p wb.buf_pgs ≡ 0
      in_buf e = elim (dec_lt 0 (count p wb.buf_pgs)) [
        | yes k ↦ (let d : true ≡ false = sym e ∙ v.buf_flag p k in cc)
        | no k ↦ omega arith
      ]

      in_writing : (wb.pg p).wflag ≡ false → count p wb.writing_pgs ≡ 0
      in_writing e = elim (dec_lt 0 (count p wb.writing_pgs)) [
        | yes k ↦ (let d : true ≡ false = sym (v.writing_flag p k) ∙ e in cc)
        | no k ↦ omega arith
      ]

  -- A free entry is claimed for an address that no entry has.
  pub claim-IsValid :
      {cap p lpa : ℕ} {wb : WriteBuffer ut}
      → IsValid ut cap none wb
      → 0 < count p wb.free_pgs
      → hash_find wb.hash_pgs lpa ≡ none
      → IsValid ut cap (some p) (claim_pg ut wb p lpa)
  unfolding claim_pg
  claim-IsValid {cap} {p} {lpa} {wb} v h e = record {
    small = v.small;
    sized = v.sized;
    total = omega (arith, v.total, shorter);
    once = λ q. omega (arith, v.once q, fewer q);
    writing_flag = λ q k. flag q ∙ v.writing_flag q k;
    buf_flag = λ q k. flag q ∙ v.buf_flag q k;
    free_flag = λ q k. flag q ∙ v.free_flag q (omega (arith, fewer q));
    found = λ k q f. find_claimed k q f (ℕ_discrete lpa k);
    hashed = λ q k. hash_claimed q k (ℕ_discrete p q);
  }
    where
      fewer : (q : ℕ) → count q (ut.dl_delete wb.free_pgs p) + same p q ≡ count q wb.free_pgs
      fewer q = count-dl_delete ut q p wb.free_pgs h

      shorter : length (ut.dl_delete wb.free_pgs p) + 1 ≡ length wb.free_pgs
      shorter = length-dl_delete ut p wb.free_pgs h

      named : ℕ → WbPg
      named = update wb.pg p (record (wb.pg p) { lpa = lpa })

      flag : (q : ℕ) → (named q).wflag ≡ (wb.pg q).wflag
      flag q = ground (arith, ap (λ i. (wb.pg i).wflag) {x = p} {y = q})

      named_self : (named p).lpa ≡ lpa
      named_self = ap (λ (w : WbPg). w.lpa) (update_self wb.pg p _)

      named_ne : {q : ℕ} → p ≢ q → (named q).lpa ≡ (wb.pg q).lpa
      named_ne ne = ap (λ (w : WbPg). w.lpa) (update_ne wb.pg _ ne)

      find : ℕ → Option ℕ
      find = hash_find (ut.hash_add wb.hash_pgs lpa p)

      find_self : find lpa ≡ some p
      find_self = find-add_self ut wb.hash_pgs lpa p e

      find_ne : {k : ℕ} → lpa ≢ k → find k ≡ hash_find wb.hash_pgs k
      find_ne {k} ne = find-add_ne ut wb.hash_pgs lpa p e k ne

      find_claimed :
          (k q : ℕ)
          → find k ≡ some q
          → Dec (lpa ≡ k)
          → ((named q).lpa ≡ k) × (0 < listed ut wb q + same p q)
      find_claimed k q f (yes d) =
          let both : some p ≡ some q = sym find_self ∙ ap find d ∙ f in
          let pq : p ≡ q = cc in
          subst (λ i. ((named i).lpa ≡ k) × (0 < listed ut wb i + same p i)) pq
            (named_self ∙ d, omega (arith, same_self p))
      find_claimed k q f (no ne) =
          let (old, holds) = v.found k q (sym (find_ne ne) ∙ f) in
          (
            named_ne
                  (λ pq. absurd (omega (arith, v.once q, holds, ap (λ i. count i wb.free_pgs) pq)))
                ∙ old,
            omega (arith, holds),
          )

      hash_claimed :
          (q : ℕ) → 0 < listed ut wb q + same p q → Dec (p ≡ q) → find (named q).lpa ≡ some q
      hash_claimed q k (yes pq) =
          subst (λ i. find (named i).lpa ≡ some i) pq (ap find named_self ∙ find_self)
      hash_claimed q k (no ne) =
          let old = v.hashed q (omega (arith, same_ne ne)) in
          ap find (named_ne ne)
          ∙ find_ne (λ d. let z : none ≡ some q = sym e ∙ ap (hash_find wb.hash_pgs) d ∙ old in cc)
          ∙ old
