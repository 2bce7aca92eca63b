-- ===== src/WriteBuffer/Attach.antt =====
-- Putting the held entry into a list keeps the invariant, with no entry held.
use flashbench.Common.{
  ℕ, ◌+◌, ◌<◌, ◌≡◌, ◌≢◌, sym, ap, subst, ◌∙◌, true, false, none, some, arith, length, update,
  ℕ_discrete, Option,
}
use flashbench.Common.Counts.{count, same, same_self, same_ne}
use flashbench.Ut.{Ut}
use flashbench.Ut.Lists.{count-dl_append, length-dl_append}
use flashbench.Ut.Tables.{find-del_self, find-del_ne}
use flashbench.WriteBuffer.{WriteBuffer, WbPg, Data, fb_wb_set_writing_pg, store_pg, retire_pg}
use flashbench.WriteBuffer.Invariant.{
  IsValid, listed, flagged, lpa-flagged, wflag-flagged_self, wflag-flagged_ne,
}

module _ (ut : Ut) where
  open ut use {hash_find}

  -- The held entry is in no list.
  held_alone :
      {cap p : ℕ} {wb : WriteBuffer ut}
      → IsValid ut cap (some p) wb
      → count p wb.free_pgs + listed ut wb p ≡ 0
  held_alone {cap} {p} {wb} v = omega (arith, v.once p, same_self p)

  -- The held entry is filled and goes to the end of the buffered pages.
  pub store-IsValid :
      {cap p : ℕ} {wb : WriteBuffer ut} (src : Data)
      → IsValid ut cap (some p) wb
      → IsValid ut cap none (store_pg ut wb p src)
  unfolding store_pg
  store-IsValid {cap} {p} {wb} src v = record {
    small = v.small;
    sized = omega (arith, v.sized, v.total, v.small, longer);
    total = omega (arith, v.total, longer);
    once = λ q. omega (arith, v.once q, more q);
    writing_flag = λ q k. flag q ∙ v.writing_flag q k;
    buf_flag = λ q k. flag q ∙ now_buf q (omega (arith, more q)) (ℕ_discrete p q);
    free_flag = λ q k. flag q ∙ v.free_flag q (omega arith);
    found = λ k q e. (lpa q ∙ (v.found k q e).0, omega (arith, (v.found k q e).1, more q));
    hashed = λ q k. ap (hash_find wb.hash_pgs) (lpa q) ∙ v.hashed q (omega (arith, more q));
  }
    where
      alone : count p wb.free_pgs + listed ut wb p ≡ 0
      alone = held_alone v

      more : (q : ℕ) → count q (ut.dl_append wb.buf_pgs p) ≡ count q wb.buf_pgs + same p q
      more q = count-dl_append ut q p wb.buf_pgs (omega (arith, alone))

      longer : length (ut.dl_append wb.buf_pgs p) ≡ length wb.buf_pgs + 1
      longer = length-dl_append ut p wb.buf_pgs (omega (arith, alone))

      filled : ℕ → WbPg
      filled = update wb.pg p (record (wb.pg p) { data_of = src })

      flag : (q : ℕ) → (filled q).wflag ≡ (wb.pg q).wflag
      flag q = ground (arith, ap (λ i. (wb.pg i).wflag) {x = p} {y = q})

      lpa : (q : ℕ) → (filled q).lpa ≡ (wb.pg q).lpa
      lpa q = ground (arith, ap (λ i. (wb.pg i).lpa) {x = p} {y = q})

      now_buf : (q : ℕ) → 0 < count q wb.buf_pgs + same p q → Dec (p ≡ q) → (wb.pg q).wflag ≡ false
      now_buf q k (yes e) = v.free_flag q (omega (arith, same_self p, ap (same p) e))
      now_buf q k (no ne) = v.buf_flag q (omega (arith, same_ne ne))

  -- The held entry goes to the end of the pages that are being written, and is marked.
  pub set_writing-IsValid :
      {cap p : ℕ} {wb : WriteBuffer ut}
      → IsValid ut cap (some p) wb
      → IsValid ut cap none (fb_wb_set_writing_pg ut wb p)
  unfolding fb_wb_set_writing_pg
  set_writing-IsValid {cap} {p} {wb} v = record {
    small = v.small;
    sized = v.sized;
    total = omega (arith, v.total, longer);
    once = λ q. omega (arith, v.once q, more q);
    writing_flag = λ q k. marked q (omega (arith, more q)) (ℕ_discrete p q);
    buf_flag = λ q k. wflag-flagged_ne wb.pg p true q (apart q (omega arith)) ∙ v.buf_flag q k;
    free_flag = λ q k.
        wflag-flagged_ne wb.pg p true q (apart q (omega arith)) ∙ v.free_flag q (omega arith);
    found = λ k q e.
        (lpa-flagged wb.pg p true q ∙ (v.found k q e).0, omega (arith, (v.found k q e).1, more q));
    hashed = λ q k.
        ap (hash_find wb.hash_pgs) (lpa-flagged wb.pg p true q)
        ∙ v.hashed q (omega (arith, more q));
  }
    where
      alone : count p wb.free_pgs + listed ut wb p ≡ 0
      alone = held_alone v

      more : (q : ℕ) → count q (ut.dl_append wb.writing_pgs p) ≡ count q wb.writing_pgs + same p q
      more q = count-dl_append ut q p wb.writing_pgs (omega (arith, alone))

      longer : length (ut.dl_append wb.writing_pgs p) ≡ length wb.writing_pgs + 1
      longer = length-dl_append ut p wb.writing_pgs (omega (arith, alone))

      apart : (q : ℕ) → 0 < count q wb.free_pgs + listed ut wb q → p ≢ q
      apart q k e = omega (arith, alone, ap (λ i. count i wb.free_pgs + listed ut wb i) e)

      marked :
          (q : ℕ)
          → 0 < count q wb.writing_pgs + same p q
          → Dec (p ≡ q)
          → (flagged wb.pg p true q).wflag ≡ true
      marked q k (yes e) =
          subst (λ i. (flagged wb.pg p true i).wflag ≡ true) e (wflag-flagged_self wb.pg p true)
      marked q k (no ne) =
          wflag-flagged_ne wb.pg p true q ne ∙ v.writing_flag q (omega (arith, same_ne ne))

  -- The held entry leaves the hash table and goes to the end of the free entries.
  pub retire-IsValid :
      {cap p : ℕ} {wb : WriteBuffer ut}
      → IsValid ut cap (some p) wb
      → IsValid ut cap none (retire_pg ut wb p)
  unfolding retire_pg
  retire-IsValid {cap} {p} {wb} v = record {
    small = v.small;
    sized = v.sized;
    total = omega (arith, v.total, longer);
    once = λ q. omega (arith, v.once q, more q);
    writing_flag = v.writing_flag;
    buf_flag = v.buf_flag;
    free_flag = λ q k. v.free_flag q (omega (arith, more q));
    found = λ k q e. still_found k q e (ℕ_discrete key k);
    hashed = λ q k. find_ne (keys_apart q (omega arith)) ∙ v.hashed q (omega arith);
  }
    where
      alone : count p wb.free_pgs + listed ut wb p ≡ 0
      alone = held_alone v

      more : (q : ℕ) → count q (ut.dl_append wb.free_pgs p) ≡ count q wb.free_pgs + same p q
      more q = count-dl_append ut q p wb.free_pgs (omega (arith, alone))

      longer : length (ut.dl_append wb.free_pgs p) ≡ length wb.free_pgs + 1
      longer = length-dl_append ut p wb.free_pgs (omega (arith, alone))

      key : ℕ
      key = (wb.pg p).lpa

      there : hash_find wb.hash_pgs key ≡ some p
      there = v.hashed p (omega (arith, same_self p))

      find : ℕ → Option ℕ
      find = hash_find (ut.hash_del wb.hash_pgs p)

      only : (i : ℕ) → hash_find wb.hash_pgs i ≡ some p → i ≡ key
      only i e = sym (v.found i p e).0

      find_self : find key ≡ none
      find_self = find-del_self ut wb.hash_pgs key p there only

      find_ne : {j : ℕ} → key ≢ j → find j ≡ hash_find wb.hash_pgs j
      find_ne {j} ne = find-del_ne ut wb.hash_pgs key p there only j ne

      keys_apart : (q : ℕ) → 0 < listed ut wb q → key ≢ (wb.pg q).lpa
      keys_apart q k e =
          let both : some p ≡ some q =
            sym there ∙ ap (hash_find wb.hash_pgs) e ∙ v.hashed q (omega arith) in
          let pq : p ≡ q = cc in omega (arith, alone, ap (listed ut wb) pq)

      still_found :
          (k q : ℕ)
          → find k ≡ some q
          → Dec (key ≡ k)
          → ((wb.pg q).lpa ≡ k) × (0 < listed ut wb q + 0)
      still_found k q e (yes d) =
          let z : none ≡ some q = sym find_self ∙ ap find d ∙ e in absurd (cc)
      still_found k q e (no ne) =
          let (old, holds) = v.found k q (sym (find_ne ne) ∙ e) in
          (old, omega (arith, holds, same_ne (λ pq. ne (ap (λ i. (wb.pg i).lpa) pq ∙ old))))
