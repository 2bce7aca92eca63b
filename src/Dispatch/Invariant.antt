-- ===== src/Dispatch/Invariant.antt =====
-- What every block request finds and leaves.
use flashbench.Common.{
  Each, sym, subst, ◌∙◌, ℕ, zero, suc, ◌+◌, ◌<◌, ◌≤◌, ◌≡◌, refl, ap, false, Option, none, some, [],
  Status, success, error, arith,
}
use flashbench.Common.Counts.{count}
use flashbench.Config.{u32_mod, nr_lp_in_pp, to_u32}
use mathlib.Core.Option
use flashbench.Ut.{Ut}
use flashbench.WriteBuffer.{
  WriteBuffer, fb_rm_buf_pg, unlist_pg, retire_pg, fb_wb_reset_buf_pg, fb_wb_set_free_pg,
  hash_del_pg,
}
use flashbench.WriteBuffer.Invariant.{IsValid}
use flashbench.WriteBuffer.Put.{rm_cases, fb_rm_buf_pg-IsValid}
use flashbench.Mapping.{Ftl}
use flashbench.Discard.{discard_range, rm_buf_pgs, make_discard_request_page_mapping}
use flashbench.Writes.Pages.{Incoming}
use flashbench.Writes.Pages.Ends.{Ended, write_pages-Ended}
use flashbench.Dispatch.Branches.{begun, written, make_request_elim, req_finish_elim}
use flashbench.Dispatch.{
  Request, Kernel, Fb, fb_update_bgc_ts, end_bio, drop_fbio, req_finish, fail, discard_branch,
  build, read_branch, pages_to_write, write_branch, make_request,
}

module _ (ut : Ut) where
  -- The buffer has `cap` entries and is valid. While the error flag is not set no page is being
  -- written, and the counter is one of 32 bits.
  pub record IsReady (cap : ℕ) (fb : Fb ut) : Type 0 where
    pub valid : IsValid ut cap none fb.incoming.wb
    pub idle : fb.err ≡ false → fb.incoming.wb.writing_pgs ≡ []
    pub small : fb.err ≡ false → fb.incoming.nr_incomming_write < u32_mod

  -- A valid buffer with no page being written, and what a discard leaves of it.
  abbrev Calm : ℕ → WriteBuffer ut → Type 0
  Calm cap wb = IsValid ut cap none wb × (wb.writing_pgs ≡ [])

  fb_rm_buf_pg-Calm :
      {cap : ℕ} (wb : WriteBuffer ut) (lpa : ℕ) → Calm cap wb → Calm cap (fb_rm_buf_pg ut wb lpa)
  unfolding unlist_pg retire_pg fb_wb_reset_buf_pg fb_wb_set_free_pg hash_del_pg
  fb_rm_buf_pg-Calm wb lpa (v, idle) = (
    fb_rm_buf_pg-IsValid ut lpa v,
    rm_cases ut (λ w. w.writing_pgs ≡ []) wb lpa idle
        (λ p e.
          let flag : (wb.pg p).wflag ≡ false =
            v.buf_flag p (omega (arith, (v.found lpa p e).1, ap (count p) idle)) in
          rw (flag) idle),
  )

  rm_buf_pgs-Calm :
      {cap : ℕ} (n lpa : ℕ) (wb : WriteBuffer ut) → Calm cap wb → Calm cap (rm_buf_pgs ut n lpa wb)
  unfolding rm_buf_pgs
  rm_buf_pgs-Calm zero lpa wb c = c
  rm_buf_pgs-Calm (suc n) lpa wb c =
      rm_buf_pgs-Calm n (lpa + 1) (fb_rm_buf_pg ut wb (to_u32 lpa)) (fb_rm_buf_pg-Calm wb _ c)

  IsReady-same :
      {cap : ℕ} (fb fb' : Fb ut)
      → fb'.incoming ≡ fb.incoming
      → fb'.err ≡ fb.err
      → IsReady cap fb
      → IsReady cap fb'
  IsReady-same {cap} fb fb' e f r = record {
    valid = subst (λ (i : Incoming ut). IsValid ut cap none i.wb) (sym e) r.valid;
    idle = λ z. ap (λ (i : Incoming ut). i.wb.writing_pgs) e ∙ r.idle (sym f ∙ z);
    small = λ z.
        subst (λ (i : Incoming ut). i.nr_incomming_write < u32_mod) (sym e) (r.small (sym f ∙ z));
  }

  drop_fbio-IsReady :
      {cap : ℕ} (o : Option ℕ) (fb : Fb ut) → IsReady cap fb → IsReady cap (drop_fbio ut o fb)
  unfolding drop_fbio
  drop_fbio-IsReady none fb r = r
  drop_fbio-IsReady (some p) fb r = IsReady-same fb _ refl refl r

  req_finish-IsReady :
      {cap : ℕ} (k : Kernel) (q : Request) (o : Option ℕ) (fb : Fb ut)
      → IsReady cap fb
      → IsReady cap (req_finish ut k q o fb)
  unfolding fb_update_bgc_ts end_bio
  req_finish-IsReady {cap} k q o fb r =
      req_finish_elim ut (IsReady cap) k q o fb (λ _. IsReady-same fb _ refl refl r)
        (λ _.
          IsReady-same (drop_fbio ut o (end_bio ut q fb)) _ refl refl
            (drop_fbio-IsReady o (end_bio ut q fb) (IsReady-same fb _ refl refl r)))

  -- The error flag is set, which leaves only the buffer's own invariant.
  fail-IsReady :
      {cap : ℕ} (q : Request) (o : Option ℕ) (ret : ℕ) (fb : Fb ut)
      → IsValid ut cap none fb.incoming.wb
      → IsReady cap (fail ut q o ret fb)
  unfolding fail end_bio
  fail-IsReady q o ret fb v =
      drop_fbio-IsReady o _
        (record { valid = v; idle = λ z. absurd (cc); small = λ z. absurd (cc) })

  discard_branch-IsReady :
      {cap : ℕ} (q : Request) (fb : Fb ut)
      → fb.err ≡ false
      → IsReady cap fb
      → IsReady cap (discard_branch ut q fb)
  unfolding discard_branch make_discard_request_page_mapping
  discard_branch-IsReady q fb e r =
      let (start, n) = discard_range q.bi_sector q.bi_size in
      let calm = rm_buf_pgs-Calm n start fb.incoming.wb (r.valid, r.idle e) in
      record { valid = calm.0; idle = λ _. calm.1; small = r.small }

  written-IsReady :
      (cap n : ℕ) (k : Kernel) (q : Request) (p : ℕ) (fb : Fb ut)
      (o : Option (Status × Incoming ut))
      → Ended ut cap n o
      → Each (IsReady cap) (Option.map (written ut k q p fb) o)
  written-IsReady cap n k q p fb none w = absurd w
  written-IsReady cap n k q p fb (some (success, i)) w =
      req_finish-IsReady k q (some p) (record fb { incoming = i })
        (record { valid = w.0; idle = λ _. w.1; small = λ _. omega (arith, w.2) })
  written-IsReady cap n k q p fb (some (error, i)) w =
      fail-IsReady q (some p) 0 (record fb { incoming = i }) w

  module _ (trigger_gc : Ftl → Status × Ftl) where
    -- A ready state, with a buffer of at least `NR_LP_IN_PP` entries, is ready again behind any
    -- block request, whatever the kernel and the garbage collection answer; the call always
    -- returns.
    pub make_request-IsReady :
        {cap : ℕ} (k : Kernel) (q : Request) (fb : Fb ut)
        → nr_lp_in_pp ≤ cap
        → IsReady cap fb
        → Each (IsReady cap) (make_request ut trigger_gc k q fb)
    unfolding fb_update_bgc_ts build read_branch write_branch
    make_request-IsReady {cap} k q fb fits r =
        make_request_elim ut trigger_gc (Each (IsReady cap)) k q fb
          (λ _. fail-IsReady q none 0 (begun ut k fb) r.valid)
          (λ _ _. req_finish-IsReady k q none _ begin)
          (λ e _ _. req_finish-IsReady k q none _ (discard_branch-IsReady q _ e begin))
          (λ _ _ _ _. fail-IsReady q none k.minus_enodev (begun ut k fb) r.valid)
          (λ p _ _ _ _ _.
            req_finish-IsReady k q (some p) _ (IsReady-same (begun ut k fb) _ refl refl begin))
          (λ p e _ _ _ _.
            let fb' = build ut q p (begun ut k fb) in
            written-IsReady cap _ k q p fb' _
              (write_pages-Ended ut trigger_gc fb.incoming (pages_to_write ut p fb') fits r.valid
                (r.idle e) (r.small e)).0)
      where
        begin : IsReady cap (begun ut k fb)
        begin = IsReady-same fb _ refl refl r
