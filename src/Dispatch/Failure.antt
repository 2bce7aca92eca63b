-- ===== src/Dispatch/Failure.antt =====
-- What a block request reports behind which the error flag is set.
use mathlib.Core.Option
use flashbench.Common.{
  Each, ℕ, ◌≡◌, ◌≢◌, ◌≤◌, refl, sym, ◌∙◌, true, false, Option, none, some, Status, success, error,
  update_self,
}
use flashbench.Ut.{Ut}
use flashbench.Mapping.{Ftl}
use flashbench.Writes.Pages.{Incoming}
use flashbench.Dispatch.Branches.{begun, written, make_request_elim, req_finish_elim}
use flashbench.Config.{nr_lp_in_pp}
use flashbench.Writes.Pages.Ends.{Ended, write_pages-Ended}
use flashbench.Dispatch.Invariant.{IsReady}
use flashbench.Dispatch.{
  Request, Kernel, Fb, fb_update_bgc_ts, end_bio, drop_fbio, req_finish, fail, discard_branch,
  build, read_branch, pages_to_write, write_branch, make_request,
}

module _ (ut : Ut) where
  -- What a request reports: 0 if the error flag is set behind it, and nothing otherwise. A flag that was
  -- set before stays set, and the request then has no effect on the buffer and the device.
  pub record Reported (q : Request) (fb r : Fb ut) : Type 0 where
    pub silent : r.err ≡ true → r.bi_error q.bio ≡ 0
    pub kept : r.err ≡ false → r.bi_error ≡ fb.bi_error
    pub refused : fb.err ≡ true → (r.err ≡ true) × (r.incoming ≡ fb.incoming) × (r.reads ≡ fb.reads)

  drop_fbio-Reported :
      (q : Request) (o : Option ℕ) (fb r : Fb ut)
      → Reported q fb r
      → Reported q fb (drop_fbio ut o r)
  unfolding drop_fbio
  drop_fbio-Reported q none fb r h = h
  drop_fbio-Reported q (some p) fb r h = record {
    silent = h.silent;
    kept = h.kept;
    refused = h.refused;
  }

  fail-Reported :
      (q : Request) (o : Option ℕ) (fb r : Fb ut)
      → (fb.err ≡ true → (r.incoming ≡ fb.incoming) × (r.reads ≡ fb.reads))
      → Reported q fb (fail ut q o 0 r)
  unfolding fail end_bio
  fail-Reported q o fb r h = drop_fbio-Reported q o fb _ (record {
    silent = λ _. update_self r.bi_error q.bio 0;
    kept = λ z. absurd (cc);
    refused = λ e. (refl, (h e).0, (h e).1);
  })

  finish-Reported :
      (k : Kernel) (q : Request) (o : Option ℕ) (fb r : Fb ut)
      → fb.err ≡ false
      → r.err ≡ fb.err
      → r.bi_error ≡ fb.bi_error
      → Reported q fb (req_finish ut k q o r)
  unfolding fb_update_bgc_ts end_bio drop_fbio
  finish-Reported k q o fb r e same errors =
      req_finish_elim ut (Reported q fb) k q o r (λ _. finished r same errors)
        (λ _.
          finished (drop_fbio ut o (end_bio ut q r)) (err-drop_fbio o (end_bio ut q r) ∙ same)
            (bi_error-drop_fbio o (end_bio ut q r) ∙ errors))
    where
      err-drop_fbio : (o : Option ℕ) (r : Fb ut) → (drop_fbio ut o r).err ≡ r.err
      err-drop_fbio none r = refl
      err-drop_fbio (some p) r = refl

      bi_error-drop_fbio : (o : Option ℕ) (r : Fb ut) → (drop_fbio ut o r).bi_error ≡ r.bi_error
      bi_error-drop_fbio none r = refl
      bi_error-drop_fbio (some p) r = refl

      finished :
          (r : Fb ut)
          → r.err ≡ fb.err
          → r.bi_error ≡ fb.bi_error
          → Reported q fb (fb_update_bgc_ts ut k.time_end r)
      finished r same errors = record {
        silent = λ z. let clash : true ≡ false = sym z ∙ same ∙ e in absurd (cc);
        kept = λ _. errors;
        refused = λ z. let clash : true ≡ false = sym z ∙ e in absurd (cc);
      }

  written-Reported :
      (cap n : ℕ) (k : Kernel) (q : Request) (p : ℕ) (fb r : Fb ut)
      (o : Option (Status × Incoming ut))
      → Ended ut cap n o
      → fb.err ≡ false
      → r.err ≡ fb.err
      → r.bi_error ≡ fb.bi_error
      → Each (Reported q fb) (Option.map (written ut k q p r) o)
  written-Reported cap n k q p fb r none w e same errors = absurd w
  written-Reported cap n k q p fb r (some (success, i)) w e same errors =
      finish-Reported k q (some p) fb (record r { incoming = i }) e same errors
  written-Reported cap n k q p fb r (some (error, i)) w e same errors =
      fail-Reported q (some p) fb (record r { incoming = i })
        (λ z. let clash : true ≡ false = sym z ∙ e in absurd (cc))

  module _ (trigger_gc : Ftl → Status × Ftl) where
    -- On a ready state, a request for which `vmalloc` grants a structure and behind which the error flag
    -- is set has 0 as its error, as if it had succeeded; without the flag no error is stored. Once the
    -- flag is set it stays set, and requests have no effect on the write buffer, the mapping and the
    -- device any more.
    pub make_request-Reported :
        {cap : ℕ} (k : Kernel) (q : Request) (fb : Fb ut)
        → nr_lp_in_pp ≤ cap
        → IsReady ut cap fb
        → k.fbio ≢ none
        → Each (Reported q fb) (make_request ut trigger_gc k q fb)
    unfolding fb_update_bgc_ts build discard_branch read_branch write_branch
    make_request-Reported {cap} k q fb fits r granted =
        make_request_elim ut trigger_gc (Each (Reported q fb)) k q fb
          (λ _. fail-Reported q none fb (begun ut k fb) (λ _. (refl, refl)))
          (λ e _. finish-Reported k q none fb (begun ut k fb) e refl refl)
          (λ e _ _. finish-Reported k q none fb (discard_branch ut q (begun ut k fb)) e refl refl)
          (λ _ _ _ a. absurd (granted a))
          (λ p e _ _ _ _.
            finish-Reported k q (some p) fb (read_branch ut p (build ut q p (begun ut k fb))) e refl
              refl)
          (λ p e _ _ _ _.
            let fb' = build ut q p (begun ut k fb) in
            written-Reported cap _ k q p fb fb' _
              (write_pages-Ended ut trigger_gc fb.incoming (pages_to_write ut p fb') fits r.valid
                (r.idle e) (r.small e)).0
              e refl refl)
