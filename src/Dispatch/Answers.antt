-- ===== src/Dispatch/Answers.antt =====
-- How a block request is answered.
use mathlib.Core.Option
use flashbench.Common.{
  Each, ℕ, ◌≤◌, ◌≡◌, refl, sym, ap, ◌∙◌, true, false, Option, none, some, ◌∷◌, Status, success,
  error, update, update_self, ℕ_discrete, if_eq, if_ne, Bool,
}
use flashbench.Config.{nr_lp_in_pp}
use flashbench.Ut.{Ut}
use flashbench.Bio.{Bios, fb_destroy_bio}
use flashbench.Mapping.{Ftl}
use flashbench.Requests.{read, write}
use flashbench.Writes.Pages.{Incoming}
use flashbench.Writes.Pages.Ends.{Ended, write_pages-Ended}
use flashbench.Dispatch.Branches.{begun, written, make_request_elim, req_finish_elim}
use flashbench.Dispatch.Invariant.{IsReady}
use flashbench.Dispatch.{
  Request, Kernel, Fb, fb_update_bgc_ts, end_bio, drop_fbio, req_finish, fail, discard_branch,
  build, pages_to_write, write_branch, make_request,
}

-- The request `bio` has ended, once; the same structures are allocated as before, and nothing freed was
-- touched.
pub record Completed (bio : ℕ) (b b' : Bios) : Type 0 where
  pub once : b'.ended ≡ bio ∷ b.ended
  pub safe : b'.use_after_free ≡ false
  pub same : (i : ℕ) → b'.live i ≡ b.live i

module _ (ut : Ut) where
  -- A structure that was not allocated before is allocated when the request is answered.
  abbrev Held : Option ℕ → Bios → Bios → Type 0
  Held none b b' = b' ≡ b
  Held (some p) b b' =
      (b.live p ≡ false)
      × (b'.ended ≡ b.ended)
      × (b'.use_after_free ≡ b.use_after_free)
      × ((i : ℕ) → b'.live i ≡ update b.live p true i)

  freed_again :
      (live live' : ℕ → Bool) (p : ℕ)
      → live p ≡ false
      → ((i : ℕ) → live' i ≡ update live p true i)
      → (i : ℕ) → update live' p false i ≡ live i
  freed_again live live' p dead h i = elim (ℕ_discrete p i) [
    | yes e ↦ if_eq false (live' i) e ∙ sym (ap live (sym e) ∙ dead)
    | no ne ↦ if_ne false (live' i) ne ∙ h i ∙ if_ne true (live i) ne
  ]

  dropped :
      (q : Request) (o : Option ℕ) (b : Bios) (fb : Fb ut)
      → b.use_after_free ≡ false
      → Held o b fb.bios
      → Completed q.bio b (drop_fbio ut o (end_bio ut q fb)).bios
  unfolding drop_fbio end_bio fb_destroy_bio
  dropped q none b fb safe e = record {
    once = ap (λ (b : Bios). q.bio ∷ b.ended) e;
    safe = ap (λ (b : Bios). b.use_after_free) e ∙ safe;
    same = λ i. ap (λ (b : Bios). b.live i) e;
  }
  dropped q (some p) b fb safe (dead, ended, used, live) = record {
    once = ap (q.bio ∷◌) ended;
    safe = rw (used ∙ safe, live p ∙ update_self b.live p true) refl;
    same = freed_again b.live fb.bios.live p dead live;
  }

  fail-Completed :
      (q : Request) (o : Option ℕ) (ret : ℕ) (b : Bios) (fb : Fb ut)
      → b.use_after_free ≡ false
      → Held o b fb.bios
      → Completed q.bio b (fail ut q o ret fb).bios
  unfolding fail
  fail-Completed q o ret b fb safe h = dropped q o b _ safe h

  finish-Completed :
      (k : Kernel) (q : Request) (o : Option ℕ) (b : Bios) (fb : Fb ut)
      → q.rw ≡ write
      → b.use_after_free ≡ false
      → Held o b fb.bios
      → Completed q.bio b (req_finish ut k q o fb).bios
  unfolding fb_update_bgc_ts
  finish-Completed k q o b fb w safe h =
      req_finish_elim ut (λ (r : Fb ut). Completed q.bio b r.bios) k q o fb
        (λ r. let clash : read ≡ write = sym r ∙ w in absurd (cc)) (λ _. dropped q o b fb safe h)

  written-Completed :
      (cap n : ℕ) (k : Kernel) (q : Request) (p : ℕ) (b : Bios) (fb : Fb ut)
      (o : Option (Status × Incoming ut))
      → Ended ut cap n o
      → q.rw ≡ write
      → b.use_after_free ≡ false
      → Held (some p) b fb.bios
      → Each (λ (r : Fb ut). Completed q.bio b r.bios) (Option.map (written ut k q p fb) o)
  written-Completed cap n k q p b fb none e w safe h = absurd e
  written-Completed cap n k q p b fb (some (success, i)) e w safe h =
      finish-Completed k q (some p) b (record fb { incoming = i }) w safe h
  written-Completed cap n k q p b fb (some (error, i)) e w safe h =
      fail-Completed q (some p) 0 b (record fb { incoming = i }) safe h

  module _ (trigger_gc : Ftl → Status × Ftl) where
    -- On a ready state, where nothing freed was touched and `vmalloc` answers no structure that is in
    -- use, a block request in the direction of writing is ended exactly once, with flushes, discards,
    -- failures and the refusal of the allocation; its own structure is freed, all others are kept, and
    -- nothing freed is touched.
    pub make_request-Completed :
        {cap : ℕ} (k : Kernel) (q : Request) (fb : Fb ut)
        → nr_lp_in_pp ≤ cap
        → IsReady ut cap fb
        → fb.bios.use_after_free ≡ false
        → ((p : ℕ) → k.fbio ≡ some p → fb.bios.live p ≡ false)
        → q.rw ≡ write
        → Each (λ (r : Fb ut). Completed q.bio fb.bios r.bios) (make_request ut trigger_gc k q fb)
    unfolding fb_update_bgc_ts build discard_branch write_branch
    make_request-Completed {cap} k q fb fits r safe fresh w =
        make_request_elim ut trigger_gc (Each (λ (r : Fb ut). Completed q.bio fb.bios r.bios)) k q
          fb (λ _. fail-Completed q none 0 fb.bios (begun ut k fb) safe refl)
          (λ _ _. finish-Completed k q none fb.bios (begun ut k fb) w safe refl)
          (λ _ _ _.
            finish-Completed k q none fb.bios (discard_branch ut q (begun ut k fb)) w safe refl)
          (λ _ _ _ _. fail-Completed q none k.minus_enodev fb.bios (begun ut k fb) safe refl)
          (λ p _ _ _ _ d. let clash : read ≡ write = sym d ∙ w in absurd (cc))
          (λ p e _ _ a _.
            let fb' = build ut q p (begun ut k fb) in
            written-Completed cap _ k q p fb.bios fb' _
              (write_pages-Ended ut trigger_gc fb.incoming (pages_to_write ut p fb') fits r.valid
                (r.idle e) (r.small e)).0
              w safe (fresh p a, refl, refl, λ i. refl))
