-- ===== src/Reads/Count.antt =====
-- The count of a read request in flight, and its end.
use flashbench.Common.{
  ℕ, zero, suc, ◌<◌, ◌≡◌, ◌≢◌, refl, sym, ap, subst, ◌∙◌, true, false, List, ◌∷◌, arith, update,
  update_self, if_ne,
}
use flashbench.Config.{u32_mod}
use flashbench.Bio.{FbBio, Bios, bio_endio, fb_destroy_bio, finish_one}
use flashbench.Bus.Controller.References.{finish_one_live}

-- The request at `p` is in flight for `n` pages, and nothing freed was touched.
pub record InFlight (p n : ℕ) (b : Bios) : Type 0 where
  pub alive : b.live p ≡ true
  pub safe : b.use_after_free ≡ false
  pub waits : (b.fb_bio p).req_count ≡ n

-- The request `bio` has ended, behind `ended`, and is freed.
pub record Over (p bio : ℕ) (ended : List ℕ) (b : Bios) : Type 0 where
  pub dead : b.live p ≡ false
  pub safe : b.use_after_free ≡ false
  pub last : b.ended ≡ bio ∷ ended

-- In flight for `n` pages if there are any, and over otherwise.
abbrev pub Left : (p bio : ℕ) → List ℕ → ℕ → Bios → Type 0
Left p bio ended zero b = Over p bio ended b
Left p bio ended (suc n) b = InFlight p (suc n) b × (b.ended ≡ ended) × ((b.fb_bio p).bio ≡ bio)

pub positive : (n : ℕ) → suc n ≢ 0
positive n e = omega (arith, e)

finish_one-Left :
    (b : Bios) (p n : ℕ)
    → InFlight p (suc n) b
    → suc n < u32_mod
    → Left p (b.fb_bio p).bio b.ended n (finish_one b p)
finish_one-Left b p zero f h =
    subst (Over p (b.fb_bio p).bio b.ended) (sym (finish_one_live b p 0 f.alive f.waits h))
      (record { dead = update_self b.live p false; safe = f.safe; last = refl })
finish_one-Left b p (suc n) f h =
    subst (Left p (b.fb_bio p).bio b.ended (suc n))
      (sym (finish_one_live b p (suc n) f.alive f.waits h))
      (
        record {
          alive = ap (λ l. l p) (if_ne (update b.live p false) b.live (positive n)) ∙ f.alive;
          safe = f.safe;
          waits = ap (λ (r : FbBio). r.req_count) (update_self b.fb_bio p _);
        },
        if_ne ((b.fb_bio p).bio ∷ b.ended) b.ended (positive n),
        ap (λ (r : FbBio). r.bio) (update_self b.fb_bio p _),
      )

-- The same with the request's own fields named.
pub finish_one-next :
    (bio : ℕ) (ended : List ℕ) (b : Bios) (p n : ℕ)
    → Left p bio ended (suc n) b
    → suc n < u32_mod
    → Left p bio ended n (finish_one b p)
finish_one-next bio ended b p n f h =
    subst (λ e. Left p bio e n (finish_one b p)) f.1
      (subst (λ i. Left p i b.ended n (finish_one b p)) f.2 (finish_one-Left b p n f.0 h))

-- A request without a page.
pub ended_Over :
    (b : Bios) (p : ℕ)
    → InFlight p 0 b
    → Over p (b.fb_bio p).bio b.ended (fb_destroy_bio (bio_endio b p) p)
unfolding fb_destroy_bio bio_endio
ended_Over b p f = record {
  dead = update_self b.live p false;
  safe = rw (f.alive, f.safe) refl;
  last = refl;
}
