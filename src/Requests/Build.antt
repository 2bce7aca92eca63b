-- ===== src/Requests/Build.antt =====
-- Which pages of a request are entered, and which the write buffer answers at once.
use flashbench.Common.{
  map, Status, ℕ, ◌+◌, ◌-◌, ◌*◌, ◌%◌, ◌/◌, ◌≤◌, ◌<◌, ◌≡◌, refl, sym, ap, subst, ◌∙◌, Option, none,
  some, List, [], ◌∷◌, ◌++◌, append_assoc, append-nil, length, arith, inl, inr, Option-cases,
}
use flashbench.Config.{u32_mod, to_u32, shr, nr_max_req_bio}
use flashbench.Bio.{FbBio}
use flashbench.Ut.{Ut}
use flashbench.WriteBuffer.{WriteBuffer, Data}
use flashbench.WriteBuffer.View.{view, answer, fb_get_pg_data-view}
use flashbench.Requests.{Direction, read, write, add_entry, buffered, build_segments, fb_build_bio}

module _ (ut : Ut) where
  -- What a reader of the write buffer sees; a write asks for nothing.
  abbrev pub seen : Direction → WriteBuffer ut → ℕ → Option Data
  seen read wb lpa = view ut wb lpa
  seen write wb lpa = none

  -- The segments from logical page `lpa` on that are entered, and those that are answered.
  abbrev pub enter : Option Data → ℕ × ℕ → List (ℕ × ℕ) → List (ℕ × ℕ)
  enter none e es = e ∷ es
  enter (some d) e es = es

  abbrev pub respond : Option Data → ℕ → List (ℕ × Data) → List (ℕ × Data)
  respond none p rest = rest
  respond (some d) p rest = (p, d) ∷ rest

  abbrev pub entered : Direction → WriteBuffer ut → ℕ → List ℕ → List (ℕ × ℕ)
  entered rw wb lpa [] = []
  entered rw wb lpa (p ∷ ps) =
      enter (seen rw wb (to_u32 lpa)) (to_u32 lpa, p) (entered rw wb (lpa + 1) ps)

  abbrev pub answered : Direction → WriteBuffer ut → ℕ → List ℕ → List (ℕ × Data)
  answered rw wb lpa [] = []
  answered rw wb lpa (p ∷ ps) = respond (seen rw wb (to_u32 lpa)) p (answered rw wb (lpa + 1) ps)

  buffered-seen :
      (rw' : Direction) (wb : WriteBuffer ut) (lpa : ℕ) → buffered ut rw' wb lpa ≡ seen rw' wb lpa
  unfolding buffered
  buffered-seen read wb lpa =
      ap (λ (r : Status × Option Data). r.1) (fb_get_pg_data-view ut wb lpa)
      ∙ answer_page (view ut wb lpa)
    where
      answer_page : (o : Option Data) → (answer o).1 ≡ o
      answer_page none = refl
      answer_page (some d) = refl
  buffered-seen write wb lpa = refl

  -- What the loop makes of a request: `es` are entered and `ans` are answered.
  record Built (fbio : FbBio) (es : List (ℕ × ℕ)) (ans : List (ℕ × Data))
      (r : FbBio × List (ℕ × Data)) : Type 0 where
    lpas : r.0.lpas ≡ fbio.lpas ++ map (λ (e : ℕ × ℕ). e.0) es
    kpages : r.0.kpages ≡ fbio.kpages ++ map (λ (e : ℕ × ℕ). e.1) es
    req_count : r.0.req_count ≡ fbio.req_count + length es
    same_bio : r.0.bio ≡ fbio.bio
    pages : r.1 ≡ ans

  abbrev choose :
      ℕ → FbBio × List (ℕ × Data) → FbBio × List (ℕ × Data) → Option Data → FbBio × List (ℕ × Data)
  choose p hit miss none = miss
  choose p hit miss (some d) = (hit.0, (p, d) ∷ hit.1)

  choose-Built :
      {fbio : FbBio} {es : List (ℕ × ℕ)} {ans : List (ℕ × Data)}
      {hit miss : FbBio × List (ℕ × Data)} (l p : ℕ) (o : Option Data)
      → fbio.req_count + 1 < u32_mod
      → Built fbio es ans hit
      → Built (add_entry fbio l p) es ans miss
      → Built fbio (enter o (l, p) es) (respond o p ans) (choose p hit miss o)
  unfolding add_entry
  choose-Built {fbio} {es} l p none h b c = record {
    lpas = c.lpas ∙ append_assoc fbio.lpas (l ∷ []) (map (λ (e : ℕ × ℕ). e.0) es);
    kpages = c.kpages ∙ append_assoc fbio.kpages (p ∷ []) (map (λ (e : ℕ × ℕ). e.1) es);
    req_count = omega (arith, c.req_count);
    same_bio = c.same_bio;
    pages = c.pages;
  }
  choose-Built l p (some d) h b c = record {
    lpas = b.lpas;
    kpages = b.kpages;
    req_count = b.req_count;
    same_bio = b.same_bio;
    pages = ap ((p, d) ∷◌) b.pages;
  }

  build_segments_step :
      (d : Direction) (wb : WriteBuffer ut) (sec p : ℕ) (ps : List ℕ) (fbio : FbBio)
      → build_segments ut d wb sec (p ∷ ps) fbio
        ≡ choose p
            (build_segments ut d wb (sec + 8) ps fbio)
            (build_segments ut d wb (sec + 8) ps (add_entry fbio (to_u32 (shr sec 3)) p))
            (buffered ut d wb (to_u32 (shr sec 3)))
  unfolding build_segments
  build_segments_step d wb sec p ps fbio =
      elim (Option-cases (buffered ut d wb (to_u32 (shr sec 3)))) [
        | inl e ↦ rw (e, build_segments) refl
        | inr (x, e) ↦ rw (e, build_segments) refl
      ]

  build_segments-Built :
      (d : Direction) (wb : WriteBuffer ut) (sec lpa : ℕ) (ps : List ℕ) (fbio : FbBio)
      → sec ≡ lpa * 8
      → fbio.req_count + length ps < u32_mod
      → Built fbio (entered d wb lpa ps) (answered d wb lpa ps) (build_segments ut d wb sec ps fbio)
  unfolding build_segments add_entry
  build_segments-Built d wb sec lpa [] fbio e h = record {
    lpas = sym (append-nil fbio.lpas);
    kpages = sym (append-nil fbio.kpages);
    req_count = omega arith;
    same_bio = refl;
    pages = refl;
  }
  build_segments-Built d wb sec lpa (p ∷ ps) fbio e h =
      subst (Built fbio _ _) (sym (build_segments_step d wb sec p ps fbio)) (
        subst
          (λ o.
            Built fbio (enter o (to_u32 lpa, p) es) (respond o p ans)
              (choose p hit (miss l) (buffered ut d wb l)))
          (buffered-seen d wb (to_u32 lpa))
          (subst
            (λ k.
              Built fbio (enter (buffered ut d wb k) (k, p) es) (respond (buffered ut d wb k) p ans)
                (choose p hit (miss l) (buffered ut d wb l)))
            {x = l} {y = to_u32 lpa} (omega (arith, e))
            (choose-Built l p (buffered ut d wb l) (omega (arith, h))
              (build_segments-Built d wb (sec + 8) (lpa + 1) ps fbio (omega (arith, e))
                (omega (arith, h)))
              (build_segments-Built d wb (sec + 8) (lpa + 1) ps (add_entry fbio l p)
                (omega (arith, e)) (omega (arith, h))))))
    where
      l : ℕ
      l = to_u32 (shr sec 3)

      es : List (ℕ × ℕ)
      es = entered d wb (lpa + 1) ps

      ans : List (ℕ × Data)
      ans = answered d wb (lpa + 1) ps

      hit : FbBio × List (ℕ × Data)
      hit = build_segments ut d wb (sec + 8) ps fbio

      miss : ℕ → FbBio × List (ℕ × Data)
      miss k = build_segments ut d wb (sec + 8) ps (add_entry fbio k p)

  length-entered :
      (d : Direction) (wb : WriteBuffer ut) (lpa : ℕ) (ps : List ℕ)
      → length (entered d wb lpa ps) ≤ length ps
  length-entered d wb lpa [] = omega arith
  length-entered d wb lpa (p ∷ ps) = elim (Option-cases (seen d wb (to_u32 lpa))) [
    | inl e ↦ rw e (omega (arith, length-entered d wb (lpa + 1) ps))
    | inr (x, e) ↦ rw e (omega (arith, length-entered d wb (lpa + 1) ps))
  ]

  -- For a request of at most 256 segments, `fb_build_bio` enters the segments, in order and under the
  -- addresses of their logical pages, that the write buffer holds no page for, or all of them for a
  -- write; it counts them, and the arrays have room for them. It writes to the other segments' pages
  -- what the write buffer holds.
  pub fb_build_bio_lem :
      (d : Direction) (wb : WriteBuffer ut) (bi_sector : ℕ) (ps : List ℕ) (bio : ℕ)
      → length ps ≤ nr_max_req_bio
      → ((fb_build_bio ut d wb bi_sector ps bio).0.lpas
          ≡ map (λ (e : ℕ × ℕ). e.0) (entered d wb (bi_sector / 8) ps))
        × ((fb_build_bio ut d wb bi_sector ps bio).0.kpages
            ≡ map (λ (e : ℕ × ℕ). e.1) (entered d wb (bi_sector / 8) ps))
        × ((fb_build_bio ut d wb bi_sector ps bio).0.req_count
            ≡ length (entered d wb (bi_sector / 8) ps))
        × ((fb_build_bio ut d wb bi_sector ps bio).0.req_count ≤ nr_max_req_bio)
        × ((fb_build_bio ut d wb bi_sector ps bio).1 ≡ answered d wb (bi_sector / 8) ps)
  unfolding fb_build_bio
  fb_build_bio_lem d wb bi_sector ps bio h =
      let built =
        build_segments-Built d wb (bi_sector - bi_sector % 8) (bi_sector / 8) ps
          (record { req_count = 0; lpas = []; kpages = []; bio = bio }) (omega arith)
          (omega (arith, h)) in
      (
        built.lpas,
        built.kpages,
        omega (arith, built.req_count),
        omega (arith, built.req_count, length-entered d wb (bi_sector / 8) ps, h),
        built.pages,
      )

  -- The request that the structure is for.
  pub bio-fb_build_bio :
      (d : Direction) (wb : WriteBuffer ut) (bi_sector : ℕ) (ps : List ℕ) (bio : ℕ)
      → length ps ≤ nr_max_req_bio
      → (fb_build_bio ut d wb bi_sector ps bio).0.bio ≡ bio
  unfolding fb_build_bio
  bio-fb_build_bio d wb bi_sector ps bio h =
      (build_segments-Built d wb (bi_sector - bi_sector % 8) (bi_sector / 8) ps
        (record { req_count = 0; lpas = []; kpages = []; bio = bio }) (omega arith)
        (omega (arith, h))).same_bio
