-- ===== src/Dispatch/Reading.antt =====
-- A block request that reads, from its arrival to the pages that the device is asked for.
use mathlib.Core.List.{foldl}
use flashbench.Common.{
  Each, ℕ, ◌<◌, ◌≤◌, ◌/◌, ◌≡◌, refl, sym, ap, ap₂, subst, ◌∙◌, true, false, Option, none, some,
  List, [], ◌∷◌, map, length, Status, arith, update, update_self,
}
use flashbench.Config.{u32_mod, nr_max_req_bio}
use mathlib.Core.Option
use flashbench.Ut.{Ut}
use flashbench.Bio.{FbBio}
use flashbench.WriteBuffer.{Data}
use flashbench.Mapping.{Ftl}
use flashbench.Requests.{read, write, fb_build_bio}
use flashbench.Requests.Build.{entered, answered, fb_build_bio_lem, bio-fb_build_bio}
use flashbench.Reads.{ReadState, entries_of, read_pages}
use flashbench.Reads.Count.{Left}
use flashbench.Reads.Issue.{entries, nr_mapped, asked, read_pages-Left}
use flashbench.Dispatch.Branches.{begun, make_request_elim, req_finish_elim}
use flashbench.Dispatch.{
  Request, Kernel, Fb, fb_update_bgc_ts, req_finish, build, read_branch, make_request,
}

entries_of-map :
    (es : List (ℕ × ℕ))
    → entries_of (map (λ (e : ℕ × ℕ). e.0) es) (map (λ (e : ℕ × ℕ). e.1) es) ≡ es
entries_of-map [] = refl
entries_of-map (e ∷ es) = ap (e ∷◌) (entries_of-map es)

module _ (ut : Ut) where
  -- The pages of a request that the write buffer does not hold, and what it holds of the others.
  abbrev pub to_read : Request → Fb ut → List (ℕ × ℕ)
  to_read q fb = entered ut read fb.incoming.wb (q.bi_sector / 8) q.pages

  abbrev pub from_buffer : Request → Fb ut → List (ℕ × Data)
  from_buffer q fb = answered ut read fb.incoming.wb (q.bi_sector / 8) q.pages

  -- The request with structure `p` is in flight for those of the pages that have a place on the device,
  -- a read of each of which, and of no other, was asked for, or has ended if there are none; the pages
  -- that the write buffer holds are copied, and the others are left to the device.
  pub record IsReading (q : Request) (p : ℕ) (fb fb' : Fb ut) : Type 0 where
    pub left : Left p q.bio fb.bios.ended (nr_mapped fb.incoming.state.ftl (to_read q fb)) fb'.bios
    pub asked_for : fb'.reads ≡ asked fb.incoming.state.ftl p (to_read q fb) fb.reads
    pub copied :
        fb'.page_at ≡ foldl (λ m (a : ℕ × Data). update m a.0 a.1) fb.page_at (from_buffer q fb)
    pub kept : fb'.incoming ≡ fb.incoming

  built : Request → Fb ut → FbBio
  built q fb = (fb_build_bio ut read fb.incoming.wb q.bi_sector q.pages q.bio).0

  entries-built :
      (q : Request) (fb : Fb ut)
      → length q.pages ≤ nr_max_req_bio
      → entries_of (built q fb).lpas (built q fb).kpages ≡ to_read q fb
  unfolding built
  entries-built q fb h =
      let (lpas, kpages, _, _, _) =
        fb_build_bio_lem ut read fb.incoming.wb q.bi_sector q.pages q.bio h in
      ap₂ entries_of lpas kpages ∙ entries_of-map (to_read q fb)

  reading :
      (q : Request) (p : ℕ) (r : FbBio) (es : List (ℕ × ℕ)) (s : ReadState)
      → s.bios.fb_bio p ≡ r
      → entries_of r.lpas r.kpages ≡ es
      → r.bio ≡ q.bio
      → r.req_count ≡ length es
      → s.bios.live p ≡ true
      → s.bios.use_after_free ≡ false
      → length es < u32_mod
      → Left p q.bio s.bios.ended (nr_mapped s.ftl es) (read_pages s p).bios
        × ((read_pages s p).reads ≡ asked s.ftl p es s.reads)
  reading q p r es s at es_eq bio count live safe small =
      let same : entries s.bios p ≡ es =
        ap (λ (r : FbBio). entries_of r.lpas r.kpages) at ∙ es_eq in
      let (left, reads) =
        read_pages-Left s p
          (record {
            alive = live;
            safe = safe;
            waits = ap (λ (r : FbBio). r.req_count) at ∙ count ∙ ap length (sym same);
          })
          (omega (arith, small, ap length same)) in
      (
        subst (λ i. Left p i s.bios.ended (nr_mapped s.ftl es) (read_pages s p).bios)
            (ap (λ (r : FbBio). r.bio) at ∙ bio)
            (subst
              (λ l.
                Left p (s.bios.fb_bio p).bio s.bios.ended (nr_mapped s.ftl l) (read_pages s p).bios)
              same left),
        reads ∙ ap (λ l. asked s.ftl p l s.reads) same,
      )

  read_branch-IsReading :
      (q : Request) (p : ℕ) (fb : Fb ut)
      → length q.pages ≤ nr_max_req_bio
      → q.rw ≡ read
      → fb.bios.use_after_free ≡ false
      → IsReading q p fb (read_branch ut p (build ut q p fb))
  unfolding read_branch build built
  read_branch-IsReading q p fb few d safe =
      let (lpas, kpages, count, small, pages) =
        fb_build_bio_lem ut read fb.incoming.wb q.bi_sector q.pages q.bio few in
      let (left, reads) =
        reading q p (built q fb) (to_read q fb) _
          (update_self fb.bios.fb_bio p _
            ∙ ap (λ d. (fb_build_bio ut d fb.incoming.wb q.bi_sector q.pages q.bio).0) d)
          (entries-built q fb few)
          (bio-fb_build_bio ut read fb.incoming.wb q.bi_sector q.pages q.bio few) count
          (update_self fb.bios.live p true) safe (omega (arith, count, small)) in
      record {
        left = left;
        asked_for = reads;
        copied =
            ap
              (λ d.
                foldl (λ m (a : ℕ × Data). update m a.0 a.1) fb.page_at
                  (fb_build_bio ut d fb.incoming.wb q.bi_sector q.pages q.bio).1)
              d
            ∙ ap (foldl (λ m (a : ℕ × Data). update m a.0 a.1) fb.page_at) pages;
        kept = refl;
      }

  finish-IsReading :
      (k : Kernel) (q : Request) (o : Option ℕ) (p : ℕ) (fb fb' : Fb ut)
      → q.rw ≡ read
      → IsReading q p fb fb'
      → IsReading q p fb (req_finish ut k q o fb')
  unfolding fb_update_bgc_ts
  finish-IsReading k q o p fb fb' d r =
      req_finish_elim ut (IsReading q p fb) k q o fb'
        (λ _. record { left = r.left; asked_for = r.asked_for; copied = r.copied; kept = r.kept })
        (λ w. let clash : read ≡ write = sym d ∙ w in absurd (cc))

  module _ (trigger_gc : Ftl → Status × Ftl) where
    -- A request of at most 256 segments that reads and is not a flush or a discard, while the error flag
    -- is not set and nothing freed was touched, and which gets a structure: the pages that the write
    -- buffer holds are copied to the pages of the request, and the device is asked once for each other
    -- page that has a place on it, from that place to its page of the request. The request stays in
    -- flight for these, or is ended, once, and its structure freed, if there are none. A page that
    -- neither holds, such as a discarded one, is not written to. The write buffer and the mapping stay
    -- as they are, and nothing freed is touched.
    pub make_request-IsReading :
        (k : Kernel) (q : Request) (p : ℕ) (fb : Fb ut)
        → length q.pages ≤ nr_max_req_bio
        → q.rw ≡ read
        → q.preflush ≡ false
        → q.discard ≡ false
        → k.fbio ≡ some p
        → fb.err ≡ false
        → fb.bios.use_after_free ≡ false
        → Each (IsReading q p fb) (make_request ut trigger_gc k q fb)
    unfolding fb_update_bgc_ts
    make_request-IsReading k q p fb few d no_flush no_discard granted ok safe =
        make_request_elim ut trigger_gc (Each (IsReading q p fb)) k q fb
          (λ e. let clash : true ≡ false = sym e ∙ ok in absurd (cc))
          (λ _ f. let clash : true ≡ false = sym f ∙ no_flush in absurd (cc))
          (λ _ _ f. let clash : true ≡ false = sym f ∙ no_discard in absurd (cc))
          (λ _ _ _ f. let clash : none ≡ some p = sym f ∙ granted in absurd (cc))
          (λ p' _ _ _ a _.
            let same : some p ≡ some p' = sym granted ∙ a in
            let start = read_branch-IsReading q p (begun ut k fb) few d safe in
            subst
              (λ o. Each (IsReading q p fb) (
                Option.map
                  (λ i.
                    req_finish ut k q (some i) (read_branch ut i (build ut q i (begun ut k fb))))
                  o))
              same
              (finish-IsReading k q (some p) p fb _ d (record {
                left = start.left;
                asked_for = start.asked_for;
                copied = start.copied;
                kept = start.kept;
              })))
          (λ p' _ _ _ _ w. let clash : read ≡ write = sym d ∙ w in absurd (cc))
