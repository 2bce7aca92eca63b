-- ===== src/Reads/Issue.antt =====
-- What the loop of a read request asks of the device, and what it leaves of the request.
use flashbench.Common.{
  ℕ, suc, ◌+◌, ◌/◌, ◌%◌, ap₂, ◌<◌, ◌≡◌, refl, sym, ap, subst, ◌∙◌, Option, none, some, List, [],
  ◌∷◌, arith, length, Status, success, error, Option-cases, inl, inr, if◌then◌else◌, ◌==◌, if_eq,
  if_ne,
}
use Prim.Native.Nat.{bit_and}
use flashbench.Address.{Layout}
use flashbench.Config.{add_u32, shr, lp_page_shift, lp_page_mask, u32_mod}
use flashbench.Bio.{Bios, bio_endio, fb_destroy_bio, finish_one}
use flashbench.Mapping.{Ftl, get_mapped_physical_address}
use flashbench.Common.Bits.{bit_and_three}
use flashbench.Reads.Count.{InFlight, Left, positive, finish_one-next, ended_Over}
use flashbench.Reads.{ReadAccess, ReadState, make_read_request, read_loop, entries_of, read_pages}

-- How many pages have a place on the device.
abbrev pub nr_mapped : Ftl → List (ℕ × ℕ) → ℕ
nr_mapped ftl [] = 0
nr_mapped ftl (page ∷ pages) = elim (get_mapped_physical_address ftl page.0) [
  | none ↦ nr_mapped ftl pages
  | some r ↦ nr_mapped ftl pages + 1
]

-- The read of a page that has the place `r`: the physical page, and which logical page of it.
abbrev pub access : ℕ → ℕ × ℕ → ℕ × Layout → ReadAccess
access p page r = record {
  bus = r.1.bus;
  chip = r.1.chip;
  block = r.1.block;
  page = r.1.page / 4;
  page_offset = r.1.page % 4;
  dest = page.1;
  fb_bio = p;
}

-- Behind `reads`, newest first: a read of each page that has a place on the device.
abbrev pub asked : Ftl → ℕ → List (ℕ × ℕ) → List ReadAccess → List ReadAccess
asked ftl p [] reads = reads
asked ftl p (page ∷ pages) reads = elim (get_mapped_physical_address ftl page.0) [
  | none ↦ asked ftl p pages reads
  | some r ↦ asked ftl p pages (access p page r ∷ reads)
]

-- A request for one page by the answer of the mapping, and what follows it in the loop.
abbrev answer : ReadState → ℕ × ℕ → ℕ → Option (ℕ × Layout) → Status × ReadState
answer s page p o = elim o [
  | none ↦ (error, s)
  | some r ↦ (
    success,
    record s {
      reads =
          record {
            bus = r.1.bus;
            chip = r.1.chip;
            block = r.1.block;
            page = shr r.1.page lp_page_shift;
            page_offset = bit_and lp_page_mask r.1.page;
            dest = page.1;
            fb_bio = p;
          }
          ∷ s.reads;
      nr_page_reads = add_u32 s.nr_page_reads 1;
    },
  )
]

abbrev followed : List (ℕ × ℕ) → ReadState → ℕ → Status × ReadState → ReadState
followed pages s p r = elim r.0 [
  | success ↦ read_loop pages r.1 p
  | error ↦ read_loop pages (record r.1 { bios = finish_one r.1.bios p }) p
]

-- What a loop over `pages` leaves of a request that waits for `k` pages besides.
abbrev Result : ℕ → List ℕ → List (ℕ × ℕ) → ReadState → ℕ → ℕ → ReadState → Type 0
Result bio ended pages s p k s' =
    Left p bio ended (k + nr_mapped s.ftl pages) s'.bios × (s'.reads ≡ asked s.ftl p pages s.reads)

read_loop_miss :
    (page : ℕ × ℕ) (pages : List (ℕ × ℕ)) (s : ReadState) (p : ℕ)
    → get_mapped_physical_address s.ftl page.0 ≡ none
    → read_loop (page ∷ pages) s p ≡ read_loop pages (record s { bios = finish_one s.bios p }) p
unfolding read_loop make_read_request
read_loop_miss page pages s p e = ap (λ o. followed pages s p (answer s page p o)) e

read_loop_hit :
    (page : ℕ × ℕ) (pages : List (ℕ × ℕ)) (s : ReadState) (p : ℕ) (r : ℕ × Layout)
    → get_mapped_physical_address s.ftl page.0 ≡ some r
    → read_loop (page ∷ pages) s p ≡ read_loop pages (answer s page p (some r)).1 p
unfolding read_loop make_read_request
read_loop_hit page pages s p r e = ap (λ o. followed pages s p (answer s page p o)) e

nr_mapped_elim :
    (ftl : Ftl) (page : ℕ × ℕ) (pages : List (ℕ × ℕ)) (o : Option (ℕ × Layout))
    → get_mapped_physical_address ftl page.0 ≡ o
    → nr_mapped ftl (page ∷ pages)
      ≡ (elim o [ none ↦ nr_mapped ftl pages | some r ↦ nr_mapped ftl pages + 1 ])
nr_mapped_elim ftl page pages o e =
    ap (λ o. elim o [ none ↦ nr_mapped ftl pages | some r ↦ nr_mapped ftl pages + 1 ]) e

asked_elim :
    (ftl : Ftl) (p : ℕ) (page : ℕ × ℕ) (pages : List (ℕ × ℕ)) (reads : List ReadAccess)
    (o : Option (ℕ × Layout))
    → get_mapped_physical_address ftl page.0 ≡ o
    → asked ftl p (page ∷ pages) reads ≡ (elim o [
      | none ↦ asked ftl p pages reads
      | some r ↦ asked ftl p pages (access p page r ∷ reads)
    ])
asked_elim ftl p page pages reads o e =
    ap
      (λ o. elim o [
        | none ↦ asked ftl p pages reads
        | some r ↦ asked ftl p pages (access p page r ∷ reads)
      ])
      e

-- The shift and the mask take the address apart.
answer-access :
    (s : ReadState) (page : ℕ × ℕ) (p : ℕ) (r : ℕ × Layout)
    → (answer s page p (some r)).1.reads ≡ access p page r ∷ s.reads
answer-access s page p r =
    ap₂
      (λ pg ofs.
        record {
          bus = r.1.bus;
          chip = r.1.chip;
          block = r.1.block;
          page = pg;
          page_offset = ofs;
          dest = page.1;
          fb_bio = p;
        }
        ∷ s.reads)
      {x = shr r.1.page lp_page_shift} (omega arith) (bit_and_three r.1.page)

read_loop-Result :
    (bio : ℕ) (ended : List ℕ) (pages : List (ℕ × ℕ)) (s : ReadState) (p k : ℕ)
    → Left p bio ended (k + length pages) s.bios
    → k + length pages < u32_mod
    → Result bio ended pages s p k (read_loop pages s p)
unfolding read_loop
read_loop-Result bio ended [] s p k f h =
    (subst (λ n. Left p bio ended n s.bios) {y = k + 0} (omega arith) f, refl)
read_loop-Result bio ended (page ∷ pages) s p k f h =
    elim (Option-cases (get_mapped_physical_address s.ftl page.0)) [
      | inl e ↦
          let (left, reads) =
            read_loop-Result bio ended pages (record s { bios = finish_one s.bios p }) p k
              (finish_one-next bio ended s.bios p (k + length pages)
                (subst (λ n. Left p bio ended n s.bios) {y = suc (k + length pages)} (omega arith)
                  f)
                (omega arith))
              (omega arith) in
          subst (Result bio ended (page ∷ pages) s p k) (sym (read_loop_miss page pages s p e)) (
            subst
                (λ n.
                  Left p bio ended n
                    (read_loop pages (record s { bios = finish_one s.bios p }) p).bios)
                (omega (arith, nr_mapped_elim s.ftl page pages none e)) left,
            reads ∙ sym (asked_elim s.ftl p page pages s.reads none e),
          )
      | inr (r, e) ↦
          let s' = (answer s page p (some r)).1 in
          let (left, reads) =
            read_loop-Result bio ended pages s' p (k + 1)
              (subst (λ n. Left p bio ended n s.bios) (omega arith) f) (omega arith) in
          subst (Result bio ended (page ∷ pages) s p k) (sym (read_loop_hit page pages s p r e)) (
            subst (λ n. Left p bio ended n (read_loop pages s' p).bios)
                (omega (arith, nr_mapped_elim s.ftl page pages (some r) e)) left,
            reads
                ∙ ap (asked s.ftl p pages) (answer-access s page p r)
                ∙ sym (asked_elim s.ftl p page pages s.reads (some r) e),
          )
    ]

-- The entries that a request holds.
abbrev pub entries : Bios → ℕ → List (ℕ × ℕ)
entries b p = entries_of (b.fb_bio p).lpas (b.fb_bio p).kpages

-- The test of the branch, for the entries `l`.
branch-Result :
    (l : List (ℕ × ℕ)) (s : ReadState) (p : ℕ)
    → InFlight p (length l) s.bios
    → length l < u32_mod
    → Result (s.bios.fb_bio p).bio s.bios.ended l s p 0 (
        if (s.bios.fb_bio p).req_count == 0
        then record s { bios = fb_destroy_bio (bio_endio s.bios p) p }
        else read_loop l s p)
branch-Result [] s p f h =
    subst (Result (s.bios.fb_bio p).bio s.bios.ended [] s p 0) (sym (if_eq _ _ f.waits))
      (ended_Over s.bios p f, refl)
branch-Result (page ∷ pages) s p f h =
    subst (Result (s.bios.fb_bio p).bio s.bios.ended (page ∷ pages) s p 0)
      (sym (if_ne _ _ (λ e. positive (length pages) (sym f.waits ∙ e))))
      (read_loop-Result (s.bios.fb_bio p).bio s.bios.ended (page ∷ pages) s p 0
        (subst (λ n. Left p (s.bios.fb_bio p).bio s.bios.ended n s.bios) {x = suc (length pages)}
          (omega arith) (f, refl, refl))
        (omega (arith, h)))

-- A request that is in flight for its entries, and was not freed, comes out of the branch `READ` in
-- flight for as many pages as have a place on the device; if none has, it has ended, once, and is
-- freed. The device is asked to read these pages and no other, in order, each from the physical page
-- and the logical page in it that its mapping names, to the page that its entry names. Nothing that
-- was freed is touched on the way.
pub read_pages-Left :
    (s : ReadState) (p : ℕ)
    → InFlight p (length (entries s.bios p)) s.bios
    → length (entries s.bios p) < u32_mod
    → Left p
        (s.bios.fb_bio p).bio
        s.bios.ended
        (nr_mapped s.ftl (entries s.bios p))
        (read_pages s p).bios
      × ((read_pages s p).reads ≡ asked s.ftl p (entries s.bios p) s.reads)
unfolding read_pages
read_pages-Left s p f h =
    let (left, reads) = branch-Result (entries s.bios p) s p f h in
    (
      subst (λ n. Left p (s.bios.fb_bio p).bio s.bios.ended n (read_pages s p).bios)
          {y = nr_mapped s.ftl (entries s.bios p)} (omega arith) left,
      reads,
    )
