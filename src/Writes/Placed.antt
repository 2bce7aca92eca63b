-- ===== src/Writes/Placed.antt =====
-- What a write request writes, where, and what the table names behind it.
use flashbench.Common.{
  if_elim, ℕ, ◌≡◌, refl, ap, ◌∙◌, Option, none, some, List, ◌∷◌, Status, success, error,
}
use mathlib.Core.Option
use flashbench.Config.{add_u32, nr_lp_in_pp}
use flashbench.Ut.{Ut}
use flashbench.WriteBuffer.{Data}
use flashbench.Mapping.{
  Ftl, chip_index, get_next_bus_chip, set_prev_bus_chip, get_curr_active_block,
  map_logical_to_physical, alloc_new_page,
}
use flashbench.Mapping.Active.{
  Active, update_act_blk-elim, alloc_new_page-elim, act_blks-map_logical_pages,
}
use flashbench.Mapping.Table.{named_pages, mappings-map_logical_pages}
use flashbench.Writes.{
  is_fgc_needed, nth_lpa, Access, WriteState, program, try_page, behind_gc, write_second,
  write_first, make_write_request,
}

-- What `program` makes of the mapping behind it.
abbrev done : WriteState → ℕ → ℕ → ℕ → ℕ → List Data → Ftl → Status × WriteState
done s bus chip blk pg src ftl = (
  success,
  record s {
    ftl = ftl;
    writes = record { bus = bus; chip = chip; blk = blk; pg = pg; src = src } ∷ s.writes;
    nr_wordline_prog_fg = add_u32 s.nr_wordline_prog_fg 1;
  },
)

module _ (ut : Ut) (trigger_gc : Ftl → Status × Ftl) where
  -- The mapping behind garbage collections and allocations that found no page, from `start` on.
  pub data Led (start : Ftl) : Ftl → Type 0 where
    unchanged : Led start start
    collected : {ftl : Ftl} → Led start ftl → Led start (trigger_gc ftl).1
    refused :
        (bus chip : ℕ) {ftl ftl' : Ftl}
        → Led start ftl
        → alloc_new_page ut ftl bus chip ≡ (none, ftl')
        → Led start ftl'

  -- Behind the writes `w`, the data `src` were written to the page that the chip whose turn it was
  -- gave, at a mapping `before` it and `behind` it, and in the table the addresses `lpas` name the
  -- logical pages of that page, in order, and all others what they named.
  pub record Programmed (start : Ftl) (w : List Access) (n : ℕ) (lpas : List ℕ) (src : List Data)
      (s : WriteState) : Type 0 where
    pub before : Ftl
    pub led : Led start before
    pub behind : Ftl
    pub bus : ℕ
    pub chip : ℕ
    pub blk : ℕ
    pub pg : ℕ
    pub turn : get_next_bus_chip before ≡ (bus, chip)
    pub given : alloc_new_page ut before bus chip ≡ (some (blk, pg), behind)
    pub written : s.writes ≡ record { bus = bus; chip = chip; blk = blk; pg = pg; src = src } ∷ w
    pub counted : s.nr_wordline_prog_fg ≡ add_u32 n 1
    pub named :
        s.ftl.mappings ≡ named_pages nr_lp_in_pp behind.mappings (nth_lpa lpas) bus chip blk pg 0
    pub turned : (s.ftl.mru_bus ≡ bus) × (s.ftl.mru_chip ≡ chip)

  -- There is a result; a request that fails has written nothing.
  abbrev pub Placed :
      Ftl → List Access → ℕ → List ℕ → List Data → Option (Status × WriteState) → Type 0
  Placed start w n lpas src none = ⊥
  Placed start w n lpas src (some (success, s)) = Programmed start w n lpas src s
  Placed start w n lpas src (some (error, s)) =
      (s.writes ≡ w) × (s.nr_wordline_prog_fg ≡ n) × Led start s.ftl

  -- Nothing is written so far.
  abbrev Fresh : Ftl → List Access → ℕ → WriteState → Type 0
  Fresh start w n s = (s.writes ≡ w) × (s.nr_wordline_prog_fg ≡ n) × Led start s.ftl

  module _ (start : Ftl) (w : List Access) (n : ℕ) (lpas : List ℕ) (src : List Data) where
    program-Placed :
        (s : WriteState) (before : Ftl) (bus chip blk pg : ℕ)
        → get_next_bus_chip before ≡ (bus, chip)
        → alloc_new_page ut before bus chip ≡ (some (blk, pg), s.ftl)
        → Active ut s.ftl bus chip
        → Led start before
        → (s.writes ≡ w) × (s.nr_wordline_prog_fg ≡ n)
        → Placed start w n lpas src (program ut s bus chip blk pg lpas src)
    unfolding program map_logical_to_physical get_curr_active_block set_prev_bus_chip
    program-Placed s before bus chip blk pg turn given (b, e) led h =
        update_act_blk-elim ut
          (λ o. Placed start w n lpas src (Option.map (done s bus chip blk pg src) o))
          (set_prev_bus_chip (map_logical_to_physical ut s.ftl (nth_lpa lpas) bus chip blk pg) bus
            chip)
          bus chip
          (
            b,
            ap (λ f. f (chip_index bus chip))
                  (act_blks-map_logical_pages ut nr_lp_in_pp s.ftl (nth_lpa lpas) bus chip blk pg 0)
                ∙ e,
          )
          (λ ftl' same. record {
            before = before;
            led = led;
            behind = s.ftl;
            bus = bus;
            chip = chip;
            blk = blk;
            pg = pg;
            turn = turn;
            given = given;
            written =
                ap (λ l. record { bus = bus; chip = chip; blk = blk; pg = pg; src = src } ∷ l) h.0;
            counted = ap (λ i. add_u32 i 1) h.1;
            named =
                same.0
                ∙ mappings-map_logical_pages ut nr_lp_in_pp s.ftl (nth_lpa lpas) bus chip blk pg 0;
            turned = (same.1, same.2);
          })

    try_page-Placed :
        (again : WriteState → Option (Status × WriteState)) (s : WriteState)
        → ((s' : WriteState) → Fresh start w n s' → Placed start w n lpas src (again s'))
        → Fresh start w n s
        → Placed start w n lpas src (try_page ut again s lpas src)
    unfolding try_page
    try_page-Placed again s f h =
        alloc_new_page-elim ut
          (λ (r : Option (ℕ × ℕ) × Ftl).
            alloc_new_page ut s.ftl bus chip ≡ r
            → Placed start w n lpas src (elim r.0 [
              | some p ↦ program ut (record s { ftl = r.1 }) bus chip p.0 p.1 lpas src
              | none ↦ again (record s { ftl = r.1 })
            ]))
          s.ftl bus chip (λ ftl' e. f (record s { ftl = ftl' }) (h.0, h.1, refused bus chip h.2 e))
          (λ p ftl' active given.
            program-Placed (record s { ftl = ftl' }) s.ftl bus chip p.0 p.1 refl given active h.2
              (h.0, h.1))
          refl
      where
        bus : ℕ
        bus = (get_next_bus_chip s.ftl).0

        chip : ℕ
        chip = (get_next_bus_chip s.ftl).1

    behind_gc-Placed :
        (next : WriteState → Option (Status × WriteState)) (s : WriteState)
        → ((s' : WriteState) → Fresh start w n s' → Placed start w n lpas src (next s'))
        → Fresh start w n s
        → Placed start w n lpas src (behind_gc ut trigger_gc next s)
    unfolding behind_gc
    behind_gc-Placed next s f h = go (trigger_gc s.ftl).0
      where
        go :
            (status : Status)
            → Placed start w n lpas src (elim status [
              | error ↦ some (error, record s { ftl = (trigger_gc s.ftl).1 })
              | success ↦ next (record s { ftl = (trigger_gc s.ftl).1 })
            ])
        go error = (h.0, h.1, collected h.2)
        go success = f (record s { ftl = (trigger_gc s.ftl).1 }) (h.0, h.1, collected h.2)

    write_first-Placed :
        (s : WriteState)
        → Fresh start w n s
        → Placed start w n lpas src (write_first ut trigger_gc lpas src s)
    unfolding write_first write_second
    write_first-Placed s h =
        try_page-Placed (behind_gc ut trigger_gc (write_second ut trigger_gc lpas src)) s
          (λ s' h'.
            behind_gc-Placed (write_second ut trigger_gc lpas src) s'
              (λ s'' h''. try_page-Placed (λ s3. some (error, s3)) s'' (λ s3 h3. h3) h'') h')
          h

  pub make_write_request-Placed :
      (s : WriteState) (lpas : List ℕ) (src : List Data)
      → Placed s.ftl s.writes s.nr_wordline_prog_fg lpas src
          (make_write_request ut trigger_gc s lpas src)
  unfolding make_write_request
  make_write_request-Placed s lpas src =
      if_elim (Placed s.ftl s.writes s.nr_wordline_prog_fg lpas src) (is_fgc_needed s.ftl bus chip)
        _ _
        (behind_gc-Placed s.ftl s.writes s.nr_wordline_prog_fg lpas src
          (write_first ut trigger_gc lpas src) s
          (write_first-Placed s.ftl s.writes s.nr_wordline_prog_fg lpas src)
          (refl, refl, unchanged))
        (write_first-Placed s.ftl s.writes s.nr_wordline_prog_fg lpas src s (refl, refl, unchanged))
    where
      bus : ℕ
      bus = (get_next_bus_chip s.ftl).0

      chip : ℕ
      chip = (get_next_bus_chip s.ftl).1
