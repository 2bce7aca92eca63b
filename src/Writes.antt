-- ===== src/Writes.antt =====
-- The write requests of ftl_algorithm_page_mapping.c, from the write buffer to the device. What
-- `vdevice_write` writes is recorded as a list, newest first; the foreground garbage collection,
-- `trigger_gc_page_mapping`, is any function on the mapping that may fail.
pub mod Placed
pub mod Foreground
pub mod Flush
pub mod Pages
use flashbench.Common.{
  ◌>>=◌, ℕ, zero, suc, ◌+◌, ◌-◌, Bool, true, false, ◌&&◌, Option, none, some, List, [], ◌∷◌, Status,
  success, error, if◌then◌else◌,
}
use mathlib.Core.Option
use flashbench.Config.{add_u32, num_buses, num_chips_per_bus, nr_lp_in_pp}
use flashbench.Ut.{Ut}
use flashbench.Ssd.{get_free_block}
use flashbench.WriteBuffer.{WriteBuffer, Data, fb_get_pgs_to_write, fb_rm_written_pgs}
use flashbench.Mapping.{
  Ftl, get_next_bus_chip, set_prev_bus_chip, get_curr_gc_block, alloc_new_page,
  map_logical_to_physical, update_act_blk,
}

abbrev pub is_null {ℓ} : {A : Type ℓ} → Option A → Bool
is_null none = true
is_null (some a) = false

-- A loop of `n` rounds that returns true in a round whose test holds; the test does not look at the
-- loop's variable.
unfoldable pub any_round : ℕ → Bool → Bool
any_round zero test = false
any_round (suc n) test = if test then true else any_round n test

unfoldable pub is_fgc_needed : Ftl → ℕ → ℕ → Bool
unfolding any_round
is_fgc_needed ftl bus chip = any_round (num_chips_per_bus - chip) (
    any_round (num_buses - bus)
      (is_null (get_curr_gc_block ftl bus chip) && is_null (get_free_block ftl.ssd bus chip)))

-- A physical page that is written.
pub record Access : Type 0 where
  pub bus : ℕ
  pub chip : ℕ
  pub blk : ℕ
  pub pg : ℕ
  pub src : List Data

-- The mapping, what was written to the device, and the counter of its pages.
pub record WriteState : Type 0 where
  pub ftl : Ftl
  pub writes : List Access
  pub nr_wordline_prog_fg : ℕ

-- The array of addresses on the stack, which has an entry for each logical page.
abbrev pub nth_lpa : List ℕ → ℕ → ℕ
nth_lpa [] i = 0
nth_lpa (lpa ∷ lpas) zero = lpa
nth_lpa (lpa ∷ lpas) (suc i) = nth_lpa lpas i

module _ (ut : Ut) where
  -- The statements of `make_write_request_page_mapping` behind the allocation of a page; `none` is
  -- the use of a null active block.
  unfoldable pub program :
      WriteState → ℕ → ℕ → ℕ → ℕ → List ℕ → List Data → Option (Status × WriteState)
  program s bus chip blk pg lpas src =
      Option.map
        (λ ftl. (
          success,
          record s {
            ftl = ftl;
            writes = record { bus = bus; chip = chip; blk = blk; pg = pg; src = src } ∷ s.writes;
            nr_wordline_prog_fg = add_u32 s.nr_wordline_prog_fg 1;
          },
        ))
        (update_act_blk ut
          (set_prev_bus_chip (map_logical_to_physical ut s.ftl (nth_lpa lpas) bus chip blk pg) bus
            chip)
          bus chip)

  -- A try to write to the chip whose turn it is; `again` is what follows if it has no page.
  unfoldable pub try_page :
      (WriteState → Option (Status × WriteState))
      → WriteState
      → List ℕ
      → List Data
      → Option (Status × WriteState)
  unfolding program
  try_page again s lpas src =
      let (bus, chip) = get_next_bus_chip s.ftl in
      let (page, ftl) = alloc_new_page ut s.ftl bus chip in
      let failed = again (record s { ftl = ftl }) in
      elim page [
        | some p ↦ program (record s { ftl = ftl }) bus chip p.0 p.1 lpas src
        | none ↦ failed
      ]

  module _ (trigger_gc : Ftl → Status × Ftl) where
    -- A garbage collection, and what follows it if it succeeds.
    unfoldable pub behind_gc :
        (WriteState → Option (Status × WriteState)) → WriteState → Option (Status × WriteState)
    behind_gc next s =
        let (status, ftl) = trigger_gc s.ftl in
        elim status [
          | error ↦ some (error, record s { ftl = ftl })
          | success ↦ next (record s { ftl = ftl })
        ]

    -- From the second allocation on, and from the first one on.
    unfoldable pub write_second : List ℕ → List Data → WriteState → Option (Status × WriteState)
    unfolding try_page
    write_second lpas src s = try_page (λ s'. some (error, s')) s lpas src

    unfoldable pub write_first : List ℕ → List Data → WriteState → Option (Status × WriteState)
    unfolding try_page behind_gc write_second
    write_first lpas src s = try_page (behind_gc (write_second lpas src)) s lpas src

    unfoldable pub make_write_request :
        WriteState → List ℕ → List Data → Option (Status × WriteState)
    unfolding write_first is_fgc_needed
    make_write_request s lpas src =
        let (bus, chip) = get_next_bus_chip s.ftl in
        if is_fgc_needed s.ftl bus chip
        then behind_gc (write_first lpas src) s
        else write_first lpas src s

    -- `fb_wb_flush` with at most `fuel` rounds; `none` is a loop that has not ended by then, or the
    -- use of a null pointer.
    unfoldable pub fb_wb_flush :
        ℕ → WriteState → WriteBuffer ut → Option (Status × WriteState × WriteBuffer ut)
    unfolding make_write_request
    fb_wb_flush zero s wb = none
    fb_wb_flush (suc fuel) s wb = do
      (status, lpas, src, wb') ← fb_get_pgs_to_write ut wb nr_lp_in_pp
      elim status [
        | error ↦ some (success, s, wb')
        | success ↦ do
          (written, s') ← make_write_request s lpas src
          elim written [
            | error ↦ some (error, s', wb')
            | success ↦ fb_wb_flush fuel s' (fb_rm_written_pgs ut wb')
          ]
      ]
