-- ===== src/Writes/Foreground.antt =====
-- A write request: the test for garbage collection, and how many pages it writes.
use flashbench.Common.{
  ℕ, zero, suc, ◌+◌, ◌-◌, ◌<◌, ◌≡◌, refl, ap, ◌∙◌, Bool, true, false, ◌&&◌, Option, none, some,
  List, arith, length, Status, success, error,
}
use flashbench.Config.{num_buses, num_chips_per_bus}
use flashbench.Ut.{Ut}
use flashbench.Ssd.{get_free_block}
use flashbench.WriteBuffer.{Data}
use flashbench.Mapping.{Ftl, get_curr_gc_block}
use flashbench.Writes.Placed.{Placed, make_write_request-Placed}
use flashbench.Writes.{Access, is_null, any_round, is_fgc_needed, WriteState, make_write_request}

any_round-false : (n : ℕ) → any_round n false ≡ false
unfolding any_round
any_round-false zero = refl
any_round-false (suc n) = any_round-false n

any_round_lem : (n : ℕ) (test : Bool) → 0 < n → any_round n test ≡ test
unfolding any_round
any_round_lem zero test h = absurd (omega arith)
any_round_lem (suc n) true h = refl
any_round_lem (suc n) false h = any_round-false n

-- For a chip of the device the loops of `is_fgc_needed` come to one test of the chip itself: it has
-- neither a block for garbage collection nor a free block.
pub is_fgc_needed_lem :
    (ftl : Ftl) (bus chip : ℕ)
    → bus < num_buses
    → chip < num_chips_per_bus
    → is_fgc_needed ftl bus chip
      ≡ (is_null (get_curr_gc_block ftl bus chip) && is_null (get_free_block ftl.ssd bus chip))
unfolding is_fgc_needed
is_fgc_needed_lem ftl bus chip h k =
    any_round_lem (num_chips_per_bus - chip) _ (omega arith)
    ∙ any_round_lem (num_buses - bus) _ (omega arith)

module _ (ut : Ut) where
  -- How many physical pages a request has written; there is always a result.
  abbrev pub Wrote : ℕ → Option (Status × WriteState) → Type 0
  Wrote w none = ⊥
  Wrote w (some (success, s)) = length s.writes ≡ w + 1
  Wrote w (some (error, s)) = length s.writes ≡ w

  pub Placed-Wrote :
      (trigger_gc : Ftl → Status × Ftl) (start : Ftl) (w : List Access) (n : ℕ) (lpas : List ℕ)
      (src : List Data) (o : Option (Status × WriteState))
      → Placed ut trigger_gc start w n lpas src o
      → Wrote (length w) o
  Placed-Wrote trigger_gc start w n lpas src none p = p
  Placed-Wrote trigger_gc start w n lpas src (some (success, s)) p =
      omega (arith, ap length p.written)
  Placed-Wrote trigger_gc start w n lpas src (some (error, s)) p = ap length p.0

  module _ (trigger_gc : Ftl → Status × Ftl) where
    -- A write request always has a result: it never meets a null active block. It writes one
    -- physical page if it succeeds, and none if it fails, whatever garbage collection does.
    pub make_write_request-Wrote :
        (s : WriteState) (lpas : List ℕ) (src : List Data)
        → Wrote (length s.writes) (make_write_request ut trigger_gc s lpas src)
    make_write_request-Wrote s lpas src =
        Placed-Wrote trigger_gc s.ftl s.writes s.nr_wordline_prog_fg lpas src
          (make_write_request ut trigger_gc s lpas src)
          (make_write_request-Placed ut trigger_gc s lpas src)
