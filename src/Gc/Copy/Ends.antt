-- ===== src/Gc/Copy/Ends.antt =====
-- That the reading of the victims' pages ends.
use mathlib.Core.Option
use flashbench.Common.{
  Each, bool_elim, ℕ, suc, ◌*◌, ◌<◌, ◌≤◌, ◌≡◌, refl, sym, subst, true, false, Option, none, some,
  List, length, arith, ltb,
}
use flashbench.Config.{u32_mod, num_chips, num_pages_per_block, nr_lp_in_pp}
use flashbench.Gc.{GcState}
use flashbench.Gc.Copy.{Fetch, fetch_pages, fetch_all, get_valid_pgs_in_vic_blks}
use flashbench.Gc.Copy.Fetched.{
  Counted, Fetched, Fetched-none, length-zero, pages_lpas, write_at, fetch_pages-Fetched,
}

-- The addresses of the valid logical pages of the victims.
abbrev pub victims_lpas : GcState → List ℕ
victims_lpas g = pages_lpas g.ftl.ssd g.gcm.vic_blks num_pages_per_block 0

abbrev fetch_start : GcState → Fetch
fetch_start g = record { g = g; ptr_lpa = 0; ptr_data = 0; nr_read_pgs = 0 }

-- The victims' pages are read: their addresses stand in the array in the order of the loops.
pub record Collected (g g' : GcState) : Type 0 where
  pub lpas : g'.gcm.lpas_to_copy ≡ write_at g.gcm.lpas_to_copy 0 (victims_lpas g)
  pub same_ftl : g'.ftl ≡ g.ftl
  pub same_goal : g'.gcm.nr_pgs_to_copy ≡ g.gcm.nr_pgs_to_copy

Fetched-Collected :
    (g : GcState) (f : Fetch) → Fetched (fetch_start g) f (victims_lpas g) → Collected g f.g
Fetched-Collected g f h = record { lpas = h.lpas; same_ftl = h.same_ftl; same_goal = h.same_goal }

fetch_all-Fetched :
    (fuel : ℕ) (f : Fetch) (xs : List ℕ)
    → f.nr_read_pgs ≡ 0
    → f.g.gcm.nr_pgs_to_copy ≡ length xs
    → length xs < u32_mod
    → Fetched f (fetch_pages num_pages_per_block 0 f) xs
    → Each (λ f'. Fetched f f' xs) (fetch_all (suc (suc fuel)) f)
unfolding fetch_all
fetch_all-Fetched fuel f xs start goal small h =
    let f1 = fetch_pages num_pages_per_block 0 f in
    bool_elim (Each (λ f'. Fetched f f' xs)) (ltb f.nr_read_pgs f.g.gcm.nr_pgs_to_copy) _ _
      (λ _.
        bool_elim (Each (λ f'. Fetched f f' xs)) (ltb f1.nr_read_pgs f1.g.gcm.nr_pgs_to_copy) _ _
          (λ e. absurd (
            done f1.nr_read_pgs f1.g.gcm.nr_pgs_to_copy e (
              omega (
                arith,
                h.nr_read,
                h.same_goal,
                h.small (omega (arith, start)),
                start,
                goal,
                small,
              ))))
          (λ _. h))
      (λ e.
        subst (Fetched f f)
          (sym
            (length-zero xs (empty f.nr_read_pgs f.g.gcm.nr_pgs_to_copy (length xs) e start goal)))
          (Fetched-none f))
  where
    done : (a b : ℕ) → ltb a b ≡ true → a ≡ b → ⊥
    done a b e h = ground (arith, e, h)

    empty : (a b c : ℕ) → ltb a b ≡ false → a ≡ 0 → b ≡ c → c ≡ 0
    empty a b c e h k = ground (arith, e, h, k)

-- The counters of the victims' pages agree with the pages' slots, and `nr_pgs_to_copy` is the number
-- of their valid logical pages, for which the arrays have room.
pub record IsCounted (g : GcState) : Type 0 where
  pub counted : Counted g.ftl.ssd g.gcm.vic_blks
  pub goal : g.gcm.nr_pgs_to_copy ≡ length (victims_lpas g)
  pub fits : length (victims_lpas g) ≤ num_chips * num_pages_per_block * nr_lp_in_pp

-- Where the counters of the victims' pages agree with the pages' slots, and `nr_pgs_to_copy` is
-- the number of their valid logical pages, for which the arrays have room, the outer loop of
-- `get_valid_pgs_in_vic_blks` ends behind at most one round: the addresses of these logical pages
-- then stand in the array, in the order of the loops, and the mapping and `nr_pgs_to_copy` are as
-- they were.
pub get_valid_pgs_in_vic_blks-Collected :
    (fuel : ℕ) (g : GcState)
    → IsCounted g
    → Each (Collected g) (get_valid_pgs_in_vic_blks (suc (suc fuel)) g)
unfolding get_valid_pgs_in_vic_blks
get_valid_pgs_in_vic_blks-Collected fuel g h =
    let f = fetch_start g in
    go _ (
      fetch_all-Fetched fuel f (victims_lpas g) refl h.goal (omega (arith, h.fits)) (
        fetch_pages-Fetched g.ftl.ssd g.gcm.vic_blks h.counted num_pages_per_block 0 f (omega arith)
          (refl, refl)))
  where
    go :
        (o : Option Fetch)
        → Each (λ f'. Fetched (fetch_start g) f' (victims_lpas g)) o
        → Each (Collected g) (Option.map (λ (f : Fetch). f.g) o)
    go none e = e
    go (some f') e = Fetched-Collected g f' e
