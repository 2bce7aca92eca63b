-- ===== src/Gc/Background/Within.antt =====
-- How many pages are read.
use flashbench.Common.{
  ℕ, zero, suc, ◌+◌, ◌*◌, ◌≤◌, ◌≡◌, refl, sym, subst, ◌∙◌, length, arith, Status, success, error,
  if_elim, opt_elim,
}
use flashbench.Config.{nr_lp_in_pp}
use flashbench.Ssd.{SsdInfo, get_pgi_from_blki}
use flashbench.Mapping.{set_prev_bus_chip, get_next_bus_chip}
use flashbench.Gc.{on_success, get_vic_blk, get_first_valid_pg}
use flashbench.Gc.Background.{BgcFetch, each_turn, bgc_fetch_page, bgc_fetch_chip}

-- No page has more invalid logical pages than it has slots.
abbrev pub Slotted : SsdInfo → Type 0
Slotted s = (b pg : ℕ) → ((s.block_at b).list_pages pg).nr_invalid_log_pages ≤ nr_lp_in_pp

-- At most `n` pages were read.
pub record Within (n : ℕ) (f f' : BgcFetch) : Type 0 where
  pub ssd : f'.g.ftl.ssd ≡ f.g.ftl.ssd
  pub accesses : length f'.g.accesses ≤ length f.g.accesses + n
  pub goal : f'.g.gcm.nr_pgs_to_copy ≤ f.g.gcm.nr_pgs_to_copy + nr_lp_in_pp * n

Within-refl : (n : ℕ) (f : BgcFetch) → Within n f f
Within-refl n f = record { ssd = refl; accesses = omega arith; goal = omega arith }

bgc_fetch_page-Within :
    (bus chip b pg : ℕ) (f : BgcFetch)
    → Slotted f.g.ftl.ssd
    → Within 1 f (bgc_fetch_page bus chip b pg f).1
unfolding bgc_fetch_page get_pgi_from_blki set_prev_bus_chip
bgc_fetch_page-Within bus chip b pg f h =
    if_elim (λ (r : Status × BgcFetch). Within 1 f r.1) _ _ _ (Within-refl 1 f)
      (record { ssd = refl; accesses = omega arith; goal = omega (arith, h b pg) })

bgc_fetch_chip-Within :
    (bus chip : ℕ) (f : BgcFetch) → Slotted f.g.ftl.ssd → Within 1 f (bgc_fetch_chip bus chip f).1
unfolding bgc_fetch_chip set_prev_bus_chip
bgc_fetch_chip-Within bus chip f h =
    opt_elim (λ (r : Status × BgcFetch). Within 1 f r.1) (get_vic_blk f.g bus chip)
      (success, record f { g = record f.g { ftl = set_prev_bus_chip f.g.ftl bus chip } })
      (λ b. bgc_fetch_page bus chip b (get_first_valid_pg f.g bus chip) f)
      (record { ssd = refl; accesses = omega arith; goal = omega arith })
      (λ b. bgc_fetch_page-Within bus chip b (get_first_valid_pg f.g bus chip) f h)

abbrev pub fetch_turn : BgcFetch → ℕ × ℕ
fetch_turn f = get_next_bus_chip f.g.ftl

pub fetch_turns-Within :
    (n : ℕ) (f : BgcFetch)
    → Slotted f.g.ftl.ssd
    → Within n f (each_turn fetch_turn bgc_fetch_chip n f).1
fetch_turns-Within zero f h = Within-refl 0 f
fetch_turns-Within (suc n) f h =
    go (bgc_fetch_chip (fetch_turn f).0 (fetch_turn f).1 f)
      (bgc_fetch_chip-Within (fetch_turn f).0 (fetch_turn f).1 f h) (fetch_turns-Within n)
  where
    go :
        (r : Status × BgcFetch)
        → Within 1 f r.1
        → ((f' : BgcFetch)
            → Slotted f'.g.ftl.ssd
            → Within n f' (each_turn fetch_turn bgc_fetch_chip n f').1)
        → Within (suc n) f (on_success (each_turn fetch_turn bgc_fetch_chip n) r).1
    go (error, f') w ih = record {
      ssd = w.ssd;
      accesses = omega (arith, w.accesses);
      goal = omega (arith, w.goal);
    }
    go (success, f') w ih =
        let next = ih f' (subst Slotted (sym w.ssd) h) in
        record {
          ssd = next.ssd ∙ w.ssd;
          accesses = omega (arith, w.accesses, next.accesses);
          goal = omega (arith, w.goal, next.goal);
        }
