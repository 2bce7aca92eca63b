-- ===== src/Ssd/Fresh.antt =====
-- A block behind `init_blk_inf`.
use flashbench.Common.{
  ℕ, zero, suc, ◌<◌, ◌≡◌, refl, sym, ap, subst, ◌∙◌, arith, update, update_self, update_ne,
  ℕ_discrete, false,
}
use flashbench.Config.{num_pages_per_block, nr_lp_in_pp, page_unmapped}
use flashbench.Ssd.{
  FlashPage, FlashBlock, page_status_free, init_lps, init_pgs, init_blk_inf, get_pgi_from_blki,
  get_pg_status, get_mapped_lpa,
}

-- A page that nothing was written to.
pub record Fresh (pgi : FlashPage) : Type 0 where
  pub status : (ofs : ℕ) → ofs < nr_lp_in_pp → get_pg_status pgi ofs ≡ page_status_free
  pub lpa : (ofs : ℕ) → ofs < nr_lp_in_pp → get_mapped_lpa pgi ofs ≡ page_unmapped
  pub none_invalid : pgi.nr_invalid_log_pages ≡ 0

init_lps_status :
    (n : ℕ) (pgi : FlashPage) (ofs : ℕ)
    → ofs < n
    → (init_lps n pgi).page_status ofs ≡ page_status_free
unfolding init_lps
init_lps_status zero pgi ofs h = absurd (omega arith)
init_lps_status (suc n) pgi ofs h = elim (ℕ_discrete n ofs) [
  | yes e ↦
      ap (update (init_lps n pgi).page_status n page_status_free) (sym e)
      ∙ update_self (init_lps n pgi).page_status n page_status_free
  | no ne ↦
      update_ne (init_lps n pgi).page_status page_status_free ne
      ∙ init_lps_status n pgi ofs (omega arith)
]

init_lps_lpa :
    (n : ℕ) (pgi : FlashPage) (ofs : ℕ)
    → ofs < n
    → (init_lps n pgi).no_logical_page_addr ofs ≡ page_unmapped
unfolding init_lps
init_lps_lpa zero pgi ofs h = absurd (omega arith)
init_lps_lpa (suc n) pgi ofs h = elim (ℕ_discrete n ofs) [
  | yes e ↦
      ap (update (init_lps n pgi).no_logical_page_addr n page_unmapped) (sym e)
      ∙ update_self (init_lps n pgi).no_logical_page_addr n page_unmapped
  | no ne ↦
      update_ne (init_lps n pgi).no_logical_page_addr page_unmapped ne
      ∙ init_lps_lpa n pgi ofs (omega arith)
]

init_lps_invalid :
    (n : ℕ) (pgi : FlashPage) → (init_lps n pgi).nr_invalid_log_pages ≡ pgi.nr_invalid_log_pages
unfolding init_lps
init_lps_invalid zero pgi = refl
init_lps_invalid (suc n) pgi = init_lps_invalid n pgi

init_lps-Fresh : (pgi : FlashPage) → pgi.nr_invalid_log_pages ≡ 0 → Fresh (init_lps nr_lp_in_pp pgi)
unfolding get_pg_status get_mapped_lpa
init_lps-Fresh pgi e = record {
  status = init_lps_status nr_lp_in_pp pgi;
  lpa = init_lps_lpa nr_lp_in_pp pgi;
  none_invalid = init_lps_invalid nr_lp_in_pp pgi ∙ e;
}

init_pgs-Fresh : (n : ℕ) (pages : ℕ → FlashPage) (pg : ℕ) → pg < n → Fresh (init_pgs n pages pg)
unfolding init_pgs
init_pgs-Fresh zero pages pg h = absurd (omega arith)
init_pgs-Fresh (suc n) pages pg h = elim (ℕ_discrete n pg) [
  | yes e ↦
      subst Fresh
        (sym (ap (update (init_pgs n pages) n new) (sym e) ∙ update_self (init_pgs n pages) n new))
        (init_lps-Fresh emptied refl)
  | no ne ↦
      subst Fresh (sym (update_ne (init_pgs n pages) new ne))
        (init_pgs-Fresh n pages pg (omega arith))
]
  where
    emptied : FlashPage
    emptied = record (init_pgs n pages n) { nr_invalid_log_pages = 0; del_flag = false }

    new : FlashPage
    new = init_lps nr_lp_in_pp emptied

-- Behind `init_blk_inf` the block counts as unused, all its pages are free and map no logical page, and
-- the number of its erasures is kept.
pub init_blk_inf-Fresh :
    (blki : FlashBlock)
    → ((pg : ℕ) → pg < num_pages_per_block → Fresh (get_pgi_from_blki (init_blk_inf blki) pg))
      × ((init_blk_inf blki).nr_free_pages ≡ num_pages_per_block)
      × ((init_blk_inf blki).is_active_block ≡ false)
      × ((init_blk_inf blki).is_reserved_block ≡ false)
      × ((init_blk_inf blki).nr_erase_cnt ≡ blki.nr_erase_cnt)
unfolding init_blk_inf get_pgi_from_blki
init_blk_inf-Fresh blki =
    (init_pgs-Fresh num_pages_per_block blki.list_pages, refl, refl, refl, refl)
