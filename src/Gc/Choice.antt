-- ===== src/Gc/Choice.antt =====
-- Which block is a victim.
use flashbench.Common.{
  ℕ, ◌<◌, ◌≤◌, ◌≡◌, refl, sym, ap, subst, true, false, Option, none, some, List, [], ◌∷◌, ◌⊎◌, inl,
  inr, arith, ltb, if◌then◌else◌, dec_lt, lt→ltb, ℕ_discrete,
}
use flashbench.Common.Counts.{count, count_head}
use flashbench.Ssd.{SsdInfo, get_dirt_block}
use flashbench.Gc.{most_invalid, select_vic_blk_from_used, select_vic_blk_greedy}

module _ (s : SsdInfo) where
  abbrev invalid : ℕ → ℕ
  invalid b = (s.block_at b).nr_invalid_log_pages

  -- No block of the list has more invalid logical pages than `n`.
  abbrev AtMost : List ℕ → ℕ → Type 0
  AtMost blks n = (b : ℕ) → 0 < count b blks → invalid b ≤ n

  AtMost-cons : (b n : ℕ) (blks : List ℕ) → invalid b ≤ n → AtMost blks n → AtMost (b ∷ blks) n
  AtMost-cons b n blks h m c k = elim (ℕ_discrete b c) [
    | yes e ↦ subst (λ c. invalid c ≤ n) e h
    | no ne ↦ m c (ground (arith, k, ne))
  ]

  -- What the loop over `blks` finds: the block it has found before, or one with more.
  abbrev Found : List ℕ → ℕ → Option ℕ → Option ℕ → Type 0
  Found blks nr_max vic r =
      ((r ≡ vic) × AtMost blks nr_max)
      ⊎ ((v : ℕ) × (r ≡ some v)
          × (0 < count v blks)
          × (nr_max < invalid v)
          × AtMost blks (invalid v))

  count-cons : (v b : ℕ) (blks : List ℕ) → 0 < count v blks → 0 < count v (b ∷ blks)
  count-cons v b blks h = omega (arith, h)

  most_invalid-Found :
      (blks : List ℕ) (nr_max : ℕ) (vic : Option ℕ)
      → Found blks nr_max vic (most_invalid s blks nr_max vic)
  unfolding most_invalid
  most_invalid-Found [] nr_max vic = inl (refl, λ b h. absurd (omega (arith, h)))
  most_invalid-Found (b ∷ blks) nr_max vic = elim (dec_lt nr_max (invalid b)) [
    | yes more ↦
        subst
          (λ t.
            Found (b ∷ blks) nr_max vic
              (most_invalid s blks (if t then invalid b else nr_max) (if t then some b else vic)))
          {x = true} (sym (lt→ltb nr_max (invalid b) more))
          (elim (most_invalid-Found blks (invalid b) (some b)) [
            | inl (e, m) ↦
                inr (b, e, count_head b blks, more, AtMost-cons b (invalid b) blks (omega arith) m)
            | inr (v, e, c, h, m) ↦ inr (
              v,
              e,
              count-cons v b blks c,
              omega (arith, h, more),
              AtMost-cons b (invalid v) blks (omega (arith, h)) m,
            )
          ])
    | no less ↦
        subst
          (λ t.
            Found (b ∷ blks) nr_max vic
              (most_invalid s blks (if t then invalid b else nr_max) (if t then some b else vic)))
          {x = false} (sym (not_ltb nr_max (invalid b) less))
          (elim (most_invalid-Found blks nr_max vic) [
            | inl (e, m) ↦ inl (e, AtMost-cons b nr_max blks (omega (arith, less)) m)
            | inr (v, e, c, h, m) ↦ inr (
              v,
              e,
              count-cons v b blks c,
              h,
              AtMost-cons b (invalid v) blks (omega (arith, h, less)) m,
            )
          ])
  ]
    where
      not_ltb : (a b : ℕ) → (a < b → ⊥) → ltb a b ≡ false
      not_ltb a b h = ground (arith, h)

  -- A block of the list with the most invalid logical pages, at least one; none if no block has any.
  abbrev pub MostInvalid : List ℕ → Option ℕ → Type 0
  MostInvalid blks none = (b : ℕ) → 0 < count b blks → (s.block_at b).nr_invalid_log_pages ≡ 0
  MostInvalid blks (some v) =
      (0 < count v blks)
      × (0 < (s.block_at v).nr_invalid_log_pages)
      × ((b : ℕ)
          → 0 < count b blks
          → (s.block_at b).nr_invalid_log_pages ≤ (s.block_at v).nr_invalid_log_pages)

  pub select_vic_blk_from_used-MostInvalid :
      (bus chip : ℕ)
      → MostInvalid (s.chip_at bus chip).used_blks (select_vic_blk_from_used s bus chip)
  unfolding select_vic_blk_from_used
  select_vic_blk_from_used-MostInvalid bus chip =
      let blks = (s.chip_at bus chip).used_blks in
      elim (most_invalid-Found blks 0 none) [
        | inl (e, m) ↦ subst (MostInvalid blks) (sym e) (λ b h. omega (arith, m b h))
        | inr (v, e, c, h, m) ↦ subst (MostInvalid blks) (sym e) (c, h, m)
      ]

  -- `select_vic_blk_greedy` takes the first dirty block of a chip if there is one. Otherwise it takes
  -- a used block than which none has more invalid logical pages, and finds none only if no used block
  -- has any.
  pub select_vic_blk_greedy_lem :
      (bus chip : ℕ)
      → ((b : ℕ) → get_dirt_block s bus chip ≡ some b → select_vic_blk_greedy s bus chip ≡ some b)
        × (get_dirt_block s bus chip ≡ none
            → MostInvalid (s.chip_at bus chip).used_blks (select_vic_blk_greedy s bus chip))
  unfolding select_vic_blk_greedy
  select_vic_blk_greedy_lem bus chip = (
    (λ b e. ap pick e),
    (λ e.
        subst (MostInvalid (s.chip_at bus chip).used_blks) (sym (ap pick e))
          (select_vic_blk_from_used-MostInvalid bus chip)),
  )
    where
      pick : Option ℕ → Option ℕ
      pick none = select_vic_blk_from_used s bus chip
      pick (some b) = some b
