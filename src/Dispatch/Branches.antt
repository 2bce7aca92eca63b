-- ===== src/Dispatch/Branches.antt =====
-- The ways through `make_request`.
use flashbench.Common.{
  ◌≡◌, refl, true, false, Option, none, some, Status, success, error, if_split, ℕ,
}
use flashbench.Ut.{Ut}
use flashbench.Mapping.{Ftl}
use flashbench.Requests.{Direction, read, write}
use flashbench.Writes.Pages.{Incoming}
use flashbench.Dispatch.{
  Request, Kernel, Fb, fb_update_bgc_ts, end_bio, drop_fbio, req_finish, fail, discard_branch,
  build, read_branch, write_branch, serve, make_request,
}

serve_elim {ℓ κ} :
    {R : Type ℓ} (P : R → Type κ) (o : Option ℕ) (d : Direction) (x : R) (y z : ℕ → R)
    → (o ≡ none → P x)
    → ((p : ℕ) → o ≡ some p → d ≡ read → P (y p))
    → ((p : ℕ) → o ≡ some p → d ≡ write → P (z p))
    → P (elim o [ none ↦ x | some p ↦ elim d [ read ↦ y p | write ↦ z p ] ])
serve_elim P none d x y z f g h = f refl
serve_elim P (some p) read x y z f g h = g p refl refl
serve_elim P (some p) write x y z f g h = h p refl refl

module _ (ut : Ut) where
  -- The state behind the first statement.
  abbrev pub begun : Kernel → Fb ut → Fb ut
  begun k fb = fb_update_bgc_ts ut k.time_begin fb

  -- What follows the pages of a request that writes.
  abbrev pub written : Kernel → Request → ℕ → Fb ut → Status × Incoming ut → Fb ut
  written k q p fb r = elim r.0 [
    | success ↦ req_finish ut k q (some p) (record fb { incoming = r.1 })
    | error ↦ fail ut q (some p) 0 (record fb { incoming = r.1 })
  ]

module _ (ut : Ut) (trigger_gc : Ftl → Status × Ftl) where
  pub make_request_elim {κ} :
      (P : Option (Fb ut) → Type κ) (k : Kernel) (q : Request) (fb : Fb ut)
      → (fb.err ≡ true → P (some (fail ut q none 0 (begun ut k fb))))
      → (fb.err ≡ false → q.preflush ≡ true → P (some (req_finish ut k q none (begun ut k fb))))
      → (fb.err ≡ false
          → q.preflush ≡ false
          → q.discard ≡ true
          → P (some (req_finish ut k q none (discard_branch ut q (begun ut k fb)))))
      → (fb.err ≡ false
          → q.preflush ≡ false
          → q.discard ≡ false
          → k.fbio ≡ none
          → P (some (fail ut q none k.minus_enodev (begun ut k fb))))
      → ((p : ℕ)
          → fb.err ≡ false
          → q.preflush ≡ false
          → q.discard ≡ false
          → k.fbio ≡ some p
          → q.rw ≡ read
          → P (some (req_finish ut k q (some p) (read_branch ut p (build ut q p (begun ut k fb))))))
      → ((p : ℕ)
          → fb.err ≡ false
          → q.preflush ≡ false
          → q.discard ≡ false
          → k.fbio ≡ some p
          → q.rw ≡ write
          → P (write_branch ut trigger_gc k q p (build ut q p (begun ut k fb))))
      → P (make_request ut trigger_gc k q fb)
  unfolding make_request serve fb_update_bgc_ts
  make_request_elim P k q fb failed flush discard refused reading writing =
      if_split P fb.err _ _ failed (λ e. if_split P q.preflush _ _ (flush e) (λ f.
        if_split P q.discard _ _ (discard e f) (λ d.
          serve_elim P k.fbio q.rw _ _ _ (refused e f d) (λ p a r. reading p e f d a r)
            (λ p a w. writing p e f d a w))))

direction_elim {ℓ κ} :
    {R : Type ℓ} (P : R → Type κ) (d : Direction) (x y : R)
    → (d ≡ read → P x)
    → (d ≡ write → P y)
    → P (elim d [ read ↦ x | write ↦ y ])
direction_elim P read x y f g = f refl
direction_elim P write x y f g = g refl

module _ (ut : Ut) where
  pub req_finish_elim {κ} :
      (P : Fb ut → Type κ) (k : Kernel) (q : Request) (fbio : Option ℕ) (fb : Fb ut)
      → (q.rw ≡ read → P (fb_update_bgc_ts ut k.time_end fb))
      → (q.rw ≡ write → P (fb_update_bgc_ts ut k.time_end (drop_fbio ut fbio (end_bio ut q fb))))
      → P (req_finish ut k q fbio fb)
  unfolding req_finish
  req_finish_elim P k q fbio fb reading writing =
      direction_elim (λ fb'. P (fb_update_bgc_ts ut k.time_end fb')) q.rw _ _ reading writing
