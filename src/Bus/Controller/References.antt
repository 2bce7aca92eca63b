-- ===== src/Bus/Controller/References.antt =====
-- Who holds a request: the operations that wait or run on the bus and name it, and those that the
-- driver has yet to hand over. The count in a live `fb_bio_t` is their number.
use flashbench.Common.{
  ℕ, suc, ◌+◌, ◌<◌, ◌≡◌, ◌≢◌, refl, sym, ap, ◌∙◌, inl, inr, Bool, true, false, ◌&&◌, Option, none,
  some, List, [], ◌∷◌, arith, ◌==◌, if◌then◌else◌, update, update_self, update_ne, update_cases,
  ltb, leb, Bool-cases, ℕ_discrete,
}
use flashbench.Common.Sums.{sum_below, sum_below_change}
use flashbench.Config.{num_chips_per_bus, u32_mod, sub_u32}
use flashbench.Bio.{FbBio, Bios, finish_one}
use flashbench.Bus.Queue.{Operation}
use flashbench.Bus.Queue.Refine.{contents}
use flashbench.Bus.Busy.{ChipBusy, idle, is_acquired, release_busy_lock}
use flashbench.Bus.Controller.{State, release_if_due}
use flashbench.Bus.Controller.View.{chip_view}

-- 1 if the pointer is `p`.
abbrev pub points_to : ℕ → Option ℕ → ℕ
points_to p none = 0
points_to p (some q) = if q == p then 1 else 0

points_to_self : (q : ℕ) → points_to q (some q) ≡ 1
points_to_self q = ground arith

points_to_other : {q p : ℕ} → q ≢ p → points_to p (some q) ≡ 0
points_to_other ne = ground arith

abbrev pub waiting : ℕ → List Operation → ℕ
waiting p [] = 0
waiting p (o ∷ f) = points_to p o.ptr_fb_bio + waiting p f

abbrev pub view_refs : ℕ → List Operation × ChipBusy → ℕ
view_refs p v = waiting p v.0 + points_to p v.1.ptr_fb_bio

-- The operations of the bus that name the request at `p`.
abbrev pub refs : ℕ → State → ℕ
refs p s = sum_below num_chips_per_bus (λ c. view_refs p (chip_view s c))

-- `pending p` operations of the request at `p` are still to be put into a queue.
pub record Accounted (pending : ℕ → ℕ) (s : State) : Type 0 where
  pub safe : s.bios.use_after_free ≡ false
  pub counts : (p : ℕ) → s.bios.live p ≡ true → (s.bios.fb_bio p).req_count ≡ refs p s + pending p
  pub small : (p : ℕ) → s.bios.live p ≡ true → (s.bios.fb_bio p).req_count < u32_mod
  pub gone : (p : ℕ) → s.bios.live p ≡ false → refs p s + pending p ≡ 0
  pub clean :
      (c : ℕ)
      → c < num_chips_per_bus
      → is_acquired (s.chip_busies c) ≡ false
      → (s.chip_busies c).ptr_fb_bio ≡ none

-- One operation of a live request with `k` others is done.
pub finish_one_live :
    (s : Bios) (q k : ℕ)
    → s.live q ≡ true
    → (s.fb_bio q).req_count ≡ suc k
    → suc k < u32_mod
    → finish_one s q ≡ record {
      fb_bio = update s.fb_bio q (record (s.fb_bio q) { req_count = k });
      live = if k == 0 then update s.live q false else s.live;
      ended = if k == 0 then (s.fb_bio q).bio ∷ s.ended else s.ended;
      use_after_free = s.use_after_free;
    }
unfolding finish_one
finish_one_live s q k l e h =
    rw ret
      (elim (Bool-cases (k == 0)) [ inl z ↦ rw z (ground arith) | inr z ↦ rw z (ground arith) ])
  where
    ret : sub_u32 (s.fb_bio q).req_count 1 ≡ k
    ret = omega arith

-- A chip whose request is over, with the requests in flight as they are then.
abbrev over : ℕ → State → Bios → State
over chip s bios = record {
  controller = record (s.controller) { chip_busies = update s.chip_busies chip idle };
  bios = bios;
}

refs-over :
    (p chip : ℕ) (s : State) (bios : Bios)
    → chip < num_chips_per_bus
    → refs p (over chip s bios) + points_to p (s.chip_busies chip).ptr_fb_bio ≡ refs p s
refs-over p chip s bios h = omega (
  arith,
  sum_below_change num_chips_per_bus chip (λ c. view_refs p (chip_view s c))
      (λ c. view_refs p (chip_view (over chip s bios) c)) h
      (λ c ne.
        ap (λ b. waiting p (contents (s.opr_queue c)) + points_to p b.ptr_fb_bio)
          (sym (update_ne s.chip_busies idle (λ e. ne (sym e))))),
  ap (λ b. points_to p b.ptr_fb_bio) (update_self s.chip_busies chip idle),
)

over-clean :
    {pending : ℕ → ℕ} (chip : ℕ) (s : State) (bios : Bios)
    → Accounted pending s
    → (c : ℕ) → c < num_chips_per_bus
    → is_acquired ((over chip s bios).chip_busies c) ≡ false
    → ((over chip s bios).chip_busies c).ptr_fb_bio ≡ none
over-clean chip s bios a c h =
    update_cases (λ busy. is_acquired busy ≡ false → busy.ptr_fb_bio ≡ none) s.chip_busies chip c
      idle (λ e. refl) (a.clean c h)

live_other :
    (b : Bool) (live : ℕ → Bool) {q p : ℕ}
    → q ≢ p
    → (if b then update live q false else live) p ≡ live p
live_other true live ne = update_ne live false ne
live_other false live ne = refl

live_gone :
    (k : ℕ) (live : ℕ → Bool) (q : ℕ)
    → live q ≡ true
    → (if k == 0 then update live q false else live) q ≡ false
    → k ≡ 0
live_gone k live q l d = elim (Bool-cases (k == 0)) [
  | inl z ↦ ground arith
  | inr z ↦
      (let d' : live q ≡ false =
          ap (λ b. (if b then update live q false else live) q) (sym z) ∙ d in
        cc)
]

-- The request of the chip ends: its `fb_bio_t`, if it has one, is live, and one operation of it is done.
over_named :
    {pending : ℕ → ℕ} (chip q : ℕ) (s : State)
    → chip < num_chips_per_bus
    → Accounted pending s
    → (s.chip_busies chip).ptr_fb_bio ≡ some q
    → Accounted pending (over chip s (finish_one s.bios q))
over_named {pending} chip q s h a e = record {
  safe = rw finished (a.safe);
  counts = λ p. rw finished (go_counts p (ℕ_discrete q p));
  small = λ p. rw finished (go_small p (ℕ_discrete q p));
  gone = λ p. rw finished (go_gone p (ℕ_discrete q p));
  clean = over-clean chip s (finish_one s.bios q) a;
}
  where
    k : ℕ
    k = refs q (over chip s s.bios) + pending q

    one_less : refs q s ≡ suc (refs q (over chip s s.bios))
    one_less = omega (arith, refs-over q chip s s.bios h, ap (points_to q) e, points_to_self q)

    alive : s.bios.live q ≡ true
    alive = elim (Bool-cases (s.bios.live q)) [
      | inl l ↦ l
      | inr d ↦ absurd (omega (arith, a.gone q d, one_less))
    ]

    finished : finish_one s.bios q ≡ record {
      fb_bio = update s.bios.fb_bio q (record (s.bios.fb_bio q) { req_count = k });
      live = if k == 0 then update s.bios.live q false else s.bios.live;
      ended = if k == 0 then (s.bios.fb_bio q).bio ∷ s.bios.ended else s.bios.ended;
      use_after_free = s.bios.use_after_free;
    }
    finished =
        finish_one_live s.bios q k alive (omega (arith, a.counts q alive, one_less))
          (omega (arith, a.counts q alive, a.small q alive, one_less))

    live' : ℕ → Bool
    live' = if k == 0 then update s.bios.live q false else s.bios.live

    memory : ℕ → FbBio
    memory = update s.bios.fb_bio q (record (s.bios.fb_bio q) { req_count = k })

    -- Another request has lost nothing.
    same_refs : (p : ℕ) → q ≢ p → refs p (over chip s s.bios) ≡ refs p s
    same_refs p ne =
        omega (arith, refs-over p chip s s.bios h, ap (points_to p) e, points_to_other ne)

    count_self : (memory q).req_count ≡ k
    count_self = ap (λ (b : FbBio). b.req_count) (update_self s.bios.fb_bio q _)

    count_other : (p : ℕ) → q ≢ p → (memory p).req_count ≡ (s.bios.fb_bio p).req_count
    count_other p ne = ap (λ (b : FbBio). b.req_count) (update_ne s.bios.fb_bio _ ne)

    go_counts :
        (p : ℕ)
        → Dec (q ≡ p)
        → live' p ≡ true
        → (memory p).req_count ≡ refs p (over chip s s.bios) + pending p
    go_counts p (yes d) l = rw (← d) count_self
    go_counts p (no ne) l = omega (
      arith,
      count_other p ne,
      same_refs p ne,
      a.counts p (sym (live_other (k == 0) s.bios.live ne) ∙ l),
    )

    go_small : (p : ℕ) → Dec (q ≡ p) → live' p ≡ true → (memory p).req_count < u32_mod
    go_small p (yes d) l =
        rw (← d) (omega (arith, count_self, a.small q alive, a.counts q alive, one_less))
    go_small p (no ne) l =
        omega (arith, count_other p ne, a.small p (sym (live_other (k == 0) s.bios.live ne) ∙ l))

    go_gone : (p : ℕ) → Dec (q ≡ p) → live' p ≡ false → refs p (over chip s s.bios) + pending p ≡ 0
    go_gone p (yes d) l = rw (← d) (live_gone k s.bios.live q alive (ap live' d ∙ l))
    go_gone p (no ne) l =
        omega (arith, same_refs p ne, a.gone p (sym (live_other (k == 0) s.bios.live ne) ∙ l))

over_unnamed :
    {pending : ℕ → ℕ} (chip : ℕ) (s : State)
    → chip < num_chips_per_bus
    → Accounted pending s
    → (s.chip_busies chip).ptr_fb_bio ≡ none
    → Accounted pending (over chip s s.bios)
over_unnamed {pending} chip s h a e = record {
  safe = a.safe;
  counts = λ p l. a.counts p l ∙ ap (λ n. n + pending p) (same p);
  small = a.small;
  gone = λ p l. ap (λ n. n + pending p) (sym (same p)) ∙ a.gone p l;
  clean = over-clean chip s s.bios a;
}
  where
    same : (p : ℕ) → refs p s ≡ refs p (over chip s s.bios)
    same p = omega (arith, refs-over p chip s s.bios h, ap (points_to p) e)

-- Phase 1 keeps the account, on each chip.
pub release_if_due-Accounted :
    {pending : ℕ → ℕ} (now chip : ℕ) (s : State)
    → chip < num_chips_per_bus
    → Accounted pending s
    → Accounted pending (release_if_due now chip s)
unfolding release_if_due release_busy_lock
release_if_due-Accounted {pending} now chip s h a =
    go
      (ltb 0 (s.chip_busies chip).wakeup_time_in_us
        && leb (s.chip_busies chip).wakeup_time_in_us now)
      (s.chip_busies chip).ptr_fb_bio refl
  where
    ended :
        (ptr : Option ℕ)
        → (s.chip_busies chip).ptr_fb_bio ≡ ptr
        → Accounted pending (over chip s (release_busy_lock s.bios (s.chip_busies chip)).1)
    ended none e = rw e (over_unnamed chip s h a e)
    ended (some q) e = rw e (over_named chip q s h a e)

    go :
        (b : Bool) (ptr : Option ℕ)
        → (s.chip_busies chip).ptr_fb_bio ≡ ptr
        → Accounted pending
            (if b then over chip s (release_busy_lock s.bios (s.chip_busies chip)).1 else s)
    go true ptr e = ended ptr e
    go false ptr e = a
