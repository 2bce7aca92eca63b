-- ===== src/Bus/Controller/Rounds.antt =====
-- A round of the thread on all chips of the bus.
use flashbench.Common.{
  ℕ, zero, suc, ◌+◌, ◌≤◌, ◌<◌, ◌≡◌, ◌≢◌, refl, sym, ap, ap₂, subst, ◌∙◌, Bool, true, false, ◌&&◌,
  some, List, arith, ltb, leb, if◌then◌else◌, ℕ_discrete,
}
use flashbench.Config.{num_chips_per_bus}
use flashbench.Bus.Queue.{OprQueue, Operation}
use flashbench.Bus.Queue.Invariant.{IsValid}
use flashbench.Bus.Queue.Refine.{contents}
use flashbench.Bus.Busy.{ChipBusy}
use flashbench.Bus.Controller.{State, release_chips, issue_chips, thread_round}
use flashbench.Bus.Controller.View.{
  due, serve, QueuesValid, chip_view, release_chips-busies, release_chips-queues,
}
use flashbench.Bus.Controller.Issue.{Issues, issue_if_free-Issues}

abbrev in_loop : ℕ → ℕ → ℕ → Bool
in_loop n chip c = leb chip c && ltb c (chip + n)

in_loop_first : (n chip : ℕ) → in_loop (suc n) chip chip ≡ true
in_loop_first n chip = ground arith

in_loop_rest_first : (n chip : ℕ) → in_loop n (chip + 1) chip ≡ false
in_loop_rest_first n chip = ground arith

in_loop_rest : (n chip c : ℕ) → c ≢ chip → in_loop n (chip + 1) c ≡ in_loop (suc n) chip c
in_loop_rest n chip c p = ground arith

in_loop_all : (c : ℕ) → c < num_chips_per_bus → in_loop num_chips_per_bus 0 c ≡ true
in_loop_all c h = ground arith

-- A chip's view behind phase 2, if it is one of the chips of the loop.
abbrev serve_if : ℕ → Bool → List Operation × ChipBusy → List Operation × ChipBusy
serve_if time b v = if b then serve time v.0 v.1 else v

-- What phase 2 does for the `n` chips from `chip` on.
record Served (times : ℕ → ℕ) (n chip : ℕ) (s s' : State) : Type 0 where
  valid : (c : ℕ) → IsValid (s.opr_queue c) → IsValid (s'.opr_queue c)
  view : (c : ℕ) → chip_view s' c ≡ serve_if (times c) (in_loop n chip c) (chip_view s c)
  same_max : (c : ℕ) → (s'.opr_queue c).num_max_entries ≡ (s.opr_queue c).num_max_entries

Served-cons :
    (times : ℕ → ℕ) (n chip : ℕ) {s t u : State}
    → Issues (times chip) chip s t
    → Served times n (chip + 1) t u
    → Served times (suc n) chip s u
Served-cons times n chip {s} {t} {u} i r = record {
  valid = λ c v. r.valid c (i.valid c v);
  view = λ c. r.view c ∙ go c (ℕ_discrete c chip);
  same_max = λ c. r.same_max c ∙ i.same_max c;
}
  where
    first :
        serve_if (times chip) (in_loop n (chip + 1) chip) (chip_view t chip)
        ≡ serve_if (times chip) (in_loop (suc n) chip chip) (chip_view s chip)
    first =
        ap (λ b. serve_if (times chip) b (chip_view t chip)) (in_loop_rest_first n chip)
        ∙ i.here
        ∙ sym (ap (λ b. serve_if (times chip) b (chip_view s chip)) (in_loop_first n chip))

    go :
        (c : ℕ)
        → Dec (c ≡ chip)
        → serve_if (times c) (in_loop n (chip + 1) c) (chip_view t c)
          ≡ serve_if (times c) (in_loop (suc n) chip c) (chip_view s c)
    go c (yes p) = rw p first
    go c (no p) = ap₂ (serve_if (times c)) (in_loop_rest n chip c p) (i.other c p)

issue_chips-Served :
    (times : ℕ → ℕ) (n chip : ℕ) (s : State)
    → ((c : ℕ) → chip ≤ c → c < chip + n → IsValid (s.opr_queue c))
    → (s' : State) × (issue_chips times n chip s ≡ some s') × Served times n chip s s'
unfolding issue_chips
issue_chips-Served times zero chip s v = (
  s,
  refl,
  record {
    valid = λ c w. w;
    view = λ c. ap (λ b. serve_if (times c) b (chip_view s c)) (sym (none_left c));
    same_max = λ c. refl;
  },
)
  where
    none_left : (c : ℕ) → in_loop 0 chip c ≡ false
    none_left c = ground arith
issue_chips-Served times (suc n) chip s v =
    let (t, e, i) = issue_if_free-Issues (times chip) chip s (v chip (omega arith) (omega arith)) in
    let (u, d, r) =
      issue_chips-Served times n (chip + 1) t
        (λ c h k. i.valid c (v c (omega arith) (omega arith))) in
    (u, rw (e, issue_chips) d, Served-cons times n chip i r)

module _ (now : ℕ) (s : State) where
  -- The state behind phase 1.
  released : State
  released = release_chips now num_chips_per_bus 0 s

  released-queue : (c : ℕ) → released.opr_queue c ≡ s.opr_queue c
  unfolding released
  released-queue c = ap (λ q. q c) (release_chips-queues now num_chips_per_bus 0 s)

  released-busy :
      (c : ℕ) → c < num_chips_per_bus → released.chip_busies c ≡ due now (s.chip_busies c)
  unfolding released
  released-busy c h =
      release_chips-busies now num_chips_per_bus 0 c s
      ∙ ap (λ b. if b then due now (s.chip_busies c) else s.chip_busies c) (in_loop_all c h)

-- A round of the thread on valid queues does not fail and keeps them valid. On each chip of the bus
-- a request whose time has come ends, and then, if the chip is free, the oldest waiting operation
-- starts, and leaves the queue; nothing else changes there.
pub thread_round_lem :
    (now : ℕ) (times : ℕ → ℕ) (s : State)
    → QueuesValid s
    → (s' : State) × (thread_round now times s ≡ some s')
      × QueuesValid s'
      × ((chip : ℕ)
          → chip < num_chips_per_bus
          → chip_view s' chip
            ≡ serve (times chip) (contents (s.opr_queue chip)) (due now (s.chip_busies chip)))
unfolding thread_round released
thread_round_lem now times s v =
    let valid =
      λ (c : ℕ) (h : c < num_chips_per_bus). subst IsValid (sym (released-queue now s c)) (v c h) in
    let (u, e, d) =
      issue_chips-Served times num_chips_per_bus 0 (released now s)
        (λ c _ h. valid c (omega arith)) in
    (
      u,
      e,
      λ c h. d.valid c (valid c h),
      λ c h.
          d.view c
          ∙ ap (λ b. serve_if (times c) b (chip_view (released now s) c)) (in_loop_all c h)
          ∙ ap₂ (λ q b. serve (times c) (contents q) b) (released-queue now s c)
              (released-busy now s c h),
    )

-- The queues keep their capacities.
pub thread_round-max :
    (now : ℕ) (times : ℕ → ℕ) (s s' : State)
    → QueuesValid s
    → thread_round now times s ≡ some s'
    → (c : ℕ) → (s'.opr_queue c).num_max_entries ≡ (s.opr_queue c).num_max_entries
unfolding thread_round released
thread_round-max now times s s' v same c =
    let (u, e, d) =
      issue_chips-Served times num_chips_per_bus 0 (released now s)
        (λ i _ h. subst IsValid (sym (released-queue now s i)) (v i (omega arith))) in
    let equal : u ≡ s' = some-injective (sym e ∙ same) in
    ap (λ (t : State). (t.opr_queue c).num_max_entries) (sym equal)
    ∙ d.same_max c
    ∙ ap (λ (q : OprQueue). q.num_max_entries) (released-queue now s c)
  where
    some-injective : {a b : State} → some a ≡ some b → a ≡ b
    some-injective e = cc
