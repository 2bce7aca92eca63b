-- ===== src/Bus/Controller/Accounts.antt =====
-- The account of the requests in flight is kept by every round of the thread.
use flashbench.Common.{
  ℕ, zero, suc, ◌+◌, ◌≤◌, ◌<◌, ◌≡◌, refl, sym, ap, subst, ◌∙◌, inl, inr, true, false, Option, none,
  some, List, [], ◌∷◌, arith, Bool-cases, ℕ_discrete,
}
use flashbench.Common.Sums.{sum_below_congr}
use flashbench.Config.{num_chips_per_bus, u32_mod}
use flashbench.Bio.{Bios}
use flashbench.Bus.Queue.{Operation, DevOp, op_read, op_prog, op_plock, op_block, op_bers}
use flashbench.Bus.Queue.Invariant.{IsValid}
use flashbench.Bus.Queue.Refine.{contents}
use flashbench.Bus.Busy.{ChipBusy, is_acquired, acquire_busy_lock, operation_time}
use flashbench.Bus.Controller.{
  State, release_if_due, release_chips, issue_chips, thread_round, thread_rounds,
}
use flashbench.Bus.Controller.View.{serve, chip_view, QueuesValid, release_chips-queues}
use flashbench.Bus.Controller.Issue.{Issues, issue_if_free-Issues}
use flashbench.Bus.Controller.References.{
  Accounted, points_to, view_refs, refs, release_if_due-Accounted,
}

is_acquired-acquire_busy_lock :
    (time : ℕ) (op : DevOp) (b : Option ℕ) → is_acquired (acquire_busy_lock time op b) ≡ true
unfolding is_acquired acquire_busy_lock operation_time
is_acquired-acquire_busy_lock time op_read b = ground arith
is_acquired-acquire_busy_lock time op_prog b = ground arith
is_acquired-acquire_busy_lock time op_plock b = ground arith
is_acquired-acquire_busy_lock time op_block b = ground arith
is_acquired-acquire_busy_lock time op_bers b = ground arith

-- A free chip names no request.
abbrev IsClean : ChipBusy → Type 0
IsClean busy = is_acquired busy ≡ false → busy.ptr_fb_bio ≡ none

-- Starting an operation moves its reference from the queue to the busy state.
view_refs-serve :
    (p time : ℕ) (f : List Operation) (busy : ChipBusy)
    → IsClean busy
    → view_refs p (serve time f busy) ≡ view_refs p (f, busy)
unfolding acquire_busy_lock
view_refs-serve p time [] busy c = refl
view_refs-serve p time (o ∷ f) busy c = elim (Bool-cases (is_acquired busy)) [
  | inl e ↦ rw e refl
  | inr e ↦ rw e (omega (arith, ap (points_to p) (c e)))
]

serve-IsClean :
    (time : ℕ) (f : List Operation) (busy : ChipBusy) → IsClean busy → IsClean (serve time f busy).1
serve-IsClean time [] busy c = c
serve-IsClean time (o ∷ f) busy c = elim (Bool-cases (is_acquired busy)) [
  | inl e ↦ rw e c
  | inr e ↦ rw e (λ d.
      let t : true ≡ false =
        sym (is_acquired-acquire_busy_lock time o.operation o.ptr_fb_bio) ∙ d in
      cc)
]

module _ {pending : ℕ → ℕ} {time chip : ℕ} {s s' : State} (i : Issues time chip s s')
    (h : chip < num_chips_per_bus) (a : Accounted pending s) where
  same_view_refs : (p c : ℕ) → view_refs p (chip_view s' c) ≡ view_refs p (chip_view s c)
  same_view_refs p c = elim (ℕ_discrete c chip) [
    | yes e ↦ rw e (
        ap (view_refs p) i.here
        ∙ view_refs-serve p time (contents (s.opr_queue chip)) (s.chip_busies chip)
            (a.clean chip h))
    | no ne ↦ ap (view_refs p) (i.other c ne)
  ]

  same_refs : (p : ℕ) → refs p s' ≡ refs p s
  same_refs p = sum_below_congr num_chips_per_bus _ _ (λ c k. same_view_refs p c)

  kept_free : (c : ℕ) → c < num_chips_per_bus → IsClean (s'.chip_busies c)
  kept_free c k = elim (ℕ_discrete c chip) [
    | yes e ↦ rw e (
        subst (λ (v : List Operation × ChipBusy). IsClean v.1) (sym i.here)
          (serve-IsClean time (contents (s.opr_queue chip)) (s.chip_busies chip) (a.clean chip h)))
    | no ne ↦
        subst (λ (v : List Operation × ChipBusy). IsClean v.1) (sym (i.other c ne)) (a.clean c k)
  ]

  Issues-Accounted : Accounted pending s'
  Issues-Accounted = record {
    safe = ap (λ (b : Bios). b.use_after_free) i.same_bios ∙ a.safe;
    counts = λ p.
        subst (λ b. b.live p ≡ true → (b.fb_bio p).req_count ≡ refs p s' + pending p)
          (sym i.same_bios) (λ l. a.counts p l ∙ ap (λ n. n + pending p) (sym (same_refs p)));
    small = λ p.
        subst (λ b. b.live p ≡ true → (b.fb_bio p).req_count < u32_mod) (sym i.same_bios)
          (a.small p);
    gone = λ p.
        subst (λ b. b.live p ≡ false → refs p s' + pending p ≡ 0) (sym i.same_bios)
          (λ l. ap (λ n. n + pending p) (same_refs p) ∙ a.gone p l);
    clean = kept_free;
  }

release_chips-Accounted :
    {pending : ℕ → ℕ} (now n chip : ℕ) (s : State)
    → chip + n ≤ num_chips_per_bus
    → Accounted pending s
    → Accounted pending (release_chips now n chip s)
unfolding release_chips
release_chips-Accounted now zero chip s h a = a
release_chips-Accounted now (suc n) chip s h a =
    release_chips-Accounted now n (chip + 1) (release_if_due now chip s) (omega arith)
      (release_if_due-Accounted now chip s (omega arith) a)

issue_chips-Accounted :
    {pending : ℕ → ℕ} (times : ℕ → ℕ) (n chip : ℕ) (s : State)
    → chip + n ≤ num_chips_per_bus
    → QueuesValid s
    → Accounted pending s
    → (s' : State) × (issue_chips times n chip s ≡ some s') × QueuesValid s' × Accounted pending s'
unfolding issue_chips
issue_chips-Accounted times zero chip s h v a = (s, refl, v, a)
issue_chips-Accounted times (suc n) chip s h v a =
    let (t, e, i) = issue_if_free-Issues (times chip) chip s (v chip (omega arith)) in
    let (u, d, v', a') =
      issue_chips-Accounted times n (chip + 1) t (omega arith) (λ c k. i.valid c (v c k))
        (Issues-Accounted i (omega arith) a) in
    (u, rw (e, issue_chips) d, v', a')

thread_round-Accounted :
    {pending : ℕ → ℕ} (now : ℕ) (times : ℕ → ℕ) (s : State)
    → QueuesValid s
    → Accounted pending s
    → (s' : State) × (thread_round now times s ≡ some s') × QueuesValid s' × Accounted pending s'
unfolding thread_round
thread_round-Accounted now times s v a =
    issue_chips-Accounted times num_chips_per_bus 0 (release_chips now num_chips_per_bus 0 s)
      (omega arith)
      (subst (λ q. (c : ℕ) → c < num_chips_per_bus → IsValid (q c))
        (sym (release_chips-queues now num_chips_per_bus 0 s)) v)
      (release_chips-Accounted now num_chips_per_bus 0 s (omega arith) a)

-- However many rounds the thread makes, at whatever clock readings, it does not fail, and from
-- valid queues and a true account of the requests in flight it comes to such a state again: the
-- count in each live `fb_bio_t` is the number of operations that name it, none that is freed is
-- named, and none is touched behind its `vfree`.
pub thread_rounds-Accounted :
    {pending : ℕ → ℕ} (rounds : List (ℕ × (ℕ → ℕ))) (s : State)
    → QueuesValid s
    → Accounted pending s
    → (s' : State) × (thread_rounds rounds s ≡ some s') × QueuesValid s' × Accounted pending s'
unfolding thread_rounds
thread_rounds-Accounted [] s v a = (s, refl, v, a)
thread_rounds-Accounted ((now, times) ∷ rounds) s v a =
    let (t, e, v', a') = thread_round-Accounted now times s v a in
    let (u, d, v'', a'') = thread_rounds-Accounted rounds t v' a' in
    (u, rw (e, thread_rounds) d, v'', a'')
