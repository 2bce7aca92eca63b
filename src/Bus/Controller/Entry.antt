-- ===== src/Bus/Controller/Entry.antt =====
-- The issue of an operation to a chip: `fb_issue_operation` of bus_controller.c, which tries until the
-- chip's queue takes the operation; the thread makes its rounds between the tries.
use flashbench.Common.{
  ℕ, ◌+◌, ◌<◌, ◌≤◌, ◌≡◌, sym, ap, subst, ◌∙◌, Option, none, some, List, [], ◌∷◌, ◌++◌, length,
  arith, update, update_self, update_ne, ℕ_discrete, ◌>>=◌,
}
use flashbench.Config.{u32_mod, num_chips_per_bus}
use flashbench.Bus.Queue.{OprQueue, Operation, DevOp, Status, success, error, opr_queue_put_entry}
use flashbench.Bus.Queue.Invariant.{
  IsValid, put, opr_queue_put_entry_full, opr_queue_put_entry_room,
}
use flashbench.Bus.Queue.Refine.{contents, length-contents, contents-put}
use flashbench.Bus.Busy.{is_acquired, ChipBusy, acquire_busy_lock, operation_time, idle}
use flashbench.Bus.Controller.{State, thread_round}
use flashbench.Bus.Controller.View.{QueuesValid, serve}
use flashbench.Bus.Controller.Rounds.{thread_round_lem, thread_round-max}
use flashbench.Bus.Controller.Service.{round_serves}

abbrev with_queue : ℕ → OprQueue → State → State
with_queue chip q s = record s {
  controller = record (s.controller) { opr_queue = update s.opr_queue chip q };
}

-- What follows a try, by its answer.
abbrev after_try : (State → Option State) → ℕ → State → Status × OprQueue → Option State
after_try again chip s (success, q) = some (with_queue chip q s)
after_try again chip s (error, q) = again (with_queue chip q s)

-- The loop, with the clock readings of the thread's rounds between the tries; `none` is a loop that
-- still tries behind the last of them.
unfoldable pub fb_issue_operation : List (ℕ × (ℕ → ℕ)) → ℕ → DevOp → Option ℕ → State → Option State
fb_issue_operation [] chip operation bio s =
    after_try (λ s'. none) chip s (opr_queue_put_entry (s.opr_queue chip) operation bio)
fb_issue_operation (round ∷ rounds) chip operation bio s =
    after_try
      (λ s'. thread_round round.0 round.1 s' >>= fb_issue_operation rounds chip operation bio) chip
      s (opr_queue_put_entry (s.opr_queue chip) operation bio)

-- A chip with room takes the operation at the first try.
issue_room :
    (rounds : List (ℕ × (ℕ → ℕ))) (s : State) (chip : ℕ) (op : DevOp) (bio : Option ℕ)
    → IsValid (s.opr_queue chip)
    → (s.opr_queue chip).num_entries < (s.opr_queue chip).num_max_entries
    → (s' : State) × (fb_issue_operation rounds chip op bio s ≡ some s')
      × (contents (s'.opr_queue chip)
          ≡ contents (s.opr_queue chip) ++ record { operation = op; ptr_fb_bio = bio } ∷ [])
unfolding fb_issue_operation
issue_room [] s chip op bio v h = (
  with_queue chip (put (s.opr_queue chip) (record { operation = op; ptr_fb_bio = bio })) s,
  ap (after_try (λ s'. none) chip s) (opr_queue_put_entry_room op bio v h),
  ap contents (update_self s.opr_queue chip _) ∙ contents-put _ v h,
)
issue_room (round ∷ rounds) s chip op bio v h = (
  with_queue chip (put (s.opr_queue chip) (record { operation = op; ptr_fb_bio = bio })) s,
  ap
      (after_try (λ s'. thread_round round.0 round.1 s' >>= fb_issue_operation rounds chip op bio)
        chip s)
      (opr_queue_put_entry_room op bio v h),
  ap contents (update_self s.opr_queue chip _) ∙ contents-put _ v h,
)

-- The controller behind a try that found no room.
full_queue : (s : State) (chip : ℕ) → State
full_queue s chip = with_queue chip (s.opr_queue chip) s

issue_full :
    (now : ℕ) (times : ℕ → ℕ) (rounds : List (ℕ × (ℕ → ℕ))) (s s' : State) (chip : ℕ) (op : DevOp)
    (bio : Option ℕ)
    → (s.opr_queue chip).num_entries ≡ (s.opr_queue chip).num_max_entries
    → thread_round now times (full_queue s chip) ≡ some s'
    → fb_issue_operation ((now, times) ∷ rounds) chip op bio s
      ≡ fb_issue_operation rounds chip op bio s'
unfolding fb_issue_operation full_queue
issue_full now times rounds s s' chip op bio full e =
    ap (after_try (λ t. thread_round now times t >>= fb_issue_operation rounds chip op bio) chip s)
      (opr_queue_put_entry_full (s.opr_queue chip) op bio full)
    ∙ ap (λ o. o >>= fb_issue_operation rounds chip op bio) e

full_queue-QueuesValid : (s : State) (chip : ℕ) → QueuesValid s → QueuesValid (full_queue s chip)
unfolding full_queue
full_queue-QueuesValid s chip v c h = elim (ℕ_discrete chip c) [
  | yes e ↦
      subst IsValid
        (sym (
          ap (update s.opr_queue chip (s.opr_queue chip)) (sym e)
          ∙ update_self s.opr_queue chip (s.opr_queue chip)))
        (subst (λ i. IsValid (s.opr_queue i)) (sym e) (v c h))
  | no ne ↦ subst IsValid (sym (update_ne s.opr_queue (s.opr_queue chip) ne)) (v c h)
]

-- On valid queues, a chip whose queue is full and that works on a request which is due at the thread's
-- next round takes the operation behind that round: its oldest operation has then left the queue, and
-- the new one stands at the end. The request started at a time above 0, and its wake-up time fits 32
-- bits.
pub fb_issue_operation_full :
    (now : ℕ) (times : ℕ → ℕ) (rounds : List (ℕ × (ℕ → ℕ))) (s : State) (chip : ℕ) (op : DevOp)
    (bio : Option ℕ) (time : ℕ) (work : DevOp) (b : Option ℕ) (first : Operation)
    (others : List Operation)
    → QueuesValid s
    → chip < num_chips_per_bus
    → (s.opr_queue chip).num_entries ≡ (s.opr_queue chip).num_max_entries
    → contents (s.opr_queue chip) ≡ first ∷ others
    → s.chip_busies chip ≡ acquire_busy_lock time work b
    → 0 < time
    → time + operation_time work < u32_mod
    → time + operation_time work ≤ now
    → (s' : State) × (fb_issue_operation ((now, times) ∷ rounds) chip op bio s ≡ some s')
      × (contents (s'.opr_queue chip) ≡ others ++ record { operation = op; ptr_fb_bio = bio } ∷ [])
unfolding full_queue is_acquired
fb_issue_operation_full now times rounds s chip op bio time work b first others v h full holds busy
      positive fits due =
    let s0 = full_queue s chip in
    let v0 = full_queue-QueuesValid s chip v in
    let (s1, e, view) = round_serves now times s0 v0 chip h time work b busy positive fits due in
    let (s2, e2, valid, _) = thread_round_lem now times s0 v0 in
    let same_state : s2 ≡ s1 = some_injective (sym e2 ∙ e) in
    let here : contents (s0.opr_queue chip) ≡ first ∷ others =
      ap contents (update_self s.opr_queue chip (s.opr_queue chip)) ∙ holds in
    let left : contents (s1.opr_queue chip) ≡ others =
      ap (λ (w : List Operation × ChipBusy). w.0)
        (view ∙ ap (λ l. serve (times chip) l idle) here) in
    let valid1 : IsValid (s1.opr_queue chip) =
      subst (λ (t : State). IsValid (t.opr_queue chip)) same_state (valid chip h) in
    let max =
      thread_round-max now times s0 s1 v0 e chip
      ∙ ap (λ (q : OprQueue). q.num_max_entries)
          (update_self s.opr_queue chip (s.opr_queue chip)) in
    let (s3, e3, end) = issue_room rounds s1 chip op bio valid1 (
      omega (
        arith,
        max,
        full,
        length-contents (s1.opr_queue chip),
        ap length left,
        length-contents (s.opr_queue chip),
        ap length holds,
      )) in
    (
      s3,
      issue_full now times rounds s s1 chip op bio full e ∙ e3,
      end ∙ ap (λ l. l ++ record { operation = op; ptr_fb_bio = bio } ∷ []) left,
    )
  where
    some_injective : {x y : State} → some x ≡ some y → x ≡ y
    some_injective e = cc
