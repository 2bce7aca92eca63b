-- ===== src/Bus/Controller/View.antt =====
-- What a round of the thread does to one chip, as functions on the operations that wait for it and
-- on its busy state; and the first phase of a round.
use flashbench.Common.{
  ℕ, zero, suc, ◌+◌, ◌<◌, ◌≡◌, refl, ap, ◌∙◌, ◌&&◌, List, [], ◌∷◌, arith, ltb, leb, ◌==◌,
  if◌then◌else◌,
}
use flashbench.Config.{num_chips_per_bus}
use flashbench.Bus.Queue.{Operation}
use flashbench.Bus.Queue.Invariant.{IsValid}
use flashbench.Bus.Queue.Refine.{contents}
use flashbench.Bus.Busy.{ChipBusy, idle, is_acquired, acquire_busy_lock, release_busy_lock}
use flashbench.Bus.Controller.{State, release_if_due, release_chips}

-- What a round does to one chip: the operations that wait for it, oldest first, and its busy state.
-- A request whose time has come is over; then, if the chip is free, the oldest operation starts.
abbrev pub due : ℕ → ChipBusy → ChipBusy
due now busy = if ltb 0 busy.wakeup_time_in_us && leb busy.wakeup_time_in_us now then idle else busy

abbrev pub serve : ℕ → List Operation → ChipBusy → List Operation × ChipBusy
serve time [] busy = ([], busy)
serve time (o ∷ f) busy =
    if is_acquired busy then (o ∷ f, busy) else (f, acquire_busy_lock time o.operation o.ptr_fb_bio)

-- The queues of the bus are valid.
abbrev pub QueuesValid : State → Type 0
QueuesValid s = (chip : ℕ) → chip < num_chips_per_bus → IsValid (s.opr_queue chip)

abbrev pub chip_view : State → ℕ → List Operation × ChipBusy
chip_view s chip = (contents (s.opr_queue chip), s.chip_busies chip)

release_if_due-busies :
    (now chip c : ℕ) (s : State)
    → (release_if_due now chip s).chip_busies c
      ≡ (if chip == c then due now (s.chip_busies c) else s.chip_busies c)
unfolding release_if_due release_busy_lock
release_if_due-busies now chip c s = ground (arith, ap s.chip_busies {x = chip} {y = c})

release_if_due-queues :
    (now chip : ℕ) (s : State) → (release_if_due now chip s).opr_queue ≡ s.opr_queue
unfolding release_if_due
release_if_due-queues now chip s = ground arith

-- Phase 1 treats each chip of the bus once, and leaves the queues alone.
pub release_chips-busies :
    (now n chip c : ℕ) (s : State)
    → (release_chips now n chip s).chip_busies c
      ≡ (if leb chip c && ltb c (chip + n) then due now (s.chip_busies c) else s.chip_busies c)
unfolding release_chips
release_chips-busies now zero chip c s = ground arith
release_chips-busies now (suc n) chip c s = ground (
  arith,
  release_chips-busies now n (chip + 1) c (release_if_due now chip s),
  release_if_due-busies now chip c s,
)

pub release_chips-queues :
    (now n chip : ℕ) (s : State) → (release_chips now n chip s).opr_queue ≡ s.opr_queue
unfolding release_chips
release_chips-queues now zero chip s = refl
release_chips-queues now (suc n) chip s =
    release_chips-queues now n (chip + 1) (release_if_due now chip s)
    ∙ release_if_due-queues now chip s
