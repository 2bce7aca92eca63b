-- ===== src/Bus/Controller.antt =====
-- A bus controller and its thread: `fb_bus_controller_t` and the two phases of `fb_bus_ctrl_thread`
-- of bus_controller.c. Signals, the freezer and `yield` are left out: they change none of this
-- state.
pub mod View
pub mod Issue
pub mod Rounds
pub mod Service
pub mod References
pub mod Accounts
pub mod Entry
use flashbench.Common.{
  ℕ, zero, suc, ◌+◌, ◌&&◌, ◌||◌, Option, none, some, List, [], ◌∷◌, ◌==◌, ltb, leb, if◌then◌else◌,
  update,
}
use flashbench.Config.{num_chips_per_bus}
use flashbench.Bio.{Bios}
use flashbench.Bus.Queue.{
  OprQueue, Operation, Status, success, error, opr_queue_get_first, opr_queue_remove_first,
}
use flashbench.Bus.Busy.{ChipBusy, is_acquired, acquire_busy_lock, release_busy_lock}

-- The arrays over the chips of the bus.
pub record BusController : Type 0 where
  pub opr_queue : ℕ → OprQueue
  pub chip_busies : ℕ → ChipBusy

-- The controller with the requests in flight, which the buses and the driver share.
pub record State : Type 0 where
  pub controller : BusController
  pub open controller use *
  pub bios : Bios

-- Phase 1, for one chip.
unfoldable pub release_if_due : ℕ → ℕ → State → State
release_if_due now chip s =
    let busy = s.chip_busies chip in
    if ltb 0 busy.wakeup_time_in_us && leb busy.wakeup_time_in_us now
    then (let (busy', bios') = release_busy_lock s.bios busy in
        record {
          controller = record (s.controller) { chip_busies = update s.chip_busies chip busy' };
          bios = bios';
        })
    else s

-- Phase 2, for one chip. The chip's request starts at time `time`; a failure of
-- `opr_queue_get_first` ends the thread, which is the `none`.
pub start_operation : ℕ → ℕ → State → Status × Option Operation → Option State
start_operation time chip s (success, some o) = some (record s {
  controller = record {
    opr_queue = update s.opr_queue chip (opr_queue_remove_first (s.opr_queue chip)).1;
    chip_busies = update s.chip_busies chip (acquire_busy_lock time o.operation o.ptr_fb_bio);
  };
})
start_operation time chip s (success, none) = none
start_operation time chip s (error, o) = none

pub issue_if_free : ℕ → ℕ → State → Option State
unfolding start_operation
issue_if_free time chip s =
    if (s.opr_queue chip).num_entries == 0 || is_acquired (s.chip_busies chip)
    then some s
    else start_operation time chip s (opr_queue_get_first (s.opr_queue chip))

-- The loops over the chips, from `chip` on with `n` rounds left. `times` is the clock at each chip.
pub release_chips : ℕ → ℕ → ℕ → State → State
release_chips now zero chip s = s
release_chips now (suc n) chip s = release_chips now n (chip + 1) (release_if_due now chip s)

pub issue_chips : (ℕ → ℕ) → ℕ → ℕ → State → Option State
issue_chips times zero chip s = some s
issue_chips times (suc n) chip s = elim (issue_if_free (times chip) chip s) [
  | some s' ↦ issue_chips times n (chip + 1) s'
  | none ↦ none
]

-- One round of the thread's loop: the clock is read once for phase 1.
pub thread_round : ℕ → (ℕ → ℕ) → State → Option State
thread_round now times s =
    issue_chips times num_chips_per_bus 0 (release_chips now num_chips_per_bus 0 s)

-- Rounds in turn, each with its clock readings.
pub thread_rounds : List (ℕ × (ℕ → ℕ)) → State → Option State
thread_rounds [] s = some s
thread_rounds ((now, times) ∷ rounds) s = elim (thread_round now times s) [
  | some s' ↦ thread_rounds rounds s'
  | none ↦ none
]
