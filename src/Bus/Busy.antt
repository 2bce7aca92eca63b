-- ===== src/Bus/Busy.antt =====
-- The busy state of a chip and the clock: `fb_chip_busy_t`, `is_acquired`, `acquire_busy_lock`,
-- `release_busy_lock` and `timer_get_timestamp_in_us` of bus_controller.c, and `operation_time` of
-- rust/src/vdevice.rs. The time of day, which the kernel gives, is an argument.
use flashbench.Common.{ℕ, ◌+◌, ◌*◌, Bool, not, ◌||◌, Option, none, some, ◌==◌}
use flashbench.Config.{add_u32, to_u32}
use flashbench.Bio.{Bios, finish_one}
use flashbench.Bus.Queue.{DevOp, op_read, op_prog, op_plock, op_block, op_bers}

pub record ChipBusy : Type 0 where
  pub wakeup_time_in_us : ℕ
  pub issue_time_in_us : ℕ
  pub ptr_fb_bio : Option ℕ

-- A busy structure as `create_bus_controller` leaves it.
abbrev pub idle : ChipBusy
idle = record { wakeup_time_in_us = 0; issue_time_in_us = 0; ptr_fb_bio = none }

unfoldable pub is_acquired : ChipBusy → Bool
is_acquired busy = not (busy.wakeup_time_in_us == 0) || not (busy.issue_time_in_us == 0)

unfoldable pub operation_time : DevOp → ℕ
operation_time op_read = 80
operation_time op_prog = 800
operation_time op_plock = 5000
operation_time op_block = 100
operation_time op_bers = 100

pub timer_get_timestamp_in_us : ℕ → ℕ → ℕ
timer_get_timestamp_in_us tv_sec tv_usec = to_u32 (tv_sec * 1000000 + tv_usec)

-- `time` is the value of `timer_get_timestamp_in_us` at the call.
unfoldable pub acquire_busy_lock : ℕ → DevOp → Option ℕ → ChipBusy
unfolding operation_time
acquire_busy_lock time operation ptr_fb_bio = record {
  issue_time_in_us = time;
  wakeup_time_in_us = add_u32 time (operation_time operation);
  ptr_fb_bio = ptr_fb_bio;
}

-- The last part of `release_busy_lock`: one request of the block I/O is done.
finish_bio : Bios → Option ℕ → Bios
unfolding finish_one
finish_bio s none = s
finish_bio s (some p) = finish_one s p

unfoldable pub release_busy_lock : Bios → ChipBusy → ChipBusy × Bios
unfolding finish_bio
release_busy_lock s busy = (idle, finish_bio s busy.ptr_fb_bio)
