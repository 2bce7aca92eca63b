-- ===== src/Bus/Queue.antt =====
-- The operation queue of a chip: `fb_operation_t`, `fb_opr_queue_t`, `create_opr_queue`,
-- `opr_queue_put_entry`, `opr_queue_get_first` and `opr_queue_remove_first` of bus_controller.c, and
-- `fb_dev_op_t` of rust/libflashbench.h. A function that returns 0 or -1 returns a `Status` beside
-- the new queue; what it writes through pointers is an option. Each holds the queue's lock from its
-- first statement to its last, so it is one step.
pub mod Invariant
pub mod Refine
use flashbench.Common.{ℕ, Option, none, some, List, get_elem?, set, if◌then◌else◌, ◌==◌}
pub use flashbench.Common.{Status, success, error}
use flashbench.Config.{add_u32, sub_u32}

pub data DevOp : Type 0 where
  op_read op_prog op_plock op_block op_bers : DevOp

-- A pointer to a `struct fb_bio_t` is a number, and `NULL` is `none`.
pub record Operation : Type 0 where
  pub operation : DevOp
  pub ptr_fb_bio : Option ℕ

pub record OprQueue : Type 0 where
  pub num_max_entries : ℕ
  pub num_entries : ℕ
  pub queue_head : ℕ
  pub queue_tail : ℕ
  pub opr_list : List Operation

-- The list is the memory that the second `kmalloc` returns, `num_max_entries` entries long.
unfoldable pub create_opr_queue : List Operation → ℕ → OprQueue
create_opr_queue opr_list num_max_entries = record {
  num_max_entries = num_max_entries;
  num_entries = 0;
  queue_head = 0;
  queue_tail = 0;
  opr_list = opr_list;
}

-- "Marching" of `queue_head` or `queue_tail`: an increment, and back to 0 at the end.
unfoldable pub march : ℕ → ℕ → ℕ
march num_max_entries i = let next = add_u32 i 1 in if next == num_max_entries then 0 else next

-- A store outside `opr_list` changes nothing; `Invariant.in_bounds` rules it out.
unfoldable pub opr_queue_put_entry : OprQueue → DevOp → Option ℕ → Status × OprQueue
opr_queue_put_entry q operation ptr_fb_bio =
    if q.num_entries == q.num_max_entries then (error, q) else (
      success,
      record q {
        opr_list =
            set q.opr_list q.queue_head (record { operation = operation; ptr_fb_bio = ptr_fb_bio });
        queue_head = march q.num_max_entries q.queue_head;
        num_entries = add_u32 q.num_entries 1;
      },
    )

-- The queue is not changed.
unfoldable pub opr_queue_get_first : OprQueue → Status × Option Operation
opr_queue_get_first q =
    if q.num_entries == 0 then (error, none) else (success, get_elem? q.opr_list q.queue_tail)

unfoldable pub opr_queue_remove_first : OprQueue → Status × OprQueue
opr_queue_remove_first q = if q.num_entries == 0 then (error, q) else (
  success,
  record q {
    queue_tail = march q.num_max_entries q.queue_tail;
    num_entries = sub_u32 q.num_entries 1;
  },
)
