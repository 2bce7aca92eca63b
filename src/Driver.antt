-- ===== src/Driver.antt =====
-- The loading and the unloading of the driver: `fb_init`, `fb_exit` and `fb_init_write_buffer_thread`
-- of main.c, as the calls of the functions that make a part of the driver and of those that destroy
-- it. Whether a part is made is an argument. What these functions do inside, and what of a part they
-- leave, is not part of these files.
pub mod Balance
use flashbench.Common.{
  ℕ, Bool, true, false, not, ◌||◌, Option, none, some, Status, success, error, if◌then◌else◌,
  update, leb,
}

-- The parts, by number: the entry in procfs, the context, the structures, and the objects of the
-- block layer.
abbrev pub perf : ℕ
perf = 0

abbrev pub context : ℕ
context = 1

abbrev pub vdevice : ℕ
vdevice = 2

abbrev pub ssd_info : ℕ
ssd_info = 3

abbrev pub mapping_context : ℕ
mapping_context = 4

abbrev pub req_queue : ℕ
req_queue = 5

abbrev pub major_num : ℕ
major_num = 6

abbrev pub gendisk : ℕ
gendisk = 7

abbrev pub write_buffer : ℕ
write_buffer = 8

-- `ptr_wb_task`: null, a thread, or the error that `kthread_run` answers.
pub data Task : Type 0 where
  no_task running error_pointer : Task

-- Which parts are held: made, and not handed to the function that destroys them since. Whether the
-- disk is added; and whether a part was destroyed that was not held, a disk was deleted that was not
-- added, and a pointer was used that is an error.
pub record Driver : Type 0 where
  pub held : ℕ → Bool
  pub added : Bool
  pub ptr_wb_task : Task
  pub not_held : Bool
  pub not_added : Bool
  pub error_used : Bool

-- The error that `fb_init` returns: `-ENOMEM`, or the negative answer of `register_blkdev`.
pub data InitError : Type 0 where
  enomem not_registered : InitError

unfoldable pub take_part : ℕ → Driver → Driver
take_part p d = record d { held = update d.held p true }

unfoldable pub give_back : ℕ → Driver → Driver
give_back p d = record d { held = update d.held p false; not_held = d.not_held || not (d.held p) }

unfoldable pub del_gendisk : Driver → Driver
del_gendisk d = record d { added = false; not_added = d.not_added || not d.added }

unfoldable pub add_disk : Driver → Driver
add_disk d = record d { added = true }

-- The labels of `fb_init`, each of which goes on to the one below it in the code.
unfoldable pub fail_create_vdevice : Driver → Driver
unfolding give_back
fail_create_vdevice d = give_back context d

unfoldable pub fail_create_ssd_info : Driver → Driver
unfolding fail_create_vdevice
fail_create_ssd_info d = fail_create_vdevice (give_back vdevice d)

unfoldable pub fail_create_mapping_context : Driver → Driver
unfolding fail_create_ssd_info
fail_create_mapping_context d = fail_create_ssd_info (give_back ssd_info d)

unfoldable pub fail_alloc_bdev_queue : Driver → Driver
unfolding fail_create_mapping_context
fail_alloc_bdev_queue d = fail_create_mapping_context (give_back mapping_context d)

unfoldable pub fail_register_bdev : Driver → Driver
unfolding fail_alloc_bdev_queue
fail_register_bdev d = fail_alloc_bdev_queue (give_back req_queue d)

unfoldable pub fail_alloc_disk : Driver → Driver
unfolding fail_register_bdev
fail_alloc_disk d = fail_register_bdev (give_back major_num d)

unfoldable pub fail_create_write_buffer : Driver → Driver
unfolding fail_alloc_disk del_gendisk
fail_create_write_buffer d = fail_alloc_disk (del_gendisk d)

unfoldable pub fail_write_buffer_thread : Driver → Driver
unfolding fail_create_write_buffer
fail_write_buffer_thread d = fail_create_write_buffer (give_back write_buffer d)

-- 1 for an error, and 0 for a thread.
unfoldable pub is_err : Task → ℕ
is_err no_task = 0
is_err running = 0
is_err error_pointer = 1

-- What the driver sets `rc` to is never negative.
unfoldable pub fb_init_write_buffer_thread : Bool → Driver → Status × Driver
unfolding is_err
fb_init_write_buffer_thread started d =
    let ptr_wb_task = if started then running else error_pointer in
    let rc = is_err ptr_wb_task in
    (if leb 0 rc then success else error, record d { ptr_wb_task = ptr_wb_task })

-- The statements behind the making of the write buffer; the last label returns with `ret_value` 0.
unfoldable pub start_driver : Bool → Driver → Option InitError × Driver
unfolding fb_init_write_buffer_thread add_disk fail_write_buffer_thread
start_driver started d =
    let (status, d') = fb_init_write_buffer_thread started d in
    elim status [ error ↦ (none, fail_write_buffer_thread d') | success ↦ (none, add_disk d') ]

module _ (granted : ℕ → Bool) (started : Bool) where
  -- The statements from a part on: what follows if it is granted, and what if it is not.
  abbrev try_part :
      ℕ
      → Driver
      → (Driver → Option InitError × Driver)
      → Option InitError × Driver
      → Option InitError × Driver
  try_part p d next failed = if granted p then next (take_part p d) else failed

  unfoldable pub fb_init : Driver → Option InitError × Driver
  unfolding take_part start_driver fail_alloc_disk
  fb_init d =
      let d0 = take_part perf d in
      try_part context d0
        (λ d1.
          try_part vdevice d1
            (λ d2.
              try_part ssd_info d2
                (λ d3.
                  try_part mapping_context d3
                    (λ d4.
                      try_part req_queue d4
                        (λ d5.
                          try_part major_num d5
                            (λ d6.
                              try_part gendisk d6
                                (λ d7.
                                  try_part write_buffer d7 (start_driver started)
                                    (some enomem, fail_create_write_buffer d7))
                                (some enomem, fail_alloc_disk d6))
                            (some not_registered, fail_register_bdev d5))
                        (some enomem, fail_alloc_bdev_queue d4))
                    (some enomem, fail_create_mapping_context d3))
                (some enomem, fail_create_ssd_info d2))
            (some enomem, fail_create_vdevice d1))
        (some enomem, d0)

-- `if (_fb->ptr_wb_task) { kthread_stop(_fb->ptr_wb_task); }`
unfoldable pub stop_wb_task : Driver → Driver
stop_wb_task d = elim d.ptr_wb_task [
  | no_task ↦ d
  | running ↦ record d { ptr_wb_task = no_task }
  | error_pointer ↦ record d { error_used = true }
]

unfoldable pub fb_exit : Driver → Driver
unfolding give_back del_gendisk stop_wb_task
fb_exit d =
    let d1 = give_back req_queue (give_back major_num (give_back gendisk (del_gendisk d))) in
    let d2 = give_back mapping_context (give_back write_buffer (stop_wb_task d1)) in
    give_back perf (give_back context (give_back vdevice (give_back ssd_info d2)))
