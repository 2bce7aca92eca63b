-- ===== src/Bus/Setup.antt =====
-- The making and the end of the bus controllers: the allocations of `create_opr_queue`,
-- `create_bus_controller` and `fb_bus_controller_init` of bus_controller.c with their error paths, the
-- functions that destroy what these make, and the threads' start and stop. An object that is reached
-- through a pointer was made in full, so that its own pointers are not null.
pub mod Balance
pub mod Threads
use flashbench.Common.{
  ℕ, zero, suc, ◌+◌, Bool, true, false, Option, none, some, List, [], ◌∷◌, Status, success, error,
  ltb, if◌then◌else◌, replicate,
}
use flashbench.Config.{num_chips_per_bus, num_buses}
use flashbench.Memory.{
  Mem, Ptr, unset, null, to, kmalloc, kfree, crash, on_result, fill, on_filled, until_null, each,
}
use flashbench.Bus.Queue.{OprQueue, Operation, create_opr_queue}
use flashbench.Bus.Busy.{ChipBusy, idle}

-- An operation queue with the addresses of the structure and of its list.
pub record OprQueueObj : Type 0 where
  pub self : ℕ
  pub opr_list_at : ℕ
  pub queue : OprQueue

-- A bus controller with its addresses. `ptr_task` points to a task, or is an error pointer, which
-- is `to none`.
pub record BusCtrlObj : Type 0 where
  pub self : ℕ
  pub opr_queues_at : ℕ
  pub opr_queues : List (Ptr OprQueueObj)
  pub chip_busies_at : ℕ
  pub chip_busies : List ChipBusy
  pub flag_enable_thread : Bool
  pub num_bus : Option ℕ
  pub ptr_task : Ptr (Option ℕ)

-- `kthread_stop` of the task, if there is one; that of an error pointer is the use of a bad pointer.
abbrev pub stop_task : Ptr (Option ℕ) → Mem → Mem
stop_task unset m = crash m
stop_task null m = m
stop_task (to none) m = crash m
stop_task (to (some task)) m = m

-- `IS_ERR` of a pointer.
abbrev pub is_err : Option ℕ → ℕ
is_err none = 1
is_err (some task) = 0

-- `junk a` is what the new list at address `a` holds; the list has as many entries as are asked for.
module _ (junk : ℕ → List Operation) where
  unfoldable pub alloc_opr_queue : ℕ → Mem → Option OprQueueObj × Mem
  alloc_opr_queue num_max_entries m =
      on_result (kmalloc m) (λ m'. (none, m'))
        (λ q m'.
          on_result (kmalloc m') (λ m''. (none, kfree q m''))
            (λ l m''. (
              some (record {
                self = q;
                opr_list_at = l;
                queue = create_opr_queue (junk l) num_max_entries;
              }),
              m'',
            )))

  unfoldable pub destroy_opr_queue : OprQueueObj → Mem → Mem
  destroy_opr_queue o m = kfree o.self (kfree o.opr_list_at m)

  -- `CREATE_OPR_QUEUE_FAIL` and what follows it.
  unfoldable pub drop_controller : ℕ → ℕ → List (Ptr OprQueueObj) → Mem → Mem
  drop_controller c a opr_queues m = kfree c (kfree a (until_null destroy_opr_queue opr_queues m))

  unfoldable pub create_bus_controller : ℕ → Mem → Option BusCtrlObj × Mem
  unfolding alloc_opr_queue drop_controller
  create_bus_controller num_max_entries_per_chip m =
      on_result (kmalloc m) (λ m1. (none, m1))
        (λ c m1.
          on_result (kmalloc m1) (λ m2. (none, kfree c m2))
            (λ a m2.
              on_filled (fill (alloc_opr_queue num_max_entries_per_chip) num_chips_per_bus m2)
                (λ opr_queues m3. (none, drop_controller c a opr_queues m3))
                (λ opr_queues m3.
                  on_result (kmalloc m3) (λ m4. (none, drop_controller c a opr_queues m4))
                    (λ b m4. (
                      some (record {
                        self = c;
                        opr_queues_at = a;
                        opr_queues = opr_queues;
                        chip_busies_at = b;
                        chip_busies = replicate num_chips_per_bus idle;
                        flag_enable_thread = false;
                        num_bus = none;
                        ptr_task = unset;
                      }),
                      m4,
                    )))))

  unfoldable pub destroy_bus_controller : BusCtrlObj → Mem → Mem
  unfolding destroy_opr_queue
  destroy_bus_controller c m =
      kfree c.self (
        kfree c.opr_queues_at
          (until_null destroy_opr_queue c.opr_queues (kfree c.chip_busies_at m)))

  -- `kthread_run` for a bus: a task, or an error pointer.
  module _ (kthread_run : ℕ → Option ℕ) where
    unfoldable pub fb_init_bus_ctrl_thread : BusCtrlObj → ℕ → Status × BusCtrlObj
    fb_init_bus_ctrl_thread c bus =
        let rc = is_err (kthread_run bus) in
        let c' = record c { ptr_task = to (kthread_run bus) } in
        if ltb rc 0 then (error, c') else (success, c')

    unfoldable pub fb_stop_bus_ctrl_thread : BusCtrlObj → Mem → Mem
    fb_stop_bus_ctrl_thread c m = stop_task c.ptr_task m

    -- The loop that starts the threads, from `bus` on: whether all were started, and the controllers.
    unfoldable pub start_threads : ℕ → List (Ptr BusCtrlObj) → Bool × List (Ptr BusCtrlObj)
    unfolding fb_init_bus_ctrl_thread
    start_threads bus [] = (true, [])
    start_threads bus (unset ∷ cells) = (true, unset ∷ cells)
    start_threads bus (null ∷ cells) = (true, null ∷ cells)
    start_threads bus (to c ∷ cells) =
        let rest = start_threads (bus + 1) cells in
        let (status, c') =
          fb_init_bus_ctrl_thread (record c { flag_enable_thread = true; num_bus = some bus })
            bus in
        elim status [ success ↦ (rest.0, to c' ∷ rest.1) | error ↦ (false, to c' ∷ cells) ]

    -- `CREATE_BUS_CTRL_FAIL`
    unfoldable pub drop_controllers : ℕ → List (Ptr BusCtrlObj) → Mem → Mem
    drop_controllers p cells m = kfree p (until_null destroy_bus_controller cells m)

    -- The array's address and its cells. The error path behind the threads also clears the flags of the
    -- controllers that it goes on to free.
    unfoldable pub fb_bus_controller_init : ℕ → Mem → Option (ℕ × List (Ptr BusCtrlObj)) × Mem
    unfolding start_threads fb_stop_bus_ctrl_thread drop_controllers create_bus_controller
    fb_bus_controller_init num_max_entries_per_chip m =
        on_result (kmalloc m) (λ m1. (none, m1))
          (λ p m1.
            on_filled (fill (create_bus_controller num_max_entries_per_chip) num_buses m1)
              (λ cells m2. (none, drop_controllers p cells m2))
              (λ cells m2.
                let (started, cells') = start_threads 0 cells in
                if started
                then (some (p, cells'), m2)
                else (none, drop_controllers p cells' (each fb_stop_bus_ctrl_thread cells' m2))))

    unfoldable pub fb_bus_controller_destroy : ℕ × List (Ptr BusCtrlObj) → Mem → Mem
    unfolding fb_stop_bus_ctrl_thread destroy_bus_controller
    fb_bus_controller_destroy ctrl m =
        kfree ctrl.0 (each destroy_bus_controller ctrl.1 (each fb_stop_bus_ctrl_thread ctrl.1 m))
