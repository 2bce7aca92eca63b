-- ===== src/Bus/Setup/Threads.antt =====
-- The array of controllers: its allocations, its threads, and its end.
use flashbench.Common.{
  ℕ, ◌+◌, ◌≡◌, Status, success, error, Option-cases, inl, inr, refl, sym, ap, subst, ◌∙◌, Bool,
  true, false, Option, none, some, List, [], ◌∷◌, ◌++◌,
}
use flashbench.Config.{num_buses}
use flashbench.Memory.{Mem, Ptr, unset, null, to, each}
use flashbench.Memory.Holds.{
  Holds, Holds-refl, Created, Leaves, nothing, Created-Leaves, kmalloc-elim, kfree-Holds,
}
use flashbench.Memory.Arrays.{AreSet, IsFull, owned_by, until_null-Holds, each-Holds, fill-elim}
use flashbench.Bus.Queue.{Operation}
use flashbench.Bus.Setup.{
  BusCtrlObj, stop_task, create_bus_controller, fb_init_bus_ctrl_thread, fb_stop_bus_ctrl_thread,
  start_threads, drop_controllers, fb_bus_controller_init, fb_bus_controller_destroy,
}
use flashbench.Bus.Setup.Balance.{
  owned_by_controller, IsMade, create_bus_controller-Created, destroy_bus_controller-Frees,
}

-- A pointer to a task that runs, or null.
abbrev pub Runs : Ptr (Option ℕ) → Type 0
Runs unset = ⊥
Runs null = Unit
Runs (to none) = ⊥
Runs (to (some task)) = Unit

stop_task-Runs : (t : Ptr (Option ℕ)) (m : Mem) → Runs t → stop_task t m ≡ m
stop_task-Runs unset m r = absurd r
stop_task-Runs null m r = refl
stop_task-Runs (to none) m r = absurd r
stop_task-Runs (to (some task)) m r = refl

abbrev go_on :
    Bool × List (Ptr BusCtrlObj)
    → List (Ptr BusCtrlObj)
    → Status × BusCtrlObj
    → Bool × List (Ptr BusCtrlObj)
go_on rest cells r = elim r.0 [
  | success ↦ (rest.0, to r.1 ∷ rest.1)
  | error ↦ (false, to r.1 ∷ cells)
]

module _ (junk : ℕ → List Operation) (kthread_run : ℕ → Option ℕ) where
  abbrev pub IsRunning : BusCtrlObj → Type 0
  IsRunning c = IsMade junk c × Runs c.ptr_task

  abbrev pub owned_by_ctrl : ℕ × List (Ptr BusCtrlObj) → List ℕ
  owned_by_ctrl ctrl = owned_by owned_by_controller ctrl.1 ++ ctrl.0 ∷ []

  -- An error pointer is not seen.
  fb_init_bus_ctrl_thread-success :
      (c : BusCtrlObj) (bus : ℕ)
      → fb_init_bus_ctrl_thread junk kthread_run c bus
        ≡ (success, record c { ptr_task = to (kthread_run bus) })
  unfolding fb_init_bus_ctrl_thread
  fb_init_bus_ctrl_thread-success c bus = elim (Option-cases (kthread_run bus)) [
    | inl e ↦ rw (e) refl
    | inr (task, e) ↦ rw (e) refl
  ]

  start_threads-to :
      (bus : ℕ) (c : BusCtrlObj) (cells : List (Ptr BusCtrlObj))
      → start_threads junk kthread_run bus (to c ∷ cells) ≡ (
        (start_threads junk kthread_run (bus + 1) cells).0,
        to (record c {
          flag_enable_thread = true;
          num_bus = some bus;
          ptr_task = to (kthread_run bus);
        })
            ∷ (start_threads junk kthread_run (bus + 1) cells).1,
      )
  unfolding start_threads
  start_threads-to bus c cells = ap (go_on (start_threads junk kthread_run (bus + 1) cells) cells) (
      fb_init_bus_ctrl_thread-success (record c { flag_enable_thread = true; num_bus = some bus })
        bus)

  -- The threads' loop gets through.
  start_threads-started :
      (bus : ℕ) (cells : List (Ptr BusCtrlObj))
      → (start_threads junk kthread_run bus cells).0 ≡ true
  unfolding start_threads
  start_threads-started bus [] = refl
  start_threads-started bus (unset ∷ cells) = refl
  start_threads-started bus (null ∷ cells) = refl
  start_threads-started bus (to c ∷ cells) =
      ap (λ (x : Bool × List (Ptr BusCtrlObj)). x.0) (start_threads-to bus c cells)
      ∙ start_threads-started (bus + 1) cells

  drop_controllers-Holds :
      {m m' : Mem} (p : ℕ) (cells : List (Ptr BusCtrlObj))
      → AreSet (IsMade junk) cells
      → Holds m m' (owned_by owned_by_controller cells ++ p ∷ [])
      → Holds m (drop_controllers junk kthread_run p cells m') []
  unfolding drop_controllers
  drop_controllers-Holds p cells s h = kfree-Holds p (
      until_null-Holds (IsMade junk) owned_by_controller (destroy_bus_controller-Frees junk) cells s
        h)

  abbrev pub Up : ℕ × List (Ptr BusCtrlObj) → Type 0
  Up ctrl = IsFull IsRunning ctrl.1

  stopped :
      (c : BusCtrlObj) (m : Mem)
      → Runs c.ptr_task
      → fb_stop_bus_ctrl_thread junk kthread_run c m ≡ m
  unfolding fb_stop_bus_ctrl_thread
  stopped c m r = stop_task-Runs c.ptr_task m r

  each-stopped :
      (cells : List (Ptr BusCtrlObj)) (m : Mem)
      → IsFull IsRunning cells
      → each (fb_stop_bus_ctrl_thread junk kthread_run) cells m ≡ m
  unfolding each
  each-stopped [] m f = refl
  each-stopped (unset ∷ cells) m f = absurd f
  each-stopped (null ∷ cells) m f = absurd f
  each-stopped (to c ∷ cells) m f =
      ap (each (fb_stop_bus_ctrl_thread junk kthread_run) cells) (stopped c m f.0.1)
      ∙ each-stopped cells m f.1

  made : (cells : List (Ptr BusCtrlObj)) → IsFull IsRunning cells → IsFull (IsMade junk) cells
  made [] f = f
  made (unset ∷ cells) f = f
  made (null ∷ cells) f = f
  made (to c ∷ cells) f = (f.0.0, made cells f.1)

  -- The controllers are stopped and all that belongs to them is freed.
  pub fb_bus_controller_destroy-Holds :
      {m m' : Mem} (ctrl : ℕ × List (Ptr BusCtrlObj))
      → Up ctrl
      → Holds m m' (owned_by_ctrl ctrl)
      → Holds m (fb_bus_controller_destroy junk kthread_run ctrl m') []
  unfolding fb_bus_controller_destroy
  fb_bus_controller_destroy-Holds {m} {m'} ctrl up h = kfree-Holds ctrl.0 (
      each-Holds (IsMade junk) owned_by_controller (destroy_bus_controller-Frees junk) ctrl.1
        (made ctrl.1 up)
        (subst (λ (x : Mem). Holds m x (owned_by_ctrl ctrl)) (sym (each-stopped ctrl.1 m' up)) h))

  module _ (starts : (bus : ℕ) → (task : ℕ) × (kthread_run bus ≡ some task)) where
    start_threads-owned :
        (bus : ℕ) (cells : List (Ptr BusCtrlObj))
        → owned_by owned_by_controller (start_threads junk kthread_run bus cells).1
          ≡ owned_by owned_by_controller cells
    unfolding start_threads
    start_threads-owned bus [] = refl
    start_threads-owned bus (unset ∷ cells) = refl
    start_threads-owned bus (null ∷ cells) = refl
    start_threads-owned bus (to c ∷ cells) =
        ap (λ (x : Bool × List (Ptr BusCtrlObj)). owned_by owned_by_controller x.1)
          (start_threads-to bus c cells)
        ∙ ap (λ (l : List ℕ). owned_by_controller c ++ l) (start_threads-owned (bus + 1) cells)

    Runs-started : (bus : ℕ) → Runs (to (kthread_run bus))
    Runs-started bus = subst (λ (x : Option ℕ). Runs (to x)) (sym (starts bus).1) tt

    start_threads-IsFull :
        (bus : ℕ) (cells : List (Ptr BusCtrlObj))
        → IsFull (IsMade junk) cells
        → IsFull IsRunning (start_threads junk kthread_run bus cells).1
    unfolding start_threads
    start_threads-IsFull bus [] f = tt
    start_threads-IsFull bus (unset ∷ cells) f = f
    start_threads-IsFull bus (null ∷ cells) f = f
    start_threads-IsFull bus (to c ∷ cells) f =
        subst (λ (x : Bool × List (Ptr BusCtrlObj)). IsFull IsRunning x.1)
          (sym (start_threads-to bus c cells))
          ((f.0, Runs-started bus), start_threads-IsFull (bus + 1) cells f.1)

    -- `fb_bus_controller_init` answers controllers that run, with exactly their memory, or, wherever
    -- it fails, nothing is left allocated.
    pub fb_bus_controller_init-Created :
        (n : ℕ) (m : Mem) → Created Up owned_by_ctrl m (fb_bus_controller_init junk kthread_run n m)
    unfolding fb_bus_controller_init
    fb_bus_controller_init-Created n m =
        kmalloc-elim (Created Up owned_by_ctrl m) (Holds-refl m) (λ m1 h. h)
          (λ p m1 h1.
            fill-elim owned_by_controller (create_bus_controller junk n)
              (create_bus_controller-Created junk n) (Created Up owned_by_ctrl m) num_buses h1
              (λ cells m2 h s. drop_controllers-Holds p cells s h)
              (λ cells m2 h f size. rw (start_threads-started 0 cells) (
                start_threads-IsFull 0 cells f,
                subst (λ (l : List ℕ). Holds m m2 (l ++ p ∷ [])) (sym (start_threads-owned 0 cells))
                    h,
              )))

    -- Where every thread starts, making the controllers and destroying them again leaves nothing
    -- allocated, whether the making succeeds or fails at any point, and frees nothing that is not
    -- allocated.
    pub fb_bus_controller_init-fb_bus_controller_destroy :
        (n : ℕ) (m : Mem)
        → Leaves nothing
            (fb_bus_controller_destroy junk kthread_run)
            m
            (fb_bus_controller_init junk kthread_run n m)
    fb_bus_controller_init-fb_bus_controller_destroy n m =
        Created-Leaves owned_by_ctrl nothing (fb_bus_controller_destroy junk kthread_run)
          (fb_bus_controller_init junk kthread_run n m) (fb_bus_controller_init-Created n m)
          (λ ctrl m' up h. fb_bus_controller_destroy-Holds ctrl up h)
