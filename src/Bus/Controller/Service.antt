-- ===== src/Bus/Controller/Service.antt =====
-- When a chip serves its queue, and the clock readings at which it never does again: the time stamps
-- are 32-bit microseconds, and a wake-up time of 0 also means that none is set.
use flashbench.Common.{
  ℕ, ◌+◌, ◌≤◌, ◌<◌, ◌≡◌, refl, ap, ◌∙◌, Option, some, List, [], ◌∷◌, arith, true,
}
use flashbench.Config.{u32_mod, num_chips_per_bus}
use flashbench.Bus.Queue.{Operation, DevOp, op_read, op_prog, op_plock, op_block, op_bers}
use flashbench.Bus.Queue.Refine.{contents}
use flashbench.Bus.Busy.{ChipBusy, idle, is_acquired, acquire_busy_lock, operation_time}
use flashbench.Bus.Controller.{State, thread_round, thread_rounds}
use flashbench.Bus.Controller.View.{due, serve, QueuesValid, chip_view}
use flashbench.Bus.Controller.Rounds.{thread_round_lem}

module _ (time : ℕ) (op : DevOp) (b : Option ℕ) where
  -- A request whose wake-up time fits 32 bits is over from that time on, and not before.
  due_after :
      (now : ℕ)
      → 0 < time
      → time + operation_time op < u32_mod
      → time + operation_time op ≤ now
      → due now (acquire_busy_lock time op b) ≡ idle
  unfolding acquire_busy_lock
  due_after now p h k = ground arith

  due_before :
      (now : ℕ)
      → time + operation_time op < u32_mod
      → now < time + operation_time op
      → due now (acquire_busy_lock time op b) ≡ acquire_busy_lock time op b
  unfolding acquire_busy_lock
  due_before now h k = ground arith

  -- A chip whose wake-up time wraps to 0 is taken for ever.
  due_stuck :
      (now : ℕ)
      → time + operation_time op ≡ u32_mod
      → due now (acquire_busy_lock time op b) ≡ acquire_busy_lock time op b
  unfolding acquire_busy_lock
  due_stuck now e = ground arith

  is_acquired_stuck : 0 < time → is_acquired (acquire_busy_lock time op b) ≡ true
  unfolding acquire_busy_lock is_acquired
  is_acquired_stuck p = ground arith

-- A busy chip with the clock at `now` leaves its waiting operations alone.
serve_busy :
    (time : ℕ) (f : List Operation) (busy : ChipBusy)
    → is_acquired busy ≡ true
    → serve time f busy ≡ (f, busy)
serve_busy time [] busy e = refl
serve_busy time (o ∷ f) busy e = rw e

module _ (now : ℕ) (times : ℕ → ℕ) (s : State) (v : QueuesValid s) (chip : ℕ)
    (h : chip < num_chips_per_bus) (time : ℕ) (op : DevOp) (b : Option ℕ)
    (busy : s.chip_busies chip ≡ acquire_busy_lock time op b) where
  -- On valid queues, a round at or behind the wake-up time of the request that a chip works on ends
  -- that request and starts the oldest operation that waits, at the clock of phase 2; if none waits
  -- the chip is free. The request started at a time above 0, and its wake-up time fits 32 bits.
  pub round_serves :
      0 < time
      → time + operation_time op < u32_mod
      → time + operation_time op ≤ now
      → (s' : State) × (thread_round now times s ≡ some s')
        × (chip_view s' chip ≡ serve (times chip) (contents (s.opr_queue chip)) idle)
  round_serves p w k =
      let (s', e, _, view) = thread_round_lem now times s v in
      (
        s',
        e,
        view chip h
            ∙ ap (serve (times chip) (contents (s.opr_queue chip)))
                (rw busy (due_after time op b now p w k)),
      )

  kept :
      due now (s.chip_busies chip) ≡ s.chip_busies chip
      → 0 < time
      → (s' : State) × (thread_round now times s ≡ some s')
        × QueuesValid s'
        × (chip_view s' chip ≡ chip_view s chip)
  kept d p =
      let (s', e, v', view) = thread_round_lem now times s v in
      (
        s',
        e,
        v',
        view chip h
            ∙ ap (serve (times chip) (contents (s.opr_queue chip))) d
            ∙ serve_busy (times chip) (contents (s.opr_queue chip)) (s.chip_busies chip)
                (rw busy (is_acquired_stuck time op b p)),
      )

  -- On valid queues, a round before the wake-up time changes nothing on the chip, if the request
  -- started at a time above 0 and its wake-up time fits 32 bits.
  pub round_waits :
      0 < time
      → time + operation_time op < u32_mod
      → now < time + operation_time op
      → (s' : State) × (thread_round now times s ≡ some s')
        × QueuesValid s'
        × (chip_view s' chip ≡ chip_view s chip)
  round_waits p w k = kept (rw busy (due_before time op b now w k)) p

-- A request whose wake-up time is exactly 2^32 microseconds never ends: however many rounds the
-- thread makes, at whatever clock readings, the chip stays taken and its queue is not served. The
-- queues are valid, and the request started at a time above 0.
pub rounds_stuck :
    (rounds : List (ℕ × (ℕ → ℕ))) (s : State)
    → QueuesValid s
    → (chip : ℕ) → chip < num_chips_per_bus
    → (time : ℕ) (op : DevOp) (b : Option ℕ) → s.chip_busies chip ≡ acquire_busy_lock time op b
    → 0 < time
    → time + operation_time op ≡ u32_mod
    → (s' : State) × (thread_rounds rounds s ≡ some s') × (chip_view s' chip ≡ chip_view s chip)
unfolding thread_rounds
rounds_stuck [] s v chip h time op b busy p w = (s, refl, refl)
rounds_stuck ((now, times) ∷ rounds) s v chip h time op b busy p w =
    let (t, e, v', view) =
      kept now times s v chip h time op b busy (rw busy (due_stuck time op b now w)) p in
    let (u, d, view') =
      rounds_stuck rounds t v' chip h time op b
        (ap (λ (w : List Operation × ChipBusy). w.1) view ∙ busy) p w in
    (u, rw (e, thread_rounds) d, view' ∙ view)

-- From the start of a request on whose wake-up time wraps past 0, it counts as due.
due_early :
    (now time : ℕ) (op : DevOp) (b : Option ℕ)
    → time < u32_mod
    → u32_mod < time + operation_time op
    → time ≤ now
    → due now (acquire_busy_lock time op b) ≡ idle
unfolding acquire_busy_lock operation_time
due_early now time op_read b h k l = ground arith
due_early now time op_prog b h k l = ground arith
due_early now time op_plock b h k l = ground arith
due_early now time op_block b h k l = ground arith
due_early now time op_bers b h k l = ground arith

-- On valid queues, a chip works on a request that started at a 32-bit time, and whose wake-up time
-- wraps past 0. A round of the thread at any clock reading from that start on, also at the start
-- itself, ends the request, though its operation is not over, and starts the oldest operation that
-- waits, at the clock of phase 2; if none waits the chip is free.
pub thread_round_early :
    (now : ℕ) (times : ℕ → ℕ) (s : State)
    → QueuesValid s
    → (chip : ℕ) → chip < num_chips_per_bus
    → (time : ℕ) (op : DevOp) (b : Option ℕ) → s.chip_busies chip ≡ acquire_busy_lock time op b
    → time < u32_mod
    → u32_mod < time + operation_time op
    → time ≤ now
    → (s' : State) × (thread_round now times s ≡ some s')
      × (chip_view s' chip ≡ serve (times chip) (contents (s.opr_queue chip)) idle)
thread_round_early now times s v chip h time op b busy small wraps l =
    let (s', e, _, view) = thread_round_lem now times s v in
    (
      s',
      e,
      view chip h
          ∙ ap (serve (times chip) (contents (s.opr_queue chip)))
              (rw busy (due_early now time op b small wraps l)),
    )
