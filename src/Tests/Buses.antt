-- ===== src/Tests/Buses.antt =====
-- A bus with its two chips: runs of the code of bus_controller.c.
use flashbench.Common.{
  ℕ, ◌≡◌, ◌<◌, refl, false, none, some, List, [], ◌∷◌, arith, success, error, replicate, ℕ_discrete,
  ◌==◌, if◌then◌else◌,
}
use flashbench.Config.{num_chips_per_bus}
use flashbench.Bus.Queue.{
  march, OprQueue, Operation, op_read, op_prog, create_opr_queue, opr_queue_put_entry,
}
use flashbench.Bus.Fifo.{Call, put_entry, get_first, remove_first, calls, specs}
use flashbench.Bus.Queue.Invariant.{IsValid, create_opr_queue-IsValid, opr_queue_put_entry-IsValid}
use flashbench.Bus.Queue.Refine.{blank, contents, calls-specs}
use flashbench.Bus.Busy.{idle, is_acquired, acquire_busy_lock, operation_time}
use flashbench.Bus.Controller.{State, thread_round, thread_rounds}
use flashbench.Bus.Controller.View.{due, serve, QueuesValid, chip_view}
use flashbench.Bus.Controller.Entry.{fb_issue_operation, fb_issue_operation_full}
use flashbench.Bus.Controller.Rounds.{thread_round_lem}
use flashbench.Bus.Controller.Service.{rounds_stuck, thread_round_early}
use flashbench.Bus.Controller.References.{Accounted}
use flashbench.Bus.Controller.Accounts.{thread_rounds-Accounted}

abbrev empty_queue : OprQueue
empty_queue = create_opr_queue (replicate 4 blank) 4

empty_queue-IsValid : IsValid empty_queue
empty_queue-IsValid =
    create_opr_queue-IsValid (replicate 4 blank) 4 refl (omega arith) (omega arith)

-- A read of the request at 7 waits.
abbrev one_read : OprQueue
one_read = (opr_queue_put_entry empty_queue op_read (some 7)).1

one_read-IsValid : IsValid one_read
one_read-IsValid = opr_queue_put_entry-IsValid op_read (some 7) empty_queue-IsValid

abbrev some_calls : List Call
some_calls = put_entry op_prog none ∷ get_first ∷ remove_first ∷ remove_first ∷ remove_first ∷ []

calls-specs_example :
    calls one_read some_calls ≡ specs one_read.num_max_entries (contents one_read) some_calls
calls-specs_example = calls-specs some_calls one_read-IsValid

answers :
    specs 4 (contents one_read) some_calls
    ≡ (success, none)
      ∷ (success, some (record { operation = op_read; ptr_fb_bio = some 7 }))
      ∷ (success, none)
      ∷ (success, none)
      ∷ (error, none)
      ∷ []
unfolding specs contents opr_queue_put_entry create_opr_queue
answers = refl

-- The request at 7 has three operations: one waits for each chip, and one started on chip 0 at `time`.
abbrev at_work : ℕ → State
at_work time = record {
  controller = record {
    opr_queue = λ c. one_read;
    chip_busies = λ c. if c == 0 then acquire_busy_lock time op_read (some 7) else idle;
  };
  bios = record {
    fb_bio = λ p. record { req_count = 3; lpas = []; kpages = []; bio = 70 };
    live = λ p. p == 7;
    ended = [];
    use_after_free = false;
  };
}

queues : (time : ℕ) → QueuesValid (at_work time)
queues time c h = one_read-IsValid

clean_at :
    (c : ℕ)
    → Dec (c ≡ 0)
    → is_acquired ((at_work 1000).chip_busies c) ≡ false
    → ((at_work 1000).chip_busies c).ptr_fb_bio ≡ none
unfolding acquire_busy_lock is_acquired operation_time
clean_at c (yes e) = rw e (λ z. absurd (cc))
clean_at c (no ne) = let other : (c == 0) ≡ false = ground arith in rw other (λ z. refl)

account : Accounted (λ p. 0) (at_work 1000)
unfolding acquire_busy_lock contents opr_queue_put_entry create_opr_queue
account = record {
  safe = refl;
  counts = λ p l. ground arith;
  small = λ p l. omega arith;
  gone = λ p l. ground arith;
  clean = λ c h. clean_at c (ℕ_discrete c 0);
}

abbrev two_rounds : List (ℕ × (ℕ → ℕ))
two_rounds = (1080, (λ c. 1081)) ∷ (2000, (λ c. 2001)) ∷ []

thread_rounds-Accounted_example :
    (s : State) × (thread_rounds two_rounds (at_work 1000) ≡ some s)
    × QueuesValid s
    × Accounted (λ p. 0) s
thread_rounds-Accounted_example =
    thread_rounds-Accounted two_rounds (at_work 1000) (queues 1000) account

thread_round_lem_example :
    (s : State) × (thread_round 1080 (λ c. 1081) (at_work 1000) ≡ some s)
    × QueuesValid s
    × ((chip : ℕ)
        → chip < num_chips_per_bus
        → chip_view s chip
          ≡ serve 1081
              (contents ((at_work 1000).opr_queue chip))
              (due 1080 ((at_work 1000).chip_busies chip)))
thread_round_lem_example = thread_round_lem 1080 (λ c. 1081) (at_work 1000) (queues 1000)

-- 80 microseconds before the clock is back at 0.
abbrev late : ℕ
late = 4294967216

rounds_stuck_example :
    (s : State) × (thread_rounds two_rounds (at_work late) ≡ some s)
    × (chip_view s 0 ≡ chip_view (at_work late) 0)
unfolding operation_time
rounds_stuck_example =
    rounds_stuck two_rounds (at_work late) (queues late) 0 (omega arith) late op_read (some 7) refl
      (omega arith) refl

thread_round_early_example :
    (s : State) × (thread_round 4294967290 (λ c. 5) (at_work 4294967290) ≡ some s)
    × (chip_view s 0 ≡ serve 5 (contents one_read) idle)
unfolding operation_time
thread_round_early_example =
    thread_round_early 4294967290 (λ c. 5) (at_work 4294967290) (queues 4294967290) 0 (omega arith)
      4294967290 op_read (some 7) refl (omega arith) (omega arith) (omega arith)

-- Two reads fill a queue of two.
abbrev small_queue : OprQueue
small_queue = create_opr_queue (replicate 2 blank) 2

abbrev half_queue : OprQueue
half_queue = (opr_queue_put_entry small_queue op_read (some 7)).1

abbrev full_queue : OprQueue
full_queue = (opr_queue_put_entry half_queue op_read (some 7)).1

full_queue-IsValid : IsValid full_queue
full_queue-IsValid = opr_queue_put_entry-IsValid op_read (some 7) (
    opr_queue_put_entry-IsValid op_read (some 7)
      (create_opr_queue-IsValid (replicate 2 blank) 2 refl (omega arith) (omega arith)))

abbrev at_full_work : State
at_full_work = record {
  controller = record {
    opr_queue = λ c. full_queue;
    chip_busies = λ c. acquire_busy_lock 1000 op_read (some 7);
  };
  bios = (at_work 1000).bios;
}

abbrev read_of_7 : Operation
read_of_7 = record { operation = op_read; ptr_fb_bio = some 7 }

fb_issue_operation_full_example :
    (s : State) × (fb_issue_operation ((1080, λ c. 1081) ∷ []) 0 op_prog none at_full_work ≡ some s)
    × (contents (s.opr_queue 0)
        ≡ read_of_7 ∷ record { operation = op_prog; ptr_fb_bio = none } ∷ [])
unfolding contents opr_queue_put_entry create_opr_queue operation_time march
fb_issue_operation_full_example =
    fb_issue_operation_full 1080 (λ c. 1081) [] at_full_work 0 op_prog none 1000 op_read (some 7)
      read_of_7 (read_of_7 ∷ []) (λ c h. full_queue-IsValid) (omega arith) refl refl refl
      (omega arith) (omega arith) (omega arith)
