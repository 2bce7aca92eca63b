-- ===== src/Bus/Fifo.antt =====
-- What a client of an operation queue relies on: a first-in first-out queue of at most `cap`
-- operations, oldest first, with the answers of the functions of bus_controller.c.
use flashbench.Common.{ℕ, Option, none, some, List, [], ◌∷◌, ◌++◌, length, if◌then◌else◌, ◌==◌}
use flashbench.Bus.Queue.{
  Operation, OprQueue, DevOp, Status, success, error, opr_queue_put_entry, opr_queue_get_first,
  opr_queue_remove_first,
}

-- A call of one of the three functions, and its answer: the status, and what is written through
-- the pointers.
pub data Call : Type 0 where
  put_entry : DevOp → Option ℕ → Call
  get_first remove_first : Call

abbrev pub Reply : Type 0
Reply = Status × Option Operation

-- The call on the program's queue.
unfoldable pub call : OprQueue → Call → Reply × OprQueue
call q (put_entry op b) = let (s, q') = opr_queue_put_entry q op b in ((s, none), q')
call q get_first = (opr_queue_get_first q, q)
call q remove_first = let (s, q') = opr_queue_remove_first q in ((s, none), q')

unfoldable pub calls : OprQueue → List Call → List Reply
unfolding call
calls q [] = []
calls q (c ∷ cs) = let (r, q') = call q c in r ∷ calls q' cs

-- The call on the abstract queue.
unfoldable pub spec : ℕ → List Operation → Call → Reply × List Operation
spec cap f (put_entry op b) =
    if length f == cap
    then ((error, none), f)
    else ((success, none), f ++ record { operation = op; ptr_fb_bio = b } ∷ [])
spec cap [] get_first = ((error, none), [])
spec cap (o ∷ f) get_first = ((success, some o), o ∷ f)
spec cap [] remove_first = ((error, none), [])
spec cap (o ∷ f) remove_first = ((success, none), f)

unfoldable pub specs : ℕ → List Operation → List Call → List Reply
unfolding spec
specs cap f [] = []
specs cap f (c ∷ cs) = let (r, f') = spec cap f c in r ∷ specs cap f' cs
