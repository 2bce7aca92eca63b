-- ===== src/Bus/Queue/Refine.antt =====
-- A valid operation queue behaves as the bounded first-in first-out queue of its entries.
use flashbench.Common.{
  ℕ, zero, suc, ◌-◌, ◌<◌, ◌≡◌, ◌≢◌, refl, ap, Option, none, some, List, [], ◌∷◌, ◌++◌, arith,
  length, set, get_or, get_elem?-eq-get_or, get_or-set_self, get_or-set_ne, ℕ_discrete,
}
use flashbench.Config.{u32_mod}
use flashbench.Bus.Queue.{
  OprQueue, Operation, DevOp, op_read, success, march, opr_queue_put_entry, opr_queue_get_first,
  opr_queue_remove_first,
}
use flashbench.Bus.Queue.Invariant.{
  IsValid, marches, march-lt, marches_lem, put, removed, in_bounds, opr_queue_put_entry_full,
  opr_queue_put_entry_room, opr_queue_remove_first_empty, opr_queue_remove_first_some,
  opr_queue_put_entry-IsValid, opr_queue_remove_first-IsValid,
}
use flashbench.Bus.Fifo.{Call, Reply, put_entry, get_first, remove_first, call, calls, spec, specs}

-- Stands for an entry that is never read.
abbrev pub blank : Operation
blank = record { operation = op_read; ptr_fb_bio = none }

module _ (cap : ℕ) where
  -- The `n` entries from index `i` on.
  abbrev pub window : List Operation → ℕ → ℕ → List Operation
  window mem i zero = []
  window mem i (suc n) = get_or mem i blank ∷ window mem (march cap i) n

  length-window : (mem : List Operation) (i n : ℕ) → length (window mem i n) ≡ n
  length-window mem i zero = refl
  length-window mem i (suc n) = ap suc (length-window mem (march cap i) n)

  window-pred :
      (mem : List Operation) (i n : ℕ)
      → 0 < n
      → window mem i n ≡ get_or mem i blank ∷ window mem (march cap i) (n - 1)
  window-pred mem i zero h = absurd (omega arith)
  window-pred mem i (suc n) h = ap (λ k. window mem i (suc k)) (omega arith)

  -- Fewer than `cap` marches do not come back to the start.
  marches-ne : (i n : ℕ) → cap < u32_mod → i < cap → suc n < cap → marches cap i (suc n) ≢ i
  marches-ne i n s h k = ground (arith, marches_lem cap i (suc n) s h)

  -- An entry written just behind a window extends it.
  window-set :
      (mem : List Operation) (o : Operation) (n i j : ℕ)
      → length mem ≡ cap
      → cap < u32_mod
      → i < cap
      → n < cap
      → j ≡ marches cap i n
      → window (set mem j o) i (suc n) ≡ window mem i n ++ o ∷ []
  window-set mem o zero i j l s h k e = rw (e, get_or-set_self mem i o blank (omega arith)) refl
  window-set mem o (suc n) i j l s h k e =
      rw (get_or-set_ne mem {i = j} {j = i} o blank (rw e (marches-ne i n s h k))) (
        ap (λ w. get_or mem i blank ∷ w)
          (window-set mem o n (march cap i) j l s (march-lt cap i s h) (omega arith) e))

-- The operations that wait in a queue, oldest first.
unfoldable pub contents : OprQueue → List Operation
contents q = window q.num_max_entries q.opr_list q.queue_tail q.num_entries

pub length-contents : (q : OprQueue) → length (contents q) ≡ q.num_entries
unfolding contents
length-contents q = length-window q.num_max_entries q.opr_list q.queue_tail q.num_entries

pub contents-put :
    {q : OprQueue} (o : Operation)
    → IsValid q
    → q.num_entries < q.num_max_entries
    → contents (put q o) ≡ contents q ++ o ∷ []
unfolding contents
contents-put {q} o v h =
    window-set q.num_max_entries q.opr_list o q.num_entries q.queue_tail q.queue_head v.storage
      v.small v.tail_in h v.head_at

pub contents-removed :
    (q : OprQueue)
    → 0 < q.num_entries
    → contents q ≡ get_or q.opr_list q.queue_tail blank ∷ contents (removed q)
unfolding contents
contents-removed q h = window-pred q.num_max_entries q.opr_list q.queue_tail q.num_entries h

pub opr_queue_get_first_waiting :
    {q : OprQueue}
    → IsValid q
    → 0 < q.num_entries
    → opr_queue_get_first q ≡ (success, some (get_or q.opr_list q.queue_tail blank))
unfolding opr_queue_get_first
opr_queue_get_first_waiting {q} v h =
    ground (arith, get_elem?-eq-get_or q.opr_list q.queue_tail blank (in_bounds v).1)

-- What one call answers, and the operations that it leaves waiting.
abbrev after : OprQueue → Call → Reply × List Operation
after q c = let (r, q') = call q c in (r, contents q')

call_put :
    {q : OprQueue} (op : DevOp) (b : Option ℕ)
    → IsValid q
    → after q (put_entry op b) ≡ spec q.num_max_entries (contents q) (put_entry op b)
unfolding call spec contents
call_put {q} op b v = elim (ℕ_discrete q.num_entries q.num_max_entries) [
  | yes e ↦ ground (arith, opr_queue_put_entry_full q op b e, length-contents q)
  | no ne ↦ ground (
    arith,
    opr_queue_put_entry_room op b v (omega arith),
    length-contents q,
    contents-put (record { operation = op; ptr_fb_bio = b }) v (omega arith),
  )
]

call_get :
    {q : OprQueue} → IsValid q → after q get_first ≡ spec q.num_max_entries (contents q) get_first
unfolding call spec opr_queue_get_first contents
call_get {q} v = elim (ℕ_discrete q.num_entries 0) [
  | yes e ↦ rw e refl
  | no ne ↦ ground (
    arith,
    contents-removed q (omega arith),
    get_elem?-eq-get_or q.opr_list q.queue_tail blank (in_bounds v).1,
  )
]

call_remove :
    {q : OprQueue}
    → IsValid q
    → after q remove_first ≡ spec q.num_max_entries (contents q) remove_first
unfolding call spec contents
call_remove {q} v = elim (ℕ_discrete q.num_entries 0) [
  | yes e ↦ ground (
    arith,
    opr_queue_remove_first_empty q e,
    ap (window q.num_max_entries q.opr_list q.queue_tail) e,
  )
  | no ne ↦
      ground (arith, opr_queue_remove_first_some v (omega arith), contents-removed q (omega arith))
]

-- Each function answers a valid queue as the bounded queue of its contents answers, and leaves the
-- queue holding what that one then holds.
pub call-spec :
    {q : OprQueue} (c : Call) → IsValid q → after q c ≡ spec q.num_max_entries (contents q) c
call-spec (put_entry op b) v = call_put op b v
call-spec get_first v = call_get v
call-spec remove_first v = call_remove v

call-IsValid : {q : OprQueue} (c : Call) → IsValid q → IsValid (call q c).1
unfolding call
call-IsValid (put_entry op b) v = opr_queue_put_entry-IsValid op b v
call-IsValid get_first v = v
call-IsValid remove_first v = opr_queue_remove_first-IsValid v

num_max_entries-call : (q : OprQueue) (c : Call) → (call q c).1.num_max_entries ≡ q.num_max_entries
unfolding call opr_queue_put_entry opr_queue_remove_first
num_max_entries-call q (put_entry op b) = ground arith
num_max_entries-call q get_first = refl
num_max_entries-call q remove_first = ground arith

-- No sequence of calls tells a valid operation queue from the bounded first-in first-out queue of
-- its contents: the answers are the same, statuses and operations.
pub calls-specs :
    (cs : List Call) {q : OprQueue}
    → IsValid q
    → calls q cs ≡ specs q.num_max_entries (contents q) cs
unfolding calls specs
calls-specs [] v = refl
calls-specs (c ∷ cs) {q} v =
    rw (calls-specs cs (call-IsValid c v), ← call-spec c v)
      (ap (λ cap. (call q c).0 ∷ specs cap (contents (call q c).1) cs) (num_max_entries-call q c))

pub contents_empty : (q : OprQueue) → q.num_entries ≡ 0 → contents q ≡ []
unfolding contents
contents_empty q e = rw e
