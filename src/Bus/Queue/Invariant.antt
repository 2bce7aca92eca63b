-- ===== src/Bus/Queue/Invariant.antt =====
-- The representation invariant of an operation queue.
use flashbench.Common.{
  ℕ, zero, suc, ◌+◌, ◌-◌, ◌≤◌, ◌<◌, ◌≡◌, refl, ap, ◌∙◌, Option, List, arith, length, length-set,
  set, if◌then◌else◌, ltb, ℕ_discrete,
}
use flashbench.Config.{u32_mod}
use flashbench.Bus.Queue.{
  OprQueue, Operation, DevOp, success, error, march, create_opr_queue, opr_queue_put_entry,
  opr_queue_remove_first,
}

-- `n` marches from index `i`.
abbrev pub marches : ℕ → ℕ → ℕ → ℕ
marches cap i zero = i
marches cap i (suc n) = marches cap (march cap i) n

pub record IsValid (q : OprQueue) : Type 0 where
  pub storage : length q.opr_list ≡ q.num_max_entries
  pub small : q.num_max_entries < u32_mod
  pub tail_in : q.queue_tail < q.num_max_entries
  pub entries_in : q.num_entries ≤ q.num_max_entries
  pub head_at : q.queue_head ≡ marches q.num_max_entries q.queue_tail q.num_entries

pub march-lt : (cap i : ℕ) → cap < u32_mod → i < cap → march cap i < cap
unfolding march
march-lt cap i s h = ground arith

-- Going on by `n` entries stops at the end of the storage and goes on from its start.
pub marches_lem :
    (cap i n : ℕ)
    → cap < u32_mod
    → i < cap
    → n ≤ cap
    → marches cap i n ≡ (if ltb (i + n) cap then i + n else i + n - cap)
unfolding march
marches_lem cap i zero s h k = ground arith
marches_lem cap i (suc n) s h k =
    ground (arith, march-lt cap i s h, marches_lem cap (march cap i) n s)

pub march-marches : (cap i n : ℕ) → march cap (marches cap i n) ≡ marches cap i (suc n)
march-marches cap i zero = refl
march-marches cap i (suc n) = march-marches cap (march cap i) n

-- `opr_queue_put_entry` writes, and `opr_queue_get_first` reads, inside `opr_list`.
pub in_bounds :
    {q : OprQueue}
    → IsValid q
    → (q.queue_head < length q.opr_list) × (q.queue_tail < length q.opr_list)
in_bounds {q} v =
    ground (
      arith,
      marches_lem q.num_max_entries q.queue_tail q.num_entries v.small v.tail_in v.entries_in,
    )

-- A new queue is valid, if it has room for an entry and the memory has its size.
pub create_opr_queue-IsValid :
    (mem : List Operation) (n : ℕ)
    → length mem ≡ n
    → 0 < n
    → n < u32_mod
    → IsValid (create_opr_queue mem n)
unfolding create_opr_queue
create_opr_queue-IsValid mem n e p h = ground arith

-- What `opr_queue_put_entry` does to a valid queue, without the words' wrap.
abbrev pub put : OprQueue → Operation → OprQueue
put q o = record q {
  opr_list = set q.opr_list q.queue_head o;
  queue_head = march q.num_max_entries q.queue_head;
  num_entries = suc q.num_entries;
}

pub opr_queue_put_entry_full :
    (q : OprQueue) (op : DevOp) (b : Option ℕ)
    → q.num_entries ≡ q.num_max_entries
    → opr_queue_put_entry q op b ≡ (error, q)
unfolding opr_queue_put_entry
opr_queue_put_entry_full q op b e = ground arith

pub opr_queue_put_entry_room :
    {q : OprQueue} (op : DevOp) (b : Option ℕ)
    → IsValid q
    → q.num_entries < q.num_max_entries
    → opr_queue_put_entry q op b ≡ (success, put q (record { operation = op; ptr_fb_bio = b }))
unfolding opr_queue_put_entry
opr_queue_put_entry_room {q} op b v h = ground arith

pub put-IsValid :
    {q : OprQueue} (o : Operation)
    → IsValid q
    → q.num_entries < q.num_max_entries
    → IsValid (put q o)
put-IsValid {q} o v h = record {
  storage = length-set q.opr_list q.queue_head o ∙ v.storage;
  small = v.small;
  tail_in = v.tail_in;
  entries_in = h;
  head_at =
      ap (march q.num_max_entries) v.head_at
      ∙ march-marches q.num_max_entries q.queue_tail q.num_entries;
}

-- A put keeps the invariant, whether it succeeds or not.
pub opr_queue_put_entry-IsValid :
    {q : OprQueue} (op : DevOp) (b : Option ℕ) → IsValid q → IsValid (opr_queue_put_entry q op b).1
opr_queue_put_entry-IsValid {q} op b v = elim (ℕ_discrete q.num_entries q.num_max_entries) [
  | yes e ↦ rw (opr_queue_put_entry_full q op b e) v
  | no ne ↦ rw (opr_queue_put_entry_room op b v (omega arith)) (put-IsValid _ v (omega arith))
]

abbrev pub removed : OprQueue → OprQueue
removed q = record q {
  queue_tail = march q.num_max_entries q.queue_tail;
  num_entries = q.num_entries - 1;
}

pub opr_queue_remove_first_empty :
    (q : OprQueue) → q.num_entries ≡ 0 → opr_queue_remove_first q ≡ (error, q)
unfolding opr_queue_remove_first
opr_queue_remove_first_empty q e = ground arith

pub opr_queue_remove_first_some :
    {q : OprQueue} → IsValid q → 0 < q.num_entries → opr_queue_remove_first q ≡ (success, removed q)
unfolding opr_queue_remove_first
opr_queue_remove_first_some {q} v h = ground arith

pub removed-IsValid : {q : OprQueue} → IsValid q → 0 < q.num_entries → IsValid (removed q)
removed-IsValid {q} v h = record {
  storage = v.storage;
  small = v.small;
  tail_in = march-lt q.num_max_entries q.queue_tail v.small v.tail_in;
  entries_in = omega arith;
  head_at = v.head_at ∙ ap (marches q.num_max_entries q.queue_tail) one_more;
}
  where
    one_more : q.num_entries ≡ suc (q.num_entries - 1)
    one_more = omega arith

-- A removal keeps the invariant, whether it succeeds or not.
pub opr_queue_remove_first-IsValid :
    {q : OprQueue} → IsValid q → IsValid (opr_queue_remove_first q).1
opr_queue_remove_first-IsValid {q} v = elim (ℕ_discrete q.num_entries 0) [
  | yes e ↦ rw (opr_queue_remove_first_empty q e) v
  | no ne ↦ rw (opr_queue_remove_first_some v (omega arith)) (removed-IsValid v (omega arith))
]
