-- ===== src/Bus/Setup/Balance.antt =====
-- The allocations of `create_bus_controller`, its error paths and `destroy_bus_controller`.
use flashbench.Common.{ℕ, refl, List, [], ◌∷◌, ◌++◌}
use flashbench.Config.{num_chips_per_bus}
use flashbench.Memory.{Mem, Ptr, kfree}
use flashbench.Memory.Holds.{Holds, Holds-refl, Created, Any, kmalloc-elim, kfree-Holds, free_all}
use flashbench.Memory.Arrays.{
  AreSet, IsFull, IsFull-AreSet, owned_by, Frees, until_null-Holds, until_null-tail, fill-elim,
}
use flashbench.Bus.Queue.{Operation}
use flashbench.Bus.Setup.{
  OprQueueObj, BusCtrlObj, alloc_opr_queue, destroy_opr_queue, drop_controller,
  create_bus_controller, destroy_bus_controller,
}

abbrev pub owned_by_queue : OprQueueObj → List ℕ
owned_by_queue o = o.opr_list_at ∷ o.self ∷ []

abbrev pub owned_by_controller : BusCtrlObj → List ℕ
owned_by_controller c =
    c.chip_busies_at ∷ owned_by owned_by_queue c.opr_queues ++ c.opr_queues_at ∷ c.self ∷ []

module _ (junk : ℕ → List Operation) where
  alloc_opr_queue-Created :
      (n : ℕ) (m : Mem) → Created Any owned_by_queue m (alloc_opr_queue junk n m)
  unfolding alloc_opr_queue
  alloc_opr_queue-Created n m =
      kmalloc-elim (Created Any owned_by_queue m) (Holds-refl m) (λ m' h. h)
        (λ q m' h.
          kmalloc-elim (Created Any owned_by_queue m) h (λ m'' k. kfree-Holds q k)
            (λ l m'' k. (tt, k)))

  destroy_opr_queue-Frees : Frees Any owned_by_queue (destroy_opr_queue junk)
  unfolding destroy_opr_queue free_all
  destroy_opr_queue-Frees o m _ = refl

  -- The error path of a controller frees what was made of it.
  drop_controller-Holds :
      {m m' : Mem} (c a : ℕ) (cells : List (Ptr OprQueueObj))
      → AreSet Any cells
      → Holds m m' (owned_by owned_by_queue cells ++ a ∷ c ∷ [])
      → Holds m (drop_controller junk c a cells m') []
  unfolding drop_controller
  drop_controller-Holds c a cells s h =
      kfree-Holds c
        (kfree-Holds a (until_null-Holds Any owned_by_queue destroy_opr_queue-Frees cells s h))

  -- The cells of a controller are set.
  abbrev pub IsMade : BusCtrlObj → Type 0
  IsMade c = IsFull (Any {A = OprQueueObj}) c.opr_queues

  -- `create_bus_controller` answers a controller with exactly its own memory, or, wherever it fails,
  -- null with nothing left allocated; and nothing is freed that is not allocated.
  pub create_bus_controller-Created :
      (n : ℕ) (m : Mem) → Created IsMade owned_by_controller m (create_bus_controller junk n m)
  unfolding create_bus_controller
  create_bus_controller-Created n m =
      kmalloc-elim (Created IsMade owned_by_controller m) (Holds-refl m) (λ m1 h. h)
        (λ c m1 h1.
          kmalloc-elim (Created IsMade owned_by_controller m) h1 (λ m2 h. kfree-Holds c h)
            (λ a m2 h2.
              fill-elim owned_by_queue (alloc_opr_queue junk n) (alloc_opr_queue-Created n)
                (Created IsMade owned_by_controller m) num_chips_per_bus h2
                (λ cells m3 h s. drop_controller-Holds c a cells s h)
                (λ cells m3 h3 f size.
                  kmalloc-elim (Created IsMade owned_by_controller m) h3
                    (λ m4 h. drop_controller-Holds c a cells (IsFull-AreSet Any cells f) h)
                    (λ b m4 h. (f, h)))))

  pub destroy_bus_controller-Frees : Frees IsMade owned_by_controller (destroy_bus_controller junk)
  unfolding destroy_bus_controller free_all
  destroy_bus_controller-Frees c m made =
      until_null-tail Any owned_by_queue destroy_opr_queue-Frees c.opr_queues
        (c.opr_queues_at ∷ c.self ∷ []) (kfree c.chip_busies_at m)
        (IsFull-AreSet Any c.opr_queues made)
