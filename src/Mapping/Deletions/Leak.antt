-- ===== src/Mapping/Deletions/Leak.antt =====
-- The allocations of the manager of deletions and what `destroy_del_mngr` frees of them.
use flashbench.Common.{ℕ, ◌≡◌, subst, Option, none, some, arith}
use flashbench.Memory.{Mem, to, free_if}
use flashbench.Memory.Holds.{
  Holds-same, Holds, Holds-refl, Holds-same, kmalloc-elim, kfree-Holds, at_ptr,
}
use flashbench.Mapping.Deletions.{
  DelmObj, destroy_del_mngr, alloc_field, init_delm, clear_head, create_del_mngr, from_btod,
  from_wtod, from_ppas, from_lpas_to_copy, from_data_to_copy, finish,
}

module _ (hash_clear : ℕ → Mem → Mem) where
  -- A manager that could be made leaves its array of addresses behind.
  abbrev LeavesPpas : Mem → Option DelmObj × Mem → Type 0
  LeavesPpas m (none, m') = Unit
  LeavesPpas m (some delm, m') =
      Holds m (destroy_del_mngr hash_clear (to delm) m') (at_ptr delm.ppas)

  create_del_mngr-LeavesPpas : (m : Mem) → LeavesPpas m (create_del_mngr hash_clear m)
  unfolding create_del_mngr from_btod from_wtod from_ppas from_lpas_to_copy from_data_to_copy finish
      alloc_field init_delm destroy_del_mngr clear_head free_if
  create_del_mngr-LeavesPpas m =
      kmalloc-elim (LeavesPpas m) (Holds-refl m) (λ m1 h. tt)
        (λ p m1 h.
          kmalloc-elim (LeavesPpas m) h (λ m2 h. tt)
            (λ btod m2 h.
              kmalloc-elim (LeavesPpas m) h (λ m3 h. tt)
                (λ wtod m3 h.
                  kmalloc-elim (LeavesPpas m) h (λ m4 h. tt)
                    (λ ppas m4 h.
                      kmalloc-elim (LeavesPpas m) h (λ m5 h. tt)
                        (λ lpas m5 h.
                          kmalloc-elim (LeavesPpas m) h (λ m6 h. tt)
                            (λ pages m6 h. kfree-Holds p (
                              kfree-Holds pages (
                                kfree-Holds lpas (
                                  kfree-Holds wtod
                                    (kfree-Holds btod (Holds-same (λ q. omega arith) h)))))))))))

  -- If `create_del_mngr` makes a manager, destroying it leaves allocated exactly the array `ppas` of
  -- what the making has allocated, and frees nothing that is not allocated.
  pub create_del_mngr-destroy_del_mngr :
      (m m' : Mem) (delm : DelmObj)
      → create_del_mngr hash_clear m ≡ (some delm, m')
      → Holds m (destroy_del_mngr hash_clear (to delm) m') (at_ptr delm.ppas)
  create_del_mngr-destroy_del_mngr m m' delm e =
      subst (LeavesPpas m) e (create_del_mngr-LeavesPpas m)
