-- ===== src/Mapping/Deletions/Wild.antt =====
-- The error path of `create_del_mngr` and the pointers that it reads.
use flashbench.Common.{ℕ, ◌≡◌, true, Option, none, some, refl}
use flashbench.Memory.{Mem, Ptr, unset, null, to, kmalloc}
use flashbench.Memory.Holds.{kfree-bad, free_if-bad, on_result-elim}
use flashbench.Mapping.Deletions.{
  DelmObj, wild_delm, set_btod, set_wtod, set_ppas, set_lpas_to_copy, set_data_to_copy, clear_head,
  init_delm, destroy_del_mngr, alloc_field, finish, from_data_to_copy, from_lpas_to_copy, from_ppas,
  from_wtod, from_btod, create_del_mngr,
}

-- If there is no manager something bad has happened.
abbrev IsBad : Option DelmObj × Mem → Type 0
IsBad (none, m) = m.bad ≡ true
IsBad (some delm, m) = Unit

module _ (hash_clear : ℕ → Mem → Mem) where
  clear_head-bad :
      (head : Ptr ℕ) (m : Mem) → head ≡ unset → (clear_head hash_clear head m).bad ≡ true
  unfolding clear_head
  clear_head-bad unset m e = refl
  clear_head-bad null m e = absurd (cc)
  clear_head-bad (to t) m e = absurd (cc)

  destroy_del_mngr-bad :
      (delm : DelmObj) (m : Mem)
      → delm.hash_wtod ≡ unset
      → (destroy_del_mngr hash_clear (to delm) m).bad ≡ true
  unfolding destroy_del_mngr
  destroy_del_mngr-bad delm m e = kfree-bad delm.self _ (
      free_if-bad delm.data_to_copy _ (
        free_if-bad delm.lpas_to_copy _
          (free_if-bad delm.wtod _ (free_if-bad delm.btod _ (clear_head-bad delm.hash_wtod _ e)))))

  alloc_field-IsBad :
      (set : Ptr ℕ → DelmObj) (m : Mem) (next : DelmObj → Mem → Option DelmObj × Mem)
      → (set null).hash_wtod ≡ unset
      → ((p : ℕ) (m' : Mem) → IsBad (next (set (to p)) m'))
      → IsBad (alloc_field hash_clear set m next)
  unfolding alloc_field
  alloc_field-IsBad set m next e f =
      on_result-elim IsBad (kmalloc m) (λ m'. destroy_del_mngr-bad (set null) m' e) f

  from_data_to_copy-IsBad :
      (delm : DelmObj) (m : Mem)
      → delm.hash_wtod ≡ unset
      → IsBad (from_data_to_copy hash_clear delm m)
  unfolding from_data_to_copy finish init_delm
  from_data_to_copy-IsBad delm m e =
      alloc_field-IsBad (set_data_to_copy delm) m (finish hash_clear) e (λ a m'. tt)

  from_lpas_to_copy-IsBad :
      (delm : DelmObj) (m : Mem)
      → delm.hash_wtod ≡ unset
      → IsBad (from_lpas_to_copy hash_clear delm m)
  unfolding from_lpas_to_copy
  from_lpas_to_copy-IsBad delm m e =
      alloc_field-IsBad (set_lpas_to_copy delm) m (from_data_to_copy hash_clear) e
        (λ a m'. from_data_to_copy-IsBad (set_lpas_to_copy delm (to a)) m' e)

  from_ppas-IsBad :
      (delm : DelmObj) (m : Mem) → delm.hash_wtod ≡ unset → IsBad (from_ppas hash_clear delm m)
  unfolding from_ppas
  from_ppas-IsBad delm m e =
      alloc_field-IsBad (set_ppas delm) m (from_lpas_to_copy hash_clear) e
        (λ a m'. from_lpas_to_copy-IsBad (set_ppas delm (to a)) m' e)

  from_wtod-IsBad :
      (delm : DelmObj) (m : Mem) → delm.hash_wtod ≡ unset → IsBad (from_wtod hash_clear delm m)
  unfolding from_wtod
  from_wtod-IsBad delm m e =
      alloc_field-IsBad (set_wtod delm) m (from_ppas hash_clear) e
        (λ a m'. from_ppas-IsBad (set_wtod delm (to a)) m' e)

  from_btod-IsBad :
      (delm : DelmObj) (m : Mem) → delm.hash_wtod ≡ unset → IsBad (from_btod hash_clear delm m)
  unfolding from_btod
  from_btod-IsBad delm m e =
      alloc_field-IsBad (set_btod delm) m (from_wtod hash_clear) e
        (λ a m'. from_wtod-IsBad (set_btod delm (to a)) m' e)

  create_del_mngr-IsBad :
      (m : Mem) (p : ℕ) (m1 : Mem) → kmalloc m ≡ (some p, m1) → IsBad (create_del_mngr hash_clear m)
  unfolding create_del_mngr
  create_del_mngr-IsBad m p m1 e = rw (e) (from_btod-IsBad (wild_delm p) m1 refl)

  -- If the manager itself is allocated but one of its fields is not, `create_del_mngr` uses a pointer
  -- that was never set.
  pub create_del_mngr_bad :
      (m : Mem) (p : ℕ) (m1 : Mem)
      → kmalloc m ≡ (some p, m1)
      → (create_del_mngr hash_clear m).0 ≡ none
      → (create_del_mngr hash_clear m).1.bad ≡ true
  create_del_mngr_bad m p m1 e e' =
      go (create_del_mngr hash_clear m) (create_del_mngr-IsBad m p m1 e) e'
    where
      go : (r : Option DelmObj × Mem) → IsBad r → r.0 ≡ none → r.1.bad ≡ true
      go (none, m') b f = b
      go (some delm, m') b f = absurd (cc)
