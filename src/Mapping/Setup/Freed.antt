-- ===== src/Mapping/Setup/Freed.antt =====
-- What making and destroying the table and the managers allocates and frees.
use flashbench.Common.{ℕ, Option, none, Bool-cases, inl, inr}
use flashbench.Memory.{Mem, to, free_if}
use flashbench.Memory.Holds.{Holds-refl, Leaves, nothing, kmalloc-elim, kfree-Holds}
use flashbench.Ut.{Ut}
use flashbench.Ssd.{SsdInfo}
use flashbench.Mapping.Setup.{
  MtObj, AbmObj, destroy_mapping_table, create_page_mapping_table, destroy_act_blk_mngr,
  take_act_blks, chips_in_order, create_act_blk_mngr,
}

-- Making the mapping table and destroying it leaves nothing allocated, whether an allocation fails or
-- not.
pub create_page_mapping_table-destroy_mapping_table :
    (junk : ℕ → ℕ) (m : Mem)
    → Leaves nothing (λ mt. destroy_mapping_table (to mt)) m (create_page_mapping_table junk m)
unfolding create_page_mapping_table destroy_mapping_table free_if
create_page_mapping_table-destroy_mapping_table junk m =
    kmalloc-elim P (Holds-refl m) (λ m1 h. h)
      (λ p m1 h1.
        kmalloc-elim P h1 (λ m2 h. kfree-Holds p h) (λ a m2 h. kfree-Holds p (kfree-Holds a h)))
  where
    P : Option MtObj × Mem → Type 0
    P = Leaves nothing (λ mt. destroy_mapping_table (to mt)) m

-- Making the manager of the active blocks and destroying it leaves nothing allocated, whether an
-- allocation fails, a chip has no free block, or all goes well.
pub create_act_blk_mngr-destroy_act_blk_mngr :
    (ut : Ut) (s : SsdInfo) (m : Mem)
    → Leaves nothing (λ abm. destroy_act_blk_mngr (to abm)) m (create_act_blk_mngr ut s m).0
unfolding create_act_blk_mngr destroy_act_blk_mngr free_if
create_act_blk_mngr-destroy_act_blk_mngr ut s m =
    kmalloc-elim P (Holds-refl m) (λ m1 h. h)
      (λ p m1 h1.
        kmalloc-elim P h1 (λ m2 h. kfree-Holds p h)
          (λ a m2 h. elim (Bool-cases (take_act_blks ut chips_in_order (λ i. none) s).0) [
            | inl e ↦ rw (e) (kfree-Holds p (kfree-Holds a h))
            | inr e ↦ rw (e) (kfree-Holds p (kfree-Holds a h))
          ]))
  where
    P : (Option AbmObj × Mem) × SsdInfo → Type 0
    P r = Leaves nothing (λ abm. destroy_act_blk_mngr (to abm)) m r.0
