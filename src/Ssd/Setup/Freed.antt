-- ===== src/Ssd/Setup/Freed.antt =====
-- The allocations of the device's description, and what destroying it frees.
use flashbench.Common.{
  ℕ, zero, suc, ◌≡◌, refl, subst, Bool, true, false, Option, none, some, List, [], ◌∷◌, ◌++◌, arith,
}
use flashbench.Common.Counts.{count, count-append}
use flashbench.Config.{num_buses, num_chips_per_bus, num_blocks_per_chip}
use flashbench.Memory.{Mem, Ptr, to, kmalloc, kfree, on_filled, each}
use flashbench.Memory.Holds.{
  Holds, Holds-refl, Holds-same, Any, single, kmalloc-elim, kmalloc-Created, kfree-Holds, free_all,
  kfree-bad,
}
use flashbench.Memory.Arrays.{IsFull, owned_by, Frees, each-Holds, each-tail, fill-elim}
use flashbench.Ut.{Ut}
use flashbench.Ssd.{SsdInfo, FlashPage}
use flashbench.Ssd.Setup.{
  BlocksObj, ChipsObj, SsdObj, alloc_chips, alloc_buses, free_blocks, free_chips, free_infos,
  create_ssd_info, destroy_ssd_info,
}

abbrev owned_by_blocks : BlocksObj → List ℕ
owned_by_blocks c = owned_by single c.list_pages_at ++ c.list_blocks_at ∷ []

abbrev owned_by_chips : ChipsObj → List ℕ
owned_by_chips c = owned_by owned_by_blocks c.list_blocks ++ c.list_chips_at ∷ []

abbrev AllPages : BlocksObj → Type 0
AllPages c = IsFull (Any {A = ℕ}) c.list_pages_at

abbrev AllBlocks : ChipsObj → Type 0
AllBlocks c = IsFull AllPages c.list_blocks

kfree-Frees : Frees Any single kfree
unfolding free_all
kfree-Frees p m a = refl

free_blocks-Frees : Frees AllPages owned_by_blocks free_blocks
unfolding free_blocks free_all
free_blocks-Frees c m full =
    each-tail Any single kfree-Frees c.list_pages_at (c.list_blocks_at ∷ []) m full

free_chips-Frees : Frees AllBlocks owned_by_chips free_chips
unfolding free_chips free_all
free_chips-Frees c m full =
    each-tail AllPages owned_by_blocks free_blocks-Frees c.list_blocks (c.list_chips_at ∷ []) m full

-- What a loop that got through holds, on top of `l`.
abbrev Full {ℓ} :
    {A : Type ℓ} → (A → Type 0) → (A → List ℕ) → Mem → List ℕ → Bool × List (Ptr A) × Mem → Type 0
Full Good owned m l (false, cells, m') = Unit
Full Good owned m l (true, cells, m') = Holds m m' (owned_by owned cells ++ l) × IsFull Good cells

-- One more cell in front.
Full-cons {ℓ} :
    {A : Type ℓ} (Good : A → Type 0) (owned : A → List ℕ) (m : Mem) (l : List ℕ) (a : A)
    (r : Bool × List (Ptr A) × Mem)
    → Good a
    → Full Good owned m (owned a ++ l) r
    → Full Good owned m l (r.0, to a ∷ r.1, r.2)
Full-cons Good owned m l a (false, cells, m') g f = tt
Full-cons Good owned m l a (true, cells, m') g f = (
  Holds-same
      (λ q. omega (
        arith,
        count-append q (owned_by owned cells) (owned a ++ l),
        count-append q (owned a) l,
        count-append q (owned a ++ owned_by owned cells) l,
        count-append q (owned a) (owned_by owned cells),
      ))
      f.0,
  (g, f.1),
)

-- What stands behind a loop that got through.
Full-elim {ℓ κ κ'} :
    {A : Type ℓ} {R : Type κ} (Good : A → Type 0) (owned : A → List ℕ) (P : R → Type κ') {m : Mem}
    {l : List ℕ} (r : Bool × List (Ptr A) × Mem) {fail ok : List (Ptr A) → Mem → R}
    → Full Good owned m l r
    → ((cells : List (Ptr A)) (m' : Mem) → P (fail cells m'))
    → ((cells : List (Ptr A)) (m' : Mem)
        → Holds m m' (owned_by owned cells ++ l)
        → IsFull Good cells
        → P (ok cells m'))
    → P (on_filled r fail ok)
Full-elim Good owned P (false, cells, m') f lose win = lose cells m'
Full-elim Good owned P (true, cells, m') f lose win = win cells m' f.0 f.1

-- The addresses in another grouping.
regroup : (l l' : List ℕ) (a q : ℕ) → count q (l ++ a ∷ l') ≡ count q ((l ++ a ∷ []) ++ l')
regroup l l' a q =
    omega
      (arith, count-append q l (a ∷ l'), count-append q (l ++ a ∷ []) l', count-append q l (a ∷ []))

alloc_chips-Full :
    (n : ℕ) {m m' : Mem} {l : List ℕ}
    → Holds m m' l
    → Full AllPages owned_by_blocks m l (alloc_chips n m')
unfolding alloc_chips
alloc_chips-Full zero h = (h, tt)
alloc_chips-Full (suc n) {m} {m'} {l} h =
    kmalloc-elim (Full AllPages owned_by_blocks m l) h (λ m2 h2. tt)
      (λ a m2 h2.
        fill-elim single kmalloc kmalloc-Created (Full AllPages owned_by_blocks m l)
          num_blocks_per_chip h2 (λ pages m3 h3 s. tt)
          (λ pages m3 h3 f size.
            Full-cons AllPages owned_by_blocks m l
              (record { list_blocks_at = a; list_pages_at = pages }) (alloc_chips n m3) f
              (alloc_chips-Full n (Holds-same (regroup (owned_by single pages) l a) h3))))

alloc_buses-Full :
    (n : ℕ) {m m' : Mem} {l : List ℕ}
    → Holds m m' l
    → Full AllBlocks owned_by_chips m l (alloc_buses n m')
unfolding alloc_buses
alloc_buses-Full zero h = (h, tt)
alloc_buses-Full (suc n) {m} {m'} {l} h =
    kmalloc-elim (Full AllBlocks owned_by_chips m l) h (λ m2 h2. tt)
      (λ a m2 h2.
        Full-elim AllPages owned_by_blocks (Full AllBlocks owned_by_chips m l)
          (alloc_chips num_chips_per_bus m2) (alloc_chips-Full num_chips_per_bus h2)
          (λ chips m3. tt)
          (λ chips m3 h3 f.
            Full-cons AllBlocks owned_by_chips m l
              (record { list_chips_at = a; list_blocks = chips }) (alloc_buses n m3) f
              (alloc_buses-Full n (Holds-same (regroup (owned_by owned_by_blocks chips) l a) h3))))

module _ (ut : Ut) (junk : ℕ → FlashPage) (wild : SsdInfo) where
  -- A description that was made can be freed.
  abbrev Freed : Mem → Option SsdObj × Mem → Type 0
  Freed m (none, m') = Unit
  Freed m (some o, m') = Holds m (destroy_ssd_info o m') []

  create_ssd_info-Freed : (m : Mem) → Freed m (create_ssd_info ut junk wild m)
  unfolding create_ssd_info destroy_ssd_info free_infos
  create_ssd_info-Freed m =
      kmalloc-elim (Freed m) (Holds-refl m) (λ m1 h. tt)
        (λ p m1 h1.
          kmalloc-elim (Freed m) h1 (λ m2 h. tt)
            (λ a m2 h2.
              Full-elim AllBlocks owned_by_chips (Freed m) (alloc_buses num_buses m2)
                (alloc_buses-Full num_buses h2) (λ buses m3. tt)
                (λ buses m3 h3 f. kfree-Holds p (
                  kfree-Holds a
                    (each-Holds AllBlocks owned_by_chips free_chips-Frees buses f h3)))))

  -- If `create_ssd_info` makes a description, `destroy_ssd_info` frees all that the making has
  -- allocated, and nothing else.
  pub create_ssd_info-destroy_ssd_info :
      (m m' : Mem) (o : SsdObj)
      → create_ssd_info ut junk wild m ≡ (some o, m')
      → Holds m (destroy_ssd_info o m') []
  create_ssd_info-destroy_ssd_info m m' o e = subst (Freed m) e (create_ssd_info-Freed m)

  -- If the array of the first chip's blocks is refused, `create_ssd_info` answers null, and its error
  -- path has used a pointer of the second chip that was never set.
  pub create_ssd_info_bad :
      (m m1 m2 m3 m4 : Mem) (p a c : ℕ)
      → kmalloc m ≡ (some p, m1)
      → kmalloc m1 ≡ (some a, m2)
      → kmalloc m2 ≡ (some c, m3)
      → kmalloc m3 ≡ (none, m4)
      → ((create_ssd_info ut junk wild m).0 ≡ none)
        × ((create_ssd_info ut junk wild m).1.bad ≡ true)
  unfolding create_ssd_info alloc_buses alloc_chips free_infos free_chips free_blocks each
  create_ssd_info_bad m m1 m2 m3 m4 p a c e e1 e2 e3 =
      rw (e, e1, e2, e3) (refl, kfree-bad p _ (kfree-bad a _ (kfree-bad c _ refl)))
