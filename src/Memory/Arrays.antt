-- ===== src/Memory/Arrays.antt =====
-- Arrays of pointers: what a loop that sets their cells holds, and what the loops that destroy the
-- cells free.
use flashbench.Common.{
  ℕ, zero, suc, ◌≡◌, refl, sym, ap, subst, ◌∙◌, Bool, true, false, Option, List, [], ◌∷◌, ◌++◌,
  arith, length, length-replicate,
}
use flashbench.Common.Counts.{count-append}
use flashbench.Memory.{Mem, Ptr, unset, null, to, fill, on_filled, until_null, each}
use flashbench.Memory.Holds.{
  Holds, Holds-refl, Holds-trans, Holds-same, Created, Created-elim, free_all, free_all-append,
  free_all-Holds,
}

module _ {ℓ} {A : Type ℓ} (Good : A → Type 0) where
  -- No cell that was never set stands before the first null, and what the others point to is good.
  abbrev pub AreSet : List (Ptr A) → Type 0
  AreSet [] = Unit
  AreSet (unset ∷ cells) = ⊥
  AreSet (null ∷ cells) = Unit
  AreSet (to a ∷ cells) = Good a × AreSet cells

  -- All cells point to something good.
  abbrev pub IsFull : List (Ptr A) → Type 0
  IsFull [] = Unit
  IsFull (unset ∷ cells) = ⊥
  IsFull (null ∷ cells) = ⊥
  IsFull (to a ∷ cells) = Good a × IsFull cells

  pub IsFull-AreSet : (cells : List (Ptr A)) → IsFull cells → AreSet cells
  IsFull-AreSet [] f = f
  IsFull-AreSet (to a ∷ cells) f = (f.0, IsFull-AreSet cells f.1)
  IsFull-AreSet (unset ∷ cells) f = f
  IsFull-AreSet (null ∷ cells) f = absurd f

-- What belongs to the cells up to the first null.
abbrev pub owned_by {ℓ} : {A : Type ℓ} → (A → List ℕ) → List (Ptr A) → List ℕ
owned_by owned [] = []
owned_by owned (unset ∷ cells) = []
owned_by owned (null ∷ cells) = []
owned_by owned (to a ∷ cells) = owned a ++ owned_by owned cells

-- `destroy` frees what belongs to its argument, and nothing else.
abbrev pub Frees {ℓ} : {A : Type ℓ} → (A → Type 0) → (A → List ℕ) → (A → Mem → Mem) → Type ℓ
Frees {A = A} Good owned destroy = (a : A) (m : Mem) → Good a → destroy a m ≡ free_all (owned a) m

module _ {ℓ} {A : Type ℓ} (Good : A → Type 0) (owned : A → List ℕ) {destroy : A → Mem → Mem}
    (frees : Frees Good owned destroy) where
  until_null-free_all :
      (cells : List (Ptr A)) (m : Mem)
      → AreSet Good cells
      → until_null destroy cells m ≡ free_all (owned_by owned cells) m
  unfolding until_null free_all
  until_null-free_all [] m s = refl
  until_null-free_all (unset ∷ cells) m s = absurd s
  until_null-free_all (null ∷ cells) m s = refl
  until_null-free_all (to a ∷ cells) m s =
      until_null-free_all cells (destroy a m) s.1
      ∙ ap (free_all (owned_by owned cells)) (frees a m s.0)
      ∙ sym (free_all-append (owned a) (owned_by owned cells) m)

  each-free_all :
      (cells : List (Ptr A)) (m : Mem)
      → IsFull Good cells
      → each destroy cells m ≡ free_all (owned_by owned cells) m
  unfolding each free_all
  each-free_all [] m s = refl
  each-free_all (unset ∷ cells) m s = absurd s
  each-free_all (null ∷ cells) m s = absurd s
  each-free_all (to a ∷ cells) m s =
      each-free_all cells (destroy a m) s.1
      ∙ ap (free_all (owned_by owned cells)) (frees a m s.0)
      ∙ sym (free_all-append (owned a) (owned_by owned cells) m)

  -- Such a loop gives back what belongs to the cells.
  pub until_null-Holds :
      {m m' : Mem} {rest : List ℕ} (cells : List (Ptr A))
      → AreSet Good cells
      → Holds m m' (owned_by owned cells ++ rest)
      → Holds m (until_null destroy cells m') rest
  until_null-Holds {m} {m'} {rest} cells s h =
      subst (λ (x : Mem). Holds m x rest) (sym (until_null-free_all cells m' s))
        (free_all-Holds (owned_by owned cells) h)

  pub each-Holds :
      {m m' : Mem} {rest : List ℕ} (cells : List (Ptr A))
      → IsFull Good cells
      → Holds m m' (owned_by owned cells ++ rest)
      → Holds m (each destroy cells m') rest
  each-Holds {m} {m'} {rest} cells s h =
      subst (λ (x : Mem). Holds m x rest) (sym (each-free_all cells m' s))
        (free_all-Holds (owned_by owned cells) h)

  -- The loop with a list of frees behind it, as one list of frees.
  pub until_null-tail :
      (cells : List (Ptr A)) (l : List ℕ) (m : Mem)
      → AreSet Good cells
      → free_all l (until_null destroy cells m) ≡ free_all (owned_by owned cells ++ l) m
  until_null-tail cells l m s =
      ap (free_all l) (until_null-free_all cells m s)
      ∙ sym (free_all-append (owned_by owned cells) l m)

  pub each-tail :
      (cells : List (Ptr A)) (l : List ℕ) (m : Mem)
      → IsFull Good cells
      → free_all l (each destroy cells m) ≡ free_all (owned_by owned cells ++ l) m
  each-tail cells l m s =
      ap (free_all l) (each-free_all cells m s) ∙ sym (free_all-append (owned_by owned cells) l m)

-- What `fill` leaves.
pub record Filled {ℓ} {A : Type ℓ} (Good : A → Type 0) (owned : A → List ℕ) (n : ℕ) (m : Mem)
    (r : Bool × List (Ptr A) × Mem) : Type ℓ where
  pub holds : Holds m r.2 (owned_by owned r.1)
  pub set : AreSet Good r.1
  pub size : length r.1 ≡ n
  pub full : r.0 ≡ true → IsFull Good r.1

pub fill-Filled {ℓ} :
    {A : Type ℓ} {Good : A → Type 0} (owned : A → List ℕ) (create : Mem → Option A × Mem)
    → ((m : Mem) → Created Good owned m (create m))
    → (n : ℕ) (m : Mem) → Filled Good owned n m (fill create n m)
unfolding fill
fill-Filled owned create created zero m = record {
  holds = Holds-refl m;
  set = tt;
  size = refl;
  full = λ e. tt;
}
fill-Filled {Good = Good} owned create created (suc n) m =
    Created-elim owned (Filled Good owned (suc n) m) (create m) (created m)
      (λ m' h. record {
        holds = h;
        set = tt;
        size = ap suc (length-replicate n unset);
        full = λ e. absurd (cc);
      })
      (λ a m' good h.
        let rest = fill-Filled owned create created n m' in
        record {
          holds = Holds-trans h rest.holds;
          set = (good, rest.set);
          size = ap suc rest.size;
          full = λ e. (good, rest.full e);
        })

-- A loop that makes the cells, behind what is held so far.
pub fill-elim {ℓ κ κ'} :
    {A : Type ℓ} {R : Type κ} {Good : A → Type 0} (owned : A → List ℕ)
    (create : Mem → Option A × Mem)
    → ((m : Mem) → Created Good owned m (create m))
    → (P : R → Type κ') (n : ℕ) {m m' : Mem} {l : List ℕ} {fail ok : List (Ptr A) → Mem → R}
    → Holds m m' l
    → ((cells : List (Ptr A)) (m'' : Mem)
        → Holds m m'' (owned_by owned cells ++ l)
        → AreSet Good cells
        → P (fail cells m''))
    → ((cells : List (Ptr A)) (m'' : Mem)
        → Holds m m'' (owned_by owned cells ++ l)
        → IsFull Good cells
        → length cells ≡ n
        → P (ok cells m''))
    → P (on_filled (fill create n m') fail ok)
fill-elim {A = A} {Good = Good} owned create created P n {m} {m'} {l} {fail} {ok} h lose win =
    go (fill create n m') (fill-Filled owned create created n m')
  where
    swap :
        (cells : List (Ptr A)) (m'' : Mem)
        → Holds m' m'' (owned_by owned cells)
        → Holds m m'' (owned_by owned cells ++ l)
    swap cells m'' k =
        Holds-same
          (λ q. omega (
            arith,
            count-append q l (owned_by owned cells),
            count-append q (owned_by owned cells) l,
          ))
          (Holds-trans h k)

    go : (r : Bool × List (Ptr A) × Mem) → Filled Good owned n m' r → P (on_filled r fail ok)
    go (false, cells, m'') f = lose cells m'' (swap cells m'' f.holds) f.set
    go (true, cells, m'') f = win cells m'' (swap cells m'' f.holds) (f.full refl) f.size
