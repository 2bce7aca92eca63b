-- ===== src/Memory/Holds.antt =====
-- What a run has allocated and not freed, as a list of addresses.
use flashbench.Common.{
  ℕ, ◌+◌, ◌≡◌, refl, sym, subst, ◌∙◌, true, Option, none, some, List, [], ◌∷◌, ◌++◌, arith, inl,
  inr, Option-cases,
}
use flashbench.Common.Counts.{count, same_self, count-append}
use flashbench.Memory.{Mem, Ptr, unset, null, to, free_if, kmalloc, kfree, on_result}

-- `m'` has `l` allocated more than `m`, and nothing bad has happened in between.
pub record Holds (m m' : Mem) (l : List ℕ) : Type 0 where
  pub more : (q : ℕ) → m'.live q ≡ m.live q + count q l
  pub clean : m'.bad ≡ m.bad

pub Holds-refl : (m : Mem) → Holds m m []
Holds-refl m = record { more = λ q. omega arith; clean = refl }

pub Holds-trans :
    {m m' m'' : Mem} {l l' : List ℕ} → Holds m m' l → Holds m' m'' l' → Holds m m'' (l ++ l')
Holds-trans {l = l} {l' = l'} h k = record {
  more = λ q. omega (arith, h.more q, k.more q, count-append q l l');
  clean = k.clean ∙ h.clean;
}

-- The order in the list does not matter.
pub Holds-same :
    {m m' : Mem} {l l' : List ℕ} → ((q : ℕ) → count q l ≡ count q l') → Holds m m' l → Holds m m' l'
Holds-same e h = record { more = λ q. omega (arith, h.more q, e q); clean = h.clean }

-- Frees one after another.
unfoldable pub free_all : List ℕ → Mem → Mem
free_all [] m = m
free_all (p ∷ l) m = free_all l (kfree p m)

pub free_all-append : (l l' : List ℕ) (m : Mem) → free_all (l ++ l') m ≡ free_all l' (free_all l m)
unfolding free_all
free_all-append [] l' m = refl
free_all-append (p ∷ l) l' m = free_all-append l l' (kfree p m)

pub kfree-Holds : {m m' : Mem} (p : ℕ) {l : List ℕ} → Holds m m' (p ∷ l) → Holds m (kfree p m') l
unfolding kfree
kfree-Holds {m} {m'} p {l} h = record {
  more = λ q. omega (arith, h.more q);
  clean = ground (arith, h.clean, h.more p, same_self p);
}

pub free_all-Holds :
    (l : List ℕ) {m m' : Mem} {rest : List ℕ}
    → Holds m m' (l ++ rest)
    → Holds m (free_all l m') rest
unfolding free_all
free_all-Holds [] h = h
free_all-Holds (p ∷ l) h = free_all-Holds l (kfree-Holds p h)

-- The result of a function that makes a structure: null with nothing allocated, or a structure with
-- what belongs to it, which is as `Good` says.
abbrev pub Created {ℓ} : {A : Type ℓ} → (A → Type 0) → (A → List ℕ) → Mem → Option A × Mem → Type 0
Created Good owned m (none, m') = Holds m m' []
Created Good owned m (some a, m') = Good a × Holds m m' (owned a)

-- Nothing is asked of the structure.
abbrev pub Any {ℓ} : {A : Type ℓ} → A → Type 0
Any a = Unit

pub Created-elim {ℓ κ κ'} :
    {A : Type ℓ} {R : Type κ} {Good : A → Type 0} (owned : A → List ℕ) (P : R → Type κ') {m : Mem}
    (r : Option A × Mem) {fail : Mem → R} {ok : A → Mem → R}
    → Created Good owned m r
    → ((m' : Mem) → Holds m m' [] → P (fail m'))
    → ((a : A) (m' : Mem) → Good a → Holds m m' (owned a) → P (ok a m'))
    → P (on_result r fail ok)
Created-elim owned P (none, m') c f g = f m' c
Created-elim owned P (some a, m') c f g = g a m' c.0 c.1

abbrev pub single : ℕ → List ℕ
single p = p ∷ []

pub kmalloc-Created : (m : Mem) → Created Any single m (kmalloc m)
unfolding kmalloc
kmalloc-Created m = elim (Option-cases (m.answer m.asked)) [
  | inl e ↦ rw (e, kmalloc) (record { more = λ q. omega arith; clean = refl })
  | inr (p, e) ↦ rw (e, kmalloc) (tt, record { more = λ q. omega arith; clean = refl })
]

-- One more allocation, behind what is held so far.
pub kmalloc-elim {κ κ'} :
    {R : Type κ} (P : R → Type κ') {m m' : Mem} {l : List ℕ} {fail : Mem → R} {ok : ℕ → Mem → R}
    → Holds m m' l
    → ((m'' : Mem) → Holds m m'' l → P (fail m''))
    → ((p : ℕ) (m'' : Mem) → Holds m m'' (p ∷ l) → P (ok p m''))
    → P (on_result (kmalloc m') fail ok)
kmalloc-elim P {m' = m'} {l = l} h f g =
    Created-elim single P (kmalloc m') (kmalloc-Created m')
      (λ m'' k. f m'' (Holds-same (λ q. omega (arith, count-append q l [])) (Holds-trans h k)))
      (λ p m'' _ k.
        g p m'' (Holds-same (λ q. omega (arith, count-append q l (p ∷ []))) (Holds-trans h k)))

-- Frees that give back all that was allocated.
pub free_all-undone : (l : List ℕ) {m m' : Mem} → Holds m m' l → Holds m (free_all l m') []
free_all-undone l h = free_all-Holds l (Holds-same (λ q. omega (arith, count-append q l [])) h)

-- What is left of a structure that is made and then destroyed: nothing if it could not be made, and
-- else what `left` says.
abbrev pub Leaves {ℓ} :
    {A : Type ℓ} → (A → List ℕ) → (A → Mem → Mem) → Mem → Option A × Mem → Type 0
Leaves left destroy m (none, m') = Holds m m' []
Leaves left destroy m (some a, m') = Holds m (destroy a m') (left a)

abbrev pub nothing {ℓ} : {A : Type ℓ} → A → List ℕ
nothing a = []

pub Created-Leaves {ℓ} :
    {A : Type ℓ} {Good : A → Type 0} (owned left : A → List ℕ) (destroy : A → Mem → Mem) {m : Mem}
    (r : Option A × Mem)
    → Created Good owned m r
    → ((a : A) (m' : Mem) → Good a → Holds m m' (owned a) → Holds m (destroy a m') (left a))
    → Leaves left destroy m r
Created-Leaves owned left destroy (none, m') c f = c
Created-Leaves owned left destroy (some a, m') c f = f a m' c.0 c.1

-- What a pointer to memory points to, and that the pointer was set.
abbrev pub at_ptr : Ptr ℕ → List ℕ
at_ptr unset = []
at_ptr null = []
at_ptr (to p) = p ∷ []

abbrev pub Safe : Ptr ℕ → Type 0
Safe unset = ⊥
Safe null = Unit
Safe (to p) = Unit

pub free_if-free_all : (p : Ptr ℕ) (m : Mem) → Safe p → free_if p m ≡ free_all (at_ptr p) m
unfolding free_if free_all kfree
free_if-free_all unset m s = absurd s
free_if-free_all null m s = refl
free_if-free_all (to p) m s = refl

pub free_if-Holds :
    (p : Ptr ℕ) {m m' : Mem} {l : List ℕ}
    → Safe p
    → Holds m m' (at_ptr p ++ l)
    → Holds m (free_if p m') l
free_if-Holds p {m} {m'} {l} s h =
    subst (λ (x : Mem). Holds m x l) (sym (free_if-free_all p m' s)) (free_all-Holds (at_ptr p) h)

-- What was bad stays bad.
pub kfree-bad : (p : ℕ) (m : Mem) → m.bad ≡ true → (kfree p m).bad ≡ true
unfolding kfree
kfree-bad p m e = rw (e) refl

pub free_if-bad : (p : Ptr ℕ) (m : Mem) → m.bad ≡ true → (free_if p m).bad ≡ true
unfolding free_if
free_if-bad unset m e = refl
free_if-bad null m e = e
free_if-bad (to p) m e = kfree-bad p m e

-- A call's result is one or the other.
pub on_result-elim {ℓ κ κ'} :
    {A : Type ℓ} {R : Type κ} (P : R → Type κ') (r : Option A × Mem) {fail : Mem → R}
    {ok : A → Mem → R}
    → ((m : Mem) → P (fail m))
    → ((a : A) (m : Mem) → P (ok a m))
    → P (on_result r fail ok)
on_result-elim P (none, m) f g = f m
on_result-elim P (some a, m) f g = g a m
