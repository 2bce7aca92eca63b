-- ===== src/Ut/Listing.antt =====
-- A model of the two libraries, which shows that their documentation can be met: lists that are
-- searched, and a table that is a function of the key.
use flashbench.Common.{
  ℕ, ◌≡◌, refl, false, Option, none, some, [], ◌∷◌, ◌++◌, arith, ◌==◌, if◌then◌else◌, inl, inr,
  update, Option-cases, ℕ_discrete,
}
use flashbench.Common.Counts.{remove}
use flashbench.Ut.{Ut}

-- The answer for a key, unless it is the element that is deleted.
abbrev pub unless : ℕ → Option ℕ → Option ℕ
unless p none = none
unless p (some q) = if q == p then none else some q

unless_other : (p q : ℕ) → (q == p) ≡ false → unless p (some q) ≡ some q
unless_other p q e = rw e

pub find-del :
    (t : ℕ → Option ℕ) (k p j : ℕ)
    → t k ≡ some p
    → ((i : ℕ) → t i ≡ some p → i ≡ k)
    → unless p (t j) ≡ (if k == j then none else t j)
find-del t k p j e only = elim (Option-cases (t j)) [
  | inl n ↦ rw n (ground arith)
  | inr (q, f) ↦ elim (ℕ_discrete q p) [
    | yes d ↦ ground (arith, only j, ℕ_discrete k j)
    | no ne ↦ ground (arith, ℕ_discrete k j)
  ]
]

abbrev pub listing : Ut
listing = record {
  dl_append = λ l x. l ++ x ∷ [];
  dl_delete = λ l x. remove x l;
  dl_append_lem = λ l x h. refl;
  dl_delete_lem = λ l x h. refl;
  Table = ℕ → Option ℕ;
  null = λ k. none;
  hash_find = λ t k. t k;
  hash_add = λ t k p. update t k (some p);
  hash_del = λ t p k. unless p (t k);
  hash_find-null = λ k. refl;
  hash_find-add = λ t k p j h. refl;
  hash_find-del = find-del;
}
