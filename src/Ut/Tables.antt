-- ===== src/Ut/Tables.antt =====
-- The hash table operations of uthash.h, at the key in question and at the others.
use flashbench.Common.{ℕ, ◌≡◌, ◌≢◌, ◌∙◌, none, some, if_eq, if_ne}
use flashbench.Ut.{Ut}

module _ (ut : Ut) where
  open ut use {Table, hash_find, hash_add, hash_del, hash_find-add, hash_find-del}

  module _ (t : Table) (k p : ℕ) (e : hash_find t k ≡ none) where
    pub find-add_self : hash_find (hash_add t k p) k ≡ some p
    find-add_self = hash_find-add t k p k e ∙ if_eq (some p) (hash_find t k) (λ i. k)

    pub find-add_ne : (j : ℕ) → k ≢ j → hash_find (hash_add t k p) j ≡ hash_find t j
    find-add_ne j ne = hash_find-add t k p j e ∙ if_ne (some p) (hash_find t j) ne

  module _ (t : Table) (k p : ℕ) (e : hash_find t k ≡ some p)
      (only : (i : ℕ) → hash_find t i ≡ some p → i ≡ k) where
    pub find-del_self : hash_find (hash_del t p) k ≡ none
    find-del_self = hash_find-del t k p k e only ∙ if_eq none (hash_find t k) (λ i. k)

    pub find-del_ne : (j : ℕ) → k ≢ j → hash_find (hash_del t p) j ≡ hash_find t j
    find-del_ne j ne = hash_find-del t k p j e only ∙ if_ne none (hash_find t j) ne
