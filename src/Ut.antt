-- ===== src/Ut.antt =====
-- The two libraries that the driver calls, uthash/utlist.h and uthash/uthash.h, as an interface: the
-- operations, and what their documentation says of them. A doubly linked list is the sequence of its
-- elements' addresses, so that its head pointer is the first of them; `NULL` is the empty list. An
-- element of a hash table is known by its address too; its key is a `u32` in the element.
pub mod Lists
pub mod Tables
pub mod Listing
use flashbench.Common.{ℕ, ◌<◌, ◌≡◌, Option, none, some, List, [], ◌∷◌, ◌++◌, ◌==◌, if◌then◌else◌}
use flashbench.Common.Counts.{count, remove}

pub record Ut : Type 1 where
  -- `DL_APPEND(head, add)` and `DL_DELETE(head, del)`
  pub dl_append : List ℕ → ℕ → List ℕ
  pub dl_delete : List ℕ → ℕ → List ℕ
  -- An element that is in no list goes to the end.
  pub dl_append_lem : (l : List ℕ) (x : ℕ) → count x l ≡ 0 → dl_append l x ≡ l ++ x ∷ []
  -- An element of the list is taken out, and the others stay in their order.
  pub dl_delete_lem : (l : List ℕ) (x : ℕ) → 0 < count x l → dl_delete l x ≡ remove x l
  pub Table : Type 0
  -- A null head.
  pub null : Table
  -- `HASH_FIND` by a key, `HASH_ADD` of an element under its key, `HASH_DEL` of an element
  pub hash_find : Table → ℕ → Option ℕ
  pub hash_add : Table → ℕ → ℕ → Table
  pub hash_del : Table → ℕ → Table
  pub hash_find-null : (k : ℕ) → hash_find null k ≡ none
  -- A key that is not in use may be added.
  pub hash_find-add :
      (t : Table) (k p j : ℕ)
      → hash_find t k ≡ none
      → hash_find (hash_add t k p) j ≡ (if k == j then some p else hash_find t j)
  -- An element that is in the table, under one key, may be deleted.
  pub hash_find-del :
      (t : Table) (k p j : ℕ)
      → hash_find t k ≡ some p
      → ((i : ℕ) → hash_find t i ≡ some p → i ≡ k)
      → hash_find (hash_del t p) j ≡ (if k == j then none else hash_find t j)
