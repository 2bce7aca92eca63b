-- ===== src/WriteBuffer/Setup.antt =====
-- The making and the end of the write buffer, with the allocations: `fb_create_wb_entry`,
-- `fb_destroy_wb_entry`, `fb_create_write_buffer` and `fb_destroy_write_buffer` of write_buffer.c. An
-- entry stands in a list with the addresses of its structure and of its data; the hash table and
-- the lock, which hold no memory of the driver's, are left out.
pub mod Freed
use flashbench.Common.{
  ℕ, zero, suc, ◌≡◌, refl, sym, ap, subst, ◌∙◌, Bool, true, false, Option, none, some, List, [],
  ◌∷◌, ◌++◌,
}
use flashbench.Config.{page_unmapped}
use flashbench.Memory.{
  Mem, Ptr, unset, null, to, kmalloc, kfree, free_if, on_result, fill, on_filled,
}

pub record WbPgObj : Type 0 where
  pub self : ℕ
  pub data_at : Ptr ℕ
  pub lpa : ℕ
  pub wflag : Bool

pub record WbObj : Type 0 where
  pub self : ℕ
  pub pg_size : ℕ
  pub nr_entries : ℕ
  pub free_pgs : List WbPgObj
  pub writing_pgs : List WbPgObj
  pub buf_pgs : List WbPgObj
  pub pg_buf_at : Ptr ℕ

-- The pointer is not null here.
unfoldable pub fb_destroy_wb_entry : WbPgObj → Mem → Mem
fb_destroy_wb_entry wb_pg m = kfree wb_pg.self (free_if wb_pg.data_at m)

-- The fields are set once the data is there; `lpa` and `wflag` are not read before.
unfoldable pub fb_create_wb_entry : Mem → Option WbPgObj × Mem
unfolding fb_destroy_wb_entry
fb_create_wb_entry m =
    on_result (kmalloc m) (λ m1. (none, m1))
      (λ p m1.
        on_result (kmalloc m1) (λ m2. (none, fb_destroy_wb_entry (entry p null) m2))
          (λ d m2. (some (entry p (to d)), m2)))
  where
    entry : ℕ → Ptr ℕ → WbPgObj
    entry p d = record { self = p; data_at = d; lpa = page_unmapped; wflag = false }

-- A loop of `fb_destroy_write_buffer`: it takes the first entry out of the list, until there is none.
unfoldable pub destroy_pgs : List WbPgObj → Mem → Mem
unfolding fb_destroy_wb_entry
destroy_pgs [] m = m
destroy_pgs (wb_pg ∷ pgs) m = destroy_pgs pgs (fb_destroy_wb_entry wb_pg m)

unfoldable pub fb_destroy_write_buffer : WbObj → Mem → Mem
unfolding destroy_pgs
fb_destroy_write_buffer wb m =
    kfree wb.self (destroy_pgs wb.writing_pgs (destroy_pgs wb.buf_pgs (destroy_pgs wb.free_pgs m)))

-- The entries that were made, up to the one that was not.
abbrev pub made_pgs : List (Ptr WbPgObj) → List WbPgObj
made_pgs [] = []
made_pgs (unset ∷ cells) = []
made_pgs (null ∷ cells) = []
made_pgs (to wb_pg ∷ cells) = wb_pg ∷ made_pgs cells

-- A buffer whose entries are all free.
abbrev pub new_wb : ℕ → ℕ → List (Ptr WbPgObj) → Ptr ℕ → WbObj
new_wb p pg_size cells pg_buf = record {
  self = p;
  pg_size = pg_size;
  nr_entries = 0;
  free_pgs = made_pgs cells;
  writing_pgs = [];
  buf_pgs = [];
  pg_buf_at = pg_buf;
}

unfoldable pub alloc_write_buffer : ℕ → ℕ → Mem → Option WbObj × Mem
unfolding fb_create_wb_entry fb_destroy_write_buffer
alloc_write_buffer nr_max_entries pg_size m =
    on_result (kmalloc m) (λ m1. (none, m1))
      (λ p m1.
        on_filled (fill fb_create_wb_entry nr_max_entries m1)
          (λ cells m2. (none, fb_destroy_write_buffer (new_wb p pg_size cells unset) m2))
          (λ cells m2.
            on_result (kmalloc m2)
              (λ m3. (none, fb_destroy_write_buffer (new_wb p pg_size cells null) m3))
              (λ b m3. (some (new_wb p pg_size cells (to b)), m3))))
