-- ===== src/WriteBuffer.antt =====
-- The write buffer, write_buffer.c and write_buffer.h, over the lists and the hash table of uthash.
-- A page entry is known by its address, and `NULL` is `none`. `memcpy` of `pg_size` bytes copies
-- the whole logical page that a buffer holds, so a page's content is one value; `dest` of
-- `fb_get_pgs_to_write` is the list of the pages written to it. The buffer's lock is held throughout
-- each of the functions that take it.
pub mod Invariant
pub mod Detach
pub mod Attach
pub mod View
pub mod Put
pub mod Flush
pub mod Written
pub mod Retry
pub mod Setup
use mathlib.Core.List.{foldl}
use mathlib.Core.Option
use flashbench.Common.{
  ℕ, zero, suc, ◌+◌, Bool, true, false, Option, none, some, List, [], ◌∷◌, Status, success, error,
  length, head, leb, if◌then◌else◌, update,
}
use flashbench.Config.{add_u32, sub_u32, page_unmapped}
use flashbench.Ut.{Ut}

-- The bytes of a logical page.
abbrev pub Data : Type 0
Data = List ℕ

pub record WbPg : Type 0 where
  pub lpa : ℕ
  pub data_of : Data
  pub wflag : Bool

module _ (ut : Ut) where
  open ut use {dl_append, dl_delete, Table, null, hash_find, hash_add, hash_del}

  -- `pg` is the memory of the entries.
  pub record WriteBuffer : Type 0 where
    pub pg_size : ℕ
    pub nr_entries : ℕ
    pub free_pgs : List ℕ
    pub writing_pgs : List ℕ
    pub buf_pgs : List ℕ
    pub hash_pgs : Table
    pub pg : ℕ → WbPg

  unfoldable pub fb_wb_set_free_pg : WriteBuffer → ℕ → WriteBuffer
  fb_wb_set_free_pg wb p = record wb { free_pgs = dl_append wb.free_pgs p }

  unfoldable pub fb_wb_reset_free_pg : WriteBuffer → ℕ → WriteBuffer
  fb_wb_reset_free_pg wb p = record wb { free_pgs = dl_delete wb.free_pgs p }

  unfoldable pub fb_wb_set_writing_pg : WriteBuffer → ℕ → WriteBuffer
  fb_wb_set_writing_pg wb p = record wb {
    writing_pgs = dl_append wb.writing_pgs p;
    pg = update wb.pg p (record (wb.pg p) { wflag = true });
  }

  unfoldable pub fb_wb_reset_writing_pg : WriteBuffer → ℕ → WriteBuffer
  fb_wb_reset_writing_pg wb p = record wb {
    writing_pgs = dl_delete wb.writing_pgs p;
    pg = update wb.pg p (record (wb.pg p) { wflag = false });
  }

  unfoldable pub fb_wb_set_buf_pg : WriteBuffer → ℕ → WriteBuffer
  fb_wb_set_buf_pg wb p = record wb {
    buf_pgs = dl_append wb.buf_pgs p;
    nr_entries = add_u32 wb.nr_entries 1;
  }

  unfoldable pub fb_wb_get_buf_pg : WriteBuffer → ℕ → Option ℕ
  fb_wb_get_buf_pg wb lpa = hash_find wb.hash_pgs lpa

  unfoldable pub fb_wb_reset_buf_pg : WriteBuffer → ℕ → WriteBuffer
  fb_wb_reset_buf_pg wb p = record wb {
    buf_pgs = dl_delete wb.buf_pgs p;
    nr_entries = sub_u32 wb.nr_entries 1;
  }

  -- `HASH_DEL(wb->hash_pgs, wb_pg)`
  unfoldable pub hash_del_pg : WriteBuffer → ℕ → WriteBuffer
  hash_del_pg wb p = record wb { hash_pgs = hash_del wb.hash_pgs p }

  -- `fb_create_write_buffer` with every allocation granted: `entries` are the addresses of the
  -- entries in the order of their allocation, and `memory` what the page buffers hold then.
  unfoldable pub fb_create_write_buffer : List ℕ → (ℕ → Data) → ℕ → WriteBuffer
  fb_create_write_buffer entries memory pg_size = foldl fb_wb_set_free_pg empty entries
    where
      empty : WriteBuffer
      empty = record {
        pg_size = pg_size;
        nr_entries = 0;
        free_pgs = [];
        writing_pgs = [];
        buf_pgs = [];
        hash_pgs = null;
        pg = λ p. record { lpa = page_unmapped; data_of = memory p; wflag = false };
      }

  unfoldable pub fb_get_nr_pgs_in_wb : WriteBuffer → ℕ
  fb_get_nr_pgs_in_wb wb = wb.nr_entries

  -- The page is what `memcpy` writes to `dest`.
  unfoldable pub fb_get_pg_data : WriteBuffer → ℕ → Status × Option Data
  unfolding fb_wb_get_buf_pg
  fb_get_pg_data wb lpa = elim (fb_wb_get_buf_pg wb lpa) [
    | some p ↦ (success, some (wb.pg p).data_of)
    | none ↦ (error, none)
  ]

  -- `n` rounds of the loop of `fb_get_pgs_to_write`: the logical addresses and the pages, in order.
  -- `none` is the use of a null `buf_pgs`.
  pub take_pgs : ℕ → WriteBuffer → Option (List ℕ × List Data × WriteBuffer)
  unfolding fb_wb_reset_buf_pg fb_wb_set_writing_pg
  take_pgs zero wb = some ([], [], wb)
  take_pgs (suc n) wb = elim (head wb.buf_pgs) [
    | none ↦ none
    | some p ↦
        Option.map (λ r. ((wb.pg p).lpa ∷ r.0, (wb.pg p).data_of ∷ r.1, r.2))
          (take_pgs n (fb_wb_set_writing_pg (fb_wb_reset_buf_pg wb p) p))
  ]

  pub fb_get_pgs_to_write : WriteBuffer → ℕ → Option (Status × List ℕ × List Data × WriteBuffer)
  unfolding fb_get_nr_pgs_in_wb
  fb_get_pgs_to_write wb nr_pgs =
      if leb nr_pgs (fb_get_nr_pgs_in_wb wb)
      then Option.map (λ r. (success, r.0, r.1, r.2)) (take_pgs nr_pgs wb)
      else some (error, [], [], wb)

  -- The last two statements of `fb_put_pg`.
  unfoldable pub store_pg : WriteBuffer → ℕ → Data → WriteBuffer
  unfolding fb_wb_set_buf_pg
  store_pg wb p src =
      fb_wb_set_buf_pg (record wb { pg = update wb.pg p (record (wb.pg p) { data_of = src }) }) p

  -- The entry leaves the list that its flag names.
  unfoldable pub unlist_pg : WriteBuffer → ℕ → WriteBuffer
  unfolding fb_wb_reset_writing_pg fb_wb_reset_buf_pg
  unlist_pg wb p = if (wb.pg p).wflag then fb_wb_reset_writing_pg wb p else fb_wb_reset_buf_pg wb p

  -- A free entry is taken for a new logical address.
  unfoldable pub claim_pg : WriteBuffer → ℕ → ℕ → WriteBuffer
  unfolding fb_wb_reset_free_pg
  claim_pg wb p lpa =
      let wb' = fb_wb_reset_free_pg wb p in
      record wb' {
        pg = update wb'.pg p (record (wb'.pg p) { lpa = lpa });
        hash_pgs = hash_add wb'.hash_pgs lpa p;
      }

  unfoldable pub fb_put_pg : WriteBuffer → ℕ → Data → Status × WriteBuffer
  unfolding fb_wb_get_buf_pg
  fb_put_pg wb lpa src = elim (fb_wb_get_buf_pg wb lpa) [
    | none ↦ elim (head wb.free_pgs) [
      | none ↦ (error, wb)
      | some p ↦ (success, store_pg (claim_pg wb p lpa) p src)
    ]
    | some p ↦ (success, store_pg (unlist_pg wb p) p src)
  ]

  -- An entry that is in no list any more is free again.
  unfoldable pub retire_pg : WriteBuffer → ℕ → WriteBuffer
  unfolding hash_del_pg fb_wb_set_free_pg
  retire_pg wb p = fb_wb_set_free_pg (hash_del_pg wb p) p

  -- The loop of `fb_rm_written_pgs`, with one round of fuel more than there are pages.
  pub rm_written_loop : ℕ → WriteBuffer → WriteBuffer
  unfolding fb_wb_reset_writing_pg
  rm_written_loop zero wb = wb
  rm_written_loop (suc fuel) wb = elim (head wb.writing_pgs) [
    | none ↦ wb
    | some p ↦ rm_written_loop fuel (retire_pg (fb_wb_reset_writing_pg wb p) p)
  ]

  pub fb_rm_written_pgs : WriteBuffer → WriteBuffer
  fb_rm_written_pgs wb = rm_written_loop (length wb.writing_pgs + 1) wb

  pub fb_rm_buf_pg : WriteBuffer → ℕ → WriteBuffer
  unfolding fb_wb_get_buf_pg
  fb_rm_buf_pg wb lpa = elim (fb_wb_get_buf_pg wb lpa) [
    | none ↦ wb
    | some p ↦ retire_pg (unlist_pg wb p) p
  ]
