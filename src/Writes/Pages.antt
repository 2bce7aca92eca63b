-- ===== src/Writes/Pages.antt =====
-- The pages of a block request that writes: the branch `WRITE` of `make_request` of main.c, with
-- `fb_del_invalid_data` of ftl_algorithm_page_mapping.c.
pub mod Trail
pub mod Ends
use flashbench.Common.{
  ℕ, zero, suc, ◌+◌, ◌*◌, Option, none, some, List, [], ◌∷◌, map, length, Status, success, error,
  ◌>>=◌,
}
use flashbench.Config.{add_u32}
use flashbench.Ut.{Ut}
use flashbench.WriteBuffer.{WriteBuffer, Data, fb_put_pg}
use flashbench.Mapping.{Ftl}
use flashbench.Discard.{fb_del_invalidate_pgs}
use flashbench.Writes.{WriteState, fb_wb_flush}

module _ (ut : Ut) where
  -- The mapping with what is written to the device, the write buffer, and the counter of the pages
  -- that came in.
  pub record Incoming : Type 0 where
    pub state : WriteState
    pub wb : WriteBuffer ut
    pub nr_incomming_write : ℕ

  unfoldable pub fb_del_invalid_data : Ftl → List ℕ → Ftl
  fb_del_invalid_data ftl lpas = fb_del_invalidate_pgs ut ftl lpas

  module _ (trigger_gc : Ftl → Status × Ftl) where
    -- The loop over the pages, each with its address, with at most `fuel` rounds; a page for which
    -- there is no room is tried again behind a flush.
    unfoldable pub put_pages : ℕ → Incoming → List (ℕ × Data) → Option (Status × Incoming)
    unfolding fb_wb_flush
    put_pages zero r pages = none
    put_pages (suc fuel) r [] = some (success, r)
    put_pages (suc fuel) r (page ∷ pages) =
        let (status, wb) = fb_put_pg ut r.wb page.0 page.1 in
        elim status [
          | success ↦
              put_pages fuel
                (record r { wb = wb; nr_incomming_write = add_u32 r.nr_incomming_write 1 }) pages
          | error ↦ do
            (flushed, s, wb') ← fb_wb_flush ut trigger_gc (length wb.buf_pgs + 1) r.state wb
            elim flushed [
              | error ↦ some (error, record r { state = s; wb = wb' })
              | success ↦ put_pages fuel (record r { state = s; wb = wb' }) (page ∷ pages)
            ]
        ]

    -- The data on the device under the request's addresses is invalidated first.
    unfoldable pub write_pages : Incoming → List (ℕ × Data) → Option (Status × Incoming)
    unfolding put_pages fb_del_invalid_data
    write_pages r pages =
        put_pages (2 * length pages + 1)
          (record r {
            state = record r.state {
              ftl = fb_del_invalid_data r.state.ftl (map (λ page. page.0) pages);
            };
          })
          pages
