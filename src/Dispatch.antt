-- ===== src/Dispatch.antt =====
-- The entry point of the block device: `make_request` of main.c, which hands a block request to the
-- operations of the other modules and answers it. One call is one step: `dev_lock` lets requests in
-- one at a time. What the kernel answers during the call is an argument.
pub mod Branches
pub mod Answers
pub mod Invariant
pub mod Failure
pub mod Reading
use mathlib.Core.List.{foldl}
use mathlib.Core.Option
use flashbench.Common.{
  ℕ, Bool, true, false, Option, none, some, List, ◌∷◌, map, Status, success, error, if◌then◌else◌,
  update,
}
use flashbench.Ut.{Ut}
use flashbench.Bio.{FbBio, Bios, fb_destroy_bio}
use flashbench.WriteBuffer.{Data}
use flashbench.Mapping.{Ftl}
use flashbench.Requests.{Direction, read, write, fb_build_bio}
use flashbench.Discard.{make_discard_request_page_mapping}
use flashbench.Writes.Pages.{Incoming, write_pages}
use flashbench.Reads.{ReadAccess, ReadState, entries_of, read_pages}

-- A block request: its address and direction, whether the flag `REQ_PREFLUSH` is set, whether it is
-- `REQ_OP_DISCARD`, where it starts, its size in bytes, and the pages of its segments.
pub record Request : Type 0 where
  pub bio : ℕ
  pub rw : Direction
  pub preflush : Bool
  pub discard : Bool
  pub bi_sector : ℕ
  pub bi_size : ℕ
  pub pages : List ℕ

-- What `vmalloc` answers to `fb_build_bio`, the two readings of the clock, and `-ENODEV` as a `u32`.
pub record Kernel : Type 0 where
  pub fbio : Option ℕ
  pub time_begin : ℕ
  pub time_end : ℕ
  pub minus_enodev : ℕ

module _ (ut : Ut) where
  -- `fb_context_t` with what it points to, the requests in flight, the memory of the pages, the field
  -- `bi_error` of the block requests, and the reads that the device was asked for.
  pub record Fb : Type 0 where
    pub err : Bool
    pub incoming : Incoming ut
    pub bios : Bios
    pub reads : List ReadAccess
    pub nr_page_reads : ℕ
    pub page_at : ℕ → Data
    pub bi_error : ℕ → ℕ
    pub background_gc_time_stamp : ℕ

  unfoldable pub fb_update_bgc_ts : ℕ → Fb → Fb
  fb_update_bgc_ts time fb = record fb { background_gc_time_stamp = time }

  -- `bio_endio(bio)`
  unfoldable pub end_bio : Request → Fb → Fb
  end_bio q fb = record fb { bios = record fb.bios { ended = q.bio ∷ fb.bios.ended } }

  -- `if (fbio) { fb_destroy_bio(fbio); }`
  unfoldable pub drop_fbio : Option ℕ → Fb → Fb
  drop_fbio none fb = fb
  drop_fbio (some p) fb = record fb { bios = fb_destroy_bio fb.bios p }

  -- The statements from `REQ_FINISH` on.
  unfoldable pub req_finish : Kernel → Request → Option ℕ → Fb → Fb
  unfolding fb_update_bgc_ts end_bio drop_fbio
  req_finish k q fbio fb =
      fb_update_bgc_ts k.time_end (elim q.rw [ read ↦ fb | write ↦ drop_fbio fbio (end_bio q fb) ])

  -- The statements from `FAIL` on.
  unfoldable pub fail : Request → Option ℕ → ℕ → Fb → Fb
  unfolding end_bio drop_fbio
  fail q fbio ret_value fb =
      drop_fbio fbio
        (end_bio q (record fb { err = true; bi_error = update fb.bi_error q.bio ret_value }))

  unfoldable pub discard_branch : Request → Fb → Fb
  discard_branch q fb =
      let (wb, ftl) =
        make_discard_request_page_mapping ut q.bi_sector q.bi_size
          (fb.incoming.wb, fb.incoming.state.ftl) in
      record fb {
        incoming = record fb.incoming { wb = wb; state = record fb.incoming.state { ftl = ftl } };
      }

  -- `fb_build_bio` behind its allocation at `p`: the structure is filled, and the pages that the write
  -- buffer holds are copied.
  unfoldable pub build : Request → ℕ → Fb → Fb
  build q p fb =
      let (fbio, answered) = fb_build_bio ut q.rw fb.incoming.wb q.bi_sector q.pages q.bio in
      record fb {
        bios = record fb.bios {
          fb_bio = update fb.bios.fb_bio p fbio;
          live = update fb.bios.live p true;
        };
        page_at = foldl (λ m (a : ℕ × Data). update m a.0 a.1) fb.page_at answered;
      }

  unfoldable pub read_branch : ℕ → Fb → Fb
  read_branch p fb =
      let s =
        read_pages
          (record {
            ftl = fb.incoming.state.ftl;
            bios = fb.bios;
            reads = fb.reads;
            nr_page_reads = fb.nr_page_reads;
          })
          p in
      record fb { bios = s.bios; reads = s.reads; nr_page_reads = s.nr_page_reads }

  -- The entries of the request at `p`, with what their pages hold.
  abbrev pub pages_to_write : ℕ → Fb → List (ℕ × Data)
  pages_to_write p fb =
      map (λ (e : ℕ × ℕ). (e.0, fb.page_at e.1))
        (entries_of (fb.bios.fb_bio p).lpas (fb.bios.fb_bio p).kpages)

  module _ (trigger_gc : Ftl → Status × Ftl) where
    -- The branch `WRITE` and what follows it.
    unfoldable pub write_branch : Kernel → Request → ℕ → Fb → Option Fb
    unfolding req_finish fail
    write_branch k q p fb =
        Option.map
          (λ (r : Status × Incoming ut). elim r.0 [
            | success ↦ req_finish k q (some p) (record fb { incoming = r.1 })
            | error ↦ fail q (some p) 0 (record fb { incoming = r.1 })
          ])
          (write_pages ut trigger_gc fb.incoming (pages_to_write p fb))

    -- The statements behind the tests for flushes and discards.
    unfoldable pub serve : Kernel → Request → Fb → Option Fb
    unfolding build read_branch write_branch req_finish fail
    serve k q fb = elim k.fbio [
      | none ↦ some (fail q none k.minus_enodev fb)
      | some p ↦ elim q.rw [
        | read ↦ some (req_finish k q (some p) (read_branch p (build q p fb)))
        | write ↦ write_branch k q p (build q p fb)
      ]
    ]

    -- `make_flush_request_page_mapping` does nothing. `none` is a loop that has not ended, or the use of
    -- a null pointer, in the branch `WRITE`.
    unfoldable pub make_request : Kernel → Request → Fb → Option Fb
    unfolding fb_update_bgc_ts fail req_finish discard_branch serve
    make_request k q fb =
        let fb' = fb_update_bgc_ts k.time_begin fb in
        if fb'.err
        then some (fail q none 0 fb')
        else if q.preflush
        then some (req_finish k q none fb')
        else if q.discard
        then some (req_finish k q none (discard_branch q fb'))
        else serve k q fb'
