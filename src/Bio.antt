-- ===== src/Bio.antt =====
-- The requests in flight: `fb_bio_t` of main.h with `dec_bio_req_count` and `fb_destroy_bio` of
-- main.c, and the completion of a block request.
use flashbench.Common.{ℕ, Bool, false, not, ◌||◌, List, ◌∷◌, if◌then◌else◌, ◌==◌, update}
use flashbench.Config.{sub_u32}

-- `lpas` and `kpages` hold the entries in use, the first `req_count` at first; a page buffer and a
-- `struct bio` are known by their addresses.
pub record FbBio : Type 0 where
  pub req_count : ℕ
  pub lpas : List ℕ
  pub kpages : List ℕ
  pub bio : ℕ

-- The memory of the `fb_bio_t` structures by address, which of them are allocated, the requests for
-- which `bio_endio` was called, newest first, and whether a structure was touched after `vfree`.
pub record Bios : Type 0 where
  pub fb_bio : ℕ → FbBio
  pub live : ℕ → Bool
  pub ended : List ℕ
  pub use_after_free : Bool

-- A read or write of the structure at `p`.
abbrev pub touch : Bios → ℕ → Bios
touch s p = record s { use_after_free = s.use_after_free || not (s.live p) }

-- The count after the decrement, which is also what the C function returns.
unfoldable pub dec_bio_req_count : Bios → ℕ → ℕ × Bios
dec_bio_req_count s p =
    let ret = sub_u32 (s.fb_bio p).req_count 1 in
    (
      ret,
      record (touch s p) { fb_bio = update s.fb_bio p (record (s.fb_bio p) { req_count = ret }) },
    )

-- `bio_endio(fbio->bio)`
unfoldable pub bio_endio : Bios → ℕ → Bios
bio_endio s p = record (touch s p) { ended = (s.fb_bio p).bio ∷ s.ended }

-- `vfree`; freeing twice is a use after free.
unfoldable pub fb_destroy_bio : Bios → ℕ → Bios
fb_destroy_bio s p = record (touch s p) { live = update s.live p false }

-- `if (dec_bio_req_count(p) == 0) { bio_endio(p->bio); vfree(p); }`, in `make_request` and in
-- `release_busy_lock`.
unfoldable pub finish_one : Bios → ℕ → Bios
unfolding dec_bio_req_count bio_endio fb_destroy_bio
finish_one s p =
    let (count, s') = dec_bio_req_count s p in
    if count == 0 then fb_destroy_bio (bio_endio s' p) p else s'
