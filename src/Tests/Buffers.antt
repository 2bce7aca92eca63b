-- ===== src/Tests/Buffers.antt =====
-- The write buffer: runs of the code of write_buffer.c.
use flashbench.Common.{
  ℕ, ◌≡◌, ◌≤◌, refl, none, some, List, [], ◌∷◌, arith, success, error, if◌then◌else◌, ◌==◌,
}
use flashbench.Common.Counts.{count}
use flashbench.Ut.Listing.{listing}
use flashbench.WriteBuffer.{
  WriteBuffer, Data, fb_create_write_buffer, fb_put_pg, fb_get_pgs_to_write, fb_rm_written_pgs,
  fb_wb_set_free_pg, store_pg, claim_pg,
}
use flashbench.WriteBuffer.Invariant.{IsValid}
use flashbench.WriteBuffer.View.{view}
use flashbench.WriteBuffer.Put.{fb_put_pg-IsValid, fb_put_pg-view}
use flashbench.WriteBuffer.Flush.{Taken, fb_get_pgs_to_write_enough}
use flashbench.WriteBuffer.Written.{Cleaned, fb_rm_written_pgs-Cleaned}
use flashbench.WriteBuffer.Retry.{
  fb_create_write_buffer-IsValid, fb_rm_written_pgs-put, flush_makes_room,
}

-- Two entries, of one byte each.
abbrev entries : List ℕ
entries = 100 ∷ 200 ∷ []

abbrev new_buffer : WriteBuffer listing
new_buffer = fb_create_write_buffer listing entries (λ p. []) 1

entries_once : (q : ℕ) → count q entries ≤ 1
entries_once q = ground arith

valid_0 : IsValid listing 2 none new_buffer
valid_0 =
    (fb_create_write_buffer-IsValid listing entries (λ p. []) 1 (omega arith)
      (λ q. omega (arith, entries_once q))).0

abbrev pub buffer_1 : WriteBuffer listing
buffer_1 = (fb_put_pg listing new_buffer 5 (11 ∷ [])).1

-- Page 5 is buffered.
pub valid_1 : IsValid listing 2 none buffer_1
valid_1 = fb_put_pg-IsValid listing 5 (11 ∷ []) valid_0

abbrev buffer_2 : WriteBuffer listing
buffer_2 = (fb_put_pg listing buffer_1 6 (22 ∷ [])).1

valid_2 : IsValid listing 2 none buffer_2
valid_2 = fb_put_pg-IsValid listing 6 (22 ∷ []) valid_1

-- Both entries are in use.
put_1 : (fb_put_pg listing new_buffer 5 (11 ∷ [])).0 ≡ success
unfolding fb_put_pg fb_create_write_buffer fb_wb_set_free_pg store_pg claim_pg
put_1 = refl

put_2 : (fb_put_pg listing buffer_1 6 (22 ∷ [])).0 ≡ success
unfolding fb_put_pg fb_create_write_buffer fb_wb_set_free_pg store_pg claim_pg
put_2 = refl

put_3 : (fb_put_pg listing buffer_2 7 (33 ∷ [])).0 ≡ error
unfolding fb_put_pg fb_create_write_buffer fb_wb_set_free_pg store_pg claim_pg
put_3 = refl

idle_2 : buffer_2.writing_pgs ≡ []
unfolding fb_put_pg fb_create_write_buffer fb_wb_set_free_pg store_pg claim_pg
idle_2 = refl

buffered_2 : buffer_2.buf_pgs ≡ 100 ∷ 200 ∷ []
unfolding fb_put_pg fb_create_write_buffer fb_wb_set_free_pg store_pg claim_pg
buffered_2 = refl

fb_put_pg-view_example :
    view listing buffer_2 5 ≡ (if 6 == 5 then some (22 ∷ []) else view listing buffer_1 5)
fb_put_pg-view_example = fb_put_pg-view listing 6 (22 ∷ []) valid_1 put_2 5

-- Two pages that are being written.
both_written :
    (lpas : List ℕ) × (pages : List Data) × (wb' : WriteBuffer listing) × (fb_get_pgs_to_write
        listing buffer_2 2
      ≡ some (success, lpas, pages, wb'))
    × Taken listing 2 2 buffer_2 lpas pages wb'
unfolding fb_put_pg fb_create_write_buffer fb_wb_set_free_pg store_pg claim_pg
both_written = fb_get_pgs_to_write_enough listing 2 buffer_2 valid_2 (omega arith)

abbrev buffer_3 : WriteBuffer listing
buffer_3 = let (_, _, wb, _, _) = both_written in wb

valid_3 : IsValid listing 2 none buffer_3
valid_3 = let (_, _, _, _, taken) = both_written in taken.valid

fb_rm_written_pgs-Cleaned_example : Cleaned listing 2 buffer_3 (fb_rm_written_pgs listing buffer_3)
fb_rm_written_pgs-Cleaned_example = fb_rm_written_pgs-Cleaned listing buffer_3 valid_3

fb_rm_written_pgs-put_example : view listing (fb_rm_written_pgs listing buffer_2) 6 ≡ some (22 ∷ [])
fb_rm_written_pgs-put_example = fb_rm_written_pgs-put listing 6 (22 ∷ []) valid_1 put_2

flush_makes_room_example :
    (lpas : List ℕ) × (pages : List Data) × (wb' : WriteBuffer listing) × (fb_get_pgs_to_write
        listing buffer_2 1
      ≡ some (success, lpas, pages, wb'))
    × ((fb_put_pg listing (fb_rm_written_pgs listing wb') 7 (33 ∷ [])).0 ≡ success)
flush_makes_room_example =
    flush_makes_room listing 1 buffer_2 7 (33 ∷ []) valid_2 put_3 idle_2 (omega arith) (omega arith)
