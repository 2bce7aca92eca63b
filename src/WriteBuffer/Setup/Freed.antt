-- ===== src/WriteBuffer/Setup/Freed.antt =====
-- The allocations of a write buffer and what `fb_destroy_write_buffer` frees of them.
use flashbench.Common.{ℕ, ◌≡◌, refl, sym, ap, subst, ◌∙◌, Option, List, [], ◌∷◌, ◌++◌, arith}
use flashbench.Common.Counts.{count-append}
use flashbench.Memory.{Mem, Ptr, unset, null, to, kfree, free_if}
use flashbench.Memory.Holds.{
  Holds, Holds-refl, Holds-same, Created, Leaves, kmalloc-elim, kfree-Holds, free_all,
  free_all-append, free_all-Holds, at_ptr, Safe, free_if-free_all,
}
use flashbench.Memory.Arrays.{AreSet, IsFull-AreSet, owned_by, fill-elim}
use flashbench.WriteBuffer.Setup.{
  WbPgObj, WbObj, fb_destroy_wb_entry, fb_create_wb_entry, destroy_pgs, fb_destroy_write_buffer,
  made_pgs, new_wb, alloc_write_buffer,
}

-- What belongs to an entry, and to the entries of a list.
abbrev pub owned_by_pg : WbPgObj → List ℕ
owned_by_pg wb_pg = at_ptr wb_pg.data_at ++ wb_pg.self ∷ []

abbrev pub owned_by_pgs : List WbPgObj → List ℕ
owned_by_pgs [] = []
owned_by_pgs (wb_pg ∷ pgs) = owned_by_pg wb_pg ++ owned_by_pgs pgs

-- The data pointers were set.
abbrev pub AreSafe : List WbPgObj → Type 0
AreSafe [] = Unit
AreSafe (wb_pg ∷ pgs) = Safe wb_pg.data_at × AreSafe pgs

abbrev pub IsSafe : WbPgObj → Type 0
IsSafe wb_pg = Safe wb_pg.data_at

fb_destroy_wb_entry-free_all :
    (wb_pg : WbPgObj) (m : Mem)
    → Safe wb_pg.data_at
    → fb_destroy_wb_entry wb_pg m ≡ free_all (owned_by_pg wb_pg) m
unfolding fb_destroy_wb_entry free_all
fb_destroy_wb_entry-free_all wb_pg m s =
    ap (kfree wb_pg.self) (free_if-free_all wb_pg.data_at m s)
    ∙ sym (free_all-append (at_ptr wb_pg.data_at) (wb_pg.self ∷ []) m)

destroy_pgs-free_all :
    (pgs : List WbPgObj) (m : Mem) → AreSafe pgs → destroy_pgs pgs m ≡ free_all (owned_by_pgs pgs) m
unfolding destroy_pgs free_all
destroy_pgs-free_all [] m s = refl
destroy_pgs-free_all (wb_pg ∷ pgs) m s =
    destroy_pgs-free_all pgs (fb_destroy_wb_entry wb_pg m) s.1
    ∙ ap (free_all (owned_by_pgs pgs)) (fb_destroy_wb_entry-free_all wb_pg m s.0)
    ∙ sym (free_all-append (owned_by_pg wb_pg) (owned_by_pgs pgs) m)

destroy_pgs-Holds :
    (pgs : List WbPgObj) {m m' : Mem} {l : List ℕ}
    → AreSafe pgs
    → Holds m m' (owned_by_pgs pgs ++ l)
    → Holds m (destroy_pgs pgs m') l
destroy_pgs-Holds pgs {m} {m'} {l} s h =
    subst (λ (x : Mem). Holds m x l) (sym (destroy_pgs-free_all pgs m' s))
      (free_all-Holds (owned_by_pgs pgs) h)

-- Whichever lists the entries of a buffer are in, `fb_destroy_write_buffer` frees each of them with its
-- data, and the buffer; the rest, which is where the page buffer is, stays allocated.
pub fb_destroy_write_buffer-Holds :
    (wb : WbObj) {m m' : Mem} {rest : List ℕ}
    → AreSafe wb.free_pgs
    → AreSafe wb.buf_pgs
    → AreSafe wb.writing_pgs
    → Holds m m' (
        owned_by_pgs wb.free_pgs
        ++ (owned_by_pgs wb.buf_pgs ++ (owned_by_pgs wb.writing_pgs ++ wb.self ∷ rest)))
    → Holds m (fb_destroy_write_buffer wb m') rest
unfolding fb_destroy_write_buffer
fb_destroy_write_buffer-Holds wb {rest = rest} free buf writing h = kfree-Holds wb.self (
    destroy_pgs-Holds wb.writing_pgs {l = wb.self ∷ rest} writing (
      destroy_pgs-Holds wb.buf_pgs {l = owned_by_pgs wb.writing_pgs ++ wb.self ∷ rest} buf (
        destroy_pgs-Holds wb.free_pgs
          {l = owned_by_pgs wb.buf_pgs ++ (owned_by_pgs wb.writing_pgs ++ wb.self ∷ rest)} free h)))

fb_create_wb_entry-Created : (m : Mem) → Created IsSafe owned_by_pg m (fb_create_wb_entry m)
unfolding fb_create_wb_entry fb_destroy_wb_entry free_if
fb_create_wb_entry-Created m =
    kmalloc-elim (Created IsSafe owned_by_pg m) (Holds-refl m) (λ m1 h. h)
      (λ p m1 h.
        kmalloc-elim (Created IsSafe owned_by_pg m) h (λ m2 k. kfree-Holds p k) (λ d m2 k. (tt, k)))

made_pgs-AreSafe : (cells : List (Ptr WbPgObj)) → AreSet IsSafe cells → AreSafe (made_pgs cells)
made_pgs-AreSafe [] s = tt
made_pgs-AreSafe (unset ∷ cells) s = tt
made_pgs-AreSafe (null ∷ cells) s = tt
made_pgs-AreSafe (to wb_pg ∷ cells) s = (s.0, made_pgs-AreSafe cells s.1)

made_pgs-owned :
    (cells : List (Ptr WbPgObj)) → owned_by_pgs (made_pgs cells) ≡ owned_by owned_by_pg cells
made_pgs-owned [] = refl
made_pgs-owned (unset ∷ cells) = refl
made_pgs-owned (null ∷ cells) = refl
made_pgs-owned (to wb_pg ∷ cells) = ap (λ l. owned_by_pg wb_pg ++ l) (made_pgs-owned cells)

-- The end of a buffer that has just been made, or of a part of one.
new_wb-Holds :
    (p pg_size : ℕ) (cells : List (Ptr WbPgObj)) (pg_buf : Ptr ℕ) {m m' : Mem} {rest : List ℕ}
    → AreSet IsSafe cells
    → Holds m m' (owned_by owned_by_pg cells ++ p ∷ rest)
    → Holds m (fb_destroy_write_buffer (new_wb p pg_size cells pg_buf) m') rest
new_wb-Holds p pg_size cells pg_buf {m} {m'} {rest} s h =
    fb_destroy_write_buffer-Holds (new_wb p pg_size cells pg_buf) {rest = rest}
      (made_pgs-AreSafe cells s) tt tt
      (subst (λ l. Holds m m' (l ++ p ∷ rest)) (sym (made_pgs-owned cells)) h)

abbrev pub pg_buf_of : WbObj → List ℕ
pg_buf_of wb = at_ptr wb.pg_buf_at

-- Making a write buffer and destroying it leaves nothing allocated if the making fails, at whichever
-- allocation, and exactly the page buffer if it succeeds; nothing is freed that is not allocated.
pub alloc_write_buffer-fb_destroy_write_buffer :
    (nr_max_entries pg_size : ℕ) (m : Mem)
    → Leaves pg_buf_of fb_destroy_write_buffer m (alloc_write_buffer nr_max_entries pg_size m)
unfolding alloc_write_buffer
alloc_write_buffer-fb_destroy_write_buffer nr_max_entries pg_size m =
    kmalloc-elim P (Holds-refl m) (λ m1 h. h)
      (λ p m1 h1.
        fill-elim owned_by_pg fb_create_wb_entry fb_create_wb_entry-Created P nr_max_entries h1
          (λ cells m2 h s. new_wb-Holds p pg_size cells unset s h)
          (λ cells m2 h2 f size.
            kmalloc-elim P h2
              (λ m3 h. new_wb-Holds p pg_size cells null (IsFull-AreSet IsSafe cells f) h)
              (λ b m3 h.
                new_wb-Holds p pg_size cells (to b) {rest = b ∷ []} (IsFull-AreSet IsSafe cells f) (
                  Holds-same
                    (λ q. omega (
                      arith,
                      count-append q (owned_by owned_by_pg cells) (p ∷ []),
                      count-append q (owned_by owned_by_pg cells) (p ∷ b ∷ []),
                    ))
                    h))))
  where
    P : Option WbObj × Mem → Type 0
    P = Leaves pg_buf_of fb_destroy_write_buffer m
