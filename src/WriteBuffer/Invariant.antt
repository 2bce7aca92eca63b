-- ===== src/WriteBuffer/Invariant.antt =====
-- The invariant of the write buffer: every entry is in exactly one of its lists, and the hash table
-- finds exactly the entries that hold a page, each under its logical address.
use flashbench.Common.{
  ℕ, ◌+◌, ◌≤◌, ◌<◌, ◌≡◌, ◌≢◌, ap, Bool, true, false, Option, none, some, arith, length, update,
  update_self, update_ne,
}
use flashbench.Common.Counts.{count, same}
use flashbench.Config.{u32_mod}
use flashbench.Ut.{Ut}
use flashbench.WriteBuffer.{WriteBuffer, WbPg}

-- An entry that an operation has taken out of its list and not yet put into another.
abbrev pub held_at : ℕ → Option ℕ → ℕ
held_at q none = 0
held_at q (some p) = same p q

abbrev pub held_size : Option ℕ → ℕ
held_size none = 0
held_size (some p) = 1

module _ (pg : ℕ → WbPg) (p : ℕ) (b : Bool) where
  -- The entries with the flag of one of them set to `b`.
  abbrev pub flagged : ℕ → WbPg
  flagged = update pg p (record (pg p) { wflag = b })

  pub lpa-flagged : (q : ℕ) → (flagged q).lpa ≡ (pg q).lpa
  lpa-flagged q = ground (arith, ap (λ i. (pg i).lpa) {x = p} {y = q})

  pub data_of-flagged : (q : ℕ) → (flagged q).data_of ≡ (pg q).data_of
  data_of-flagged q = ground (arith, ap (λ i. (pg i).data_of) {x = p} {y = q})

  pub wflag-flagged_self : (flagged p).wflag ≡ b
  wflag-flagged_self = ap (λ (w : WbPg). w.wflag) (update_self pg p _)

  pub wflag-flagged_ne : (q : ℕ) → p ≢ q → (flagged q).wflag ≡ (pg q).wflag
  wflag-flagged_ne q ne = ap (λ (w : WbPg). w.wflag) (update_ne pg _ ne)

module _ (ut : Ut) where
  open ut use {hash_find}

  -- How many of the lists hold a page's entry.
  abbrev pub listed : WriteBuffer ut → ℕ → ℕ
  listed wb q = count q wb.writing_pgs + count q wb.buf_pgs

  -- `cap` entries; between two statements of an operation one of them may be held.
  pub record IsValid (cap : ℕ) (held : Option ℕ) (wb : WriteBuffer ut) : Type 0 where
    pub small : cap < u32_mod
    pub sized : wb.nr_entries ≡ length wb.buf_pgs
    pub total :
        length wb.free_pgs + length wb.writing_pgs + length wb.buf_pgs + held_size held ≡ cap
    pub once : (q : ℕ) → count q wb.free_pgs + listed wb q + held_at q held ≤ 1
    pub writing_flag : (q : ℕ) → 0 < count q wb.writing_pgs → (wb.pg q).wflag ≡ true
    pub buf_flag : (q : ℕ) → 0 < count q wb.buf_pgs → (wb.pg q).wflag ≡ false
    pub free_flag : (q : ℕ) → 0 < count q wb.free_pgs + held_at q held → (wb.pg q).wflag ≡ false
    pub found :
        (k q : ℕ)
        → hash_find wb.hash_pgs k ≡ some q
        → ((wb.pg q).lpa ≡ k) × (0 < listed wb q + held_at q held)
    pub hashed :
        (q : ℕ) → 0 < listed wb q + held_at q held → hash_find wb.hash_pgs (wb.pg q).lpa ≡ some q
