-- ===== src/Writes/Pages/Trail.antt =====
-- How the pages of a block request that writes come into the write buffer, one behind the other, and
-- leave it for the device.
use flashbench.Common.{
  ℕ, ◌≡◌, ap, Option, none, some, List, [], ◌∷◌, ◌++◌, Status, success, error, ◌==◌, if◌then◌else◌,
}
use flashbench.Config.{add_u32}
use flashbench.Ut.{Ut}
use flashbench.WriteBuffer.{WriteBuffer, Data}
use flashbench.WriteBuffer.View.{view}
use flashbench.Mapping.{Ftl}
use flashbench.Writes.{WriteState}
use flashbench.Writes.Flush.{Rounds, Stopped}
use flashbench.Writes.Pages.{Incoming}

module _ (ut : Ut) (trigger_gc : Ftl → Status × Ftl) where
  -- A buffer holds what another held, and a page besides.
  abbrev pub Held : WriteBuffer ut → ℕ × Data → WriteBuffer ut → Type 0
  Held wb page wb' = (k : ℕ) → view ut wb' k ≡ (if page.0 == k then some page.1 else view ut wb k)

  -- The pages come into the buffer one behind the other, each counted, with rounds of flushes, which
  -- write the oldest pages of the buffer to the device, between them.
  pub data Came (cap : ℕ) : Incoming ut → List (ℕ × Data) → Incoming ut → Type 0 where
    over : {r : Incoming ut} → Came cap r [] r
    came :
        {r r' : Incoming ut} {page : ℕ × Data} {pages : List (ℕ × Data)} {wb : WriteBuffer ut}
        → Held r.wb page wb
        → Came cap
            (record r { wb = wb; nr_incomming_write = add_u32 r.nr_incomming_write 1 })
            pages
            r'
        → Came cap r (page ∷ pages) r'
    room :
        {r r' : Incoming ut} {pages : List (ℕ × Data)} {s : WriteState} {wb : WriteBuffer ut}
        → Rounds ut trigger_gc cap r.state r.wb s wb
        → Came cap (record r { state = s; wb = wb }) pages r'
        → Came cap r pages r'

  -- The first of the pages came in, and the flush for the next one failed.
  pub record Halted (cap : ℕ) (r : Incoming ut) (pages : List (ℕ × Data)) (r' : Incoming ut)
      : Type 0 where
    pub front : List (ℕ × Data)
    pub back : List (ℕ × Data)
    pub last : Incoming ut
    pub parts : front ++ back ≡ pages
    pub entered : Came cap r front last
    pub stopped : Stopped ut trigger_gc cap last.state last.wb r'.state r'.wb

  -- What has become of the pages.
  abbrev pub Trail : ℕ → Incoming ut → List (ℕ × Data) → Option (Status × Incoming ut) → Type 0
  Trail cap r pages none = ⊥
  Trail cap r pages (some (success, r')) = Came cap r pages r'
  Trail cap r pages (some (error, r')) = Halted cap r pages r'

  pub Trail-came :
      (cap : ℕ) (r : Incoming ut) (page : ℕ × Data) (pages : List (ℕ × Data)) (wb : WriteBuffer ut)
      (o : Option (Status × Incoming ut))
      → Held r.wb page wb
      → Trail cap
          (record r { wb = wb; nr_incomming_write = add_u32 r.nr_incomming_write 1 })
          pages
          o
      → Trail cap r (page ∷ pages) o
  Trail-came cap r page pages wb none h t = t
  Trail-came cap r page pages wb (some (success, r')) h t = came h t
  Trail-came cap r page pages wb (some (error, r')) h t = record {
    front = page ∷ t.front;
    back = t.back;
    last = t.last;
    parts = ap (page ∷◌) t.parts;
    entered = came h t.entered;
    stopped = t.stopped;
  }

  pub Trail-room :
      (cap : ℕ) (r : Incoming ut) (pages : List (ℕ × Data)) (s : WriteState) (wb : WriteBuffer ut)
      (o : Option (Status × Incoming ut))
      → Rounds ut trigger_gc cap r.state r.wb s wb
      → Trail cap (record r { state = s; wb = wb }) pages o
      → Trail cap r pages o
  Trail-room cap r pages s wb none h t = t
  Trail-room cap r pages s wb (some (success, r')) h t = room h t
  Trail-room cap r pages s wb (some (error, r')) h t = record {
    front = t.front;
    back = t.back;
    last = t.last;
    parts = t.parts;
    entered = room h t.entered;
    stopped = t.stopped;
  }
