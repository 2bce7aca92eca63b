-- ===== src/Bus/Controller/Issue.antt =====
-- The second phase of a round, for one chip: it never fails on a valid queue.
use flashbench.Common.{
  ℕ, ◌<◌, ◌≡◌, ◌≢◌, refl, sym, ap, ap₂, ◌∙◌, inl, inr, true, false, ◌||◌, some, List, [], ◌∷◌,
  arith, ◌==◌, update, update_self, update_ne, update_cases, ℕ_discrete, Bool-cases, get_or,
}
use flashbench.Bus.Queue.{OprQueue, Operation, Status, opr_queue_remove_first}
use flashbench.Bus.Queue.Invariant.{
  IsValid, removed, opr_queue_remove_first_some, opr_queue_remove_first-IsValid,
}
use flashbench.Bus.Queue.Refine.{
  contents, contents-removed, contents_empty, opr_queue_get_first_waiting, blank,
}
use flashbench.Bus.Busy.{ChipBusy, is_acquired, acquire_busy_lock}
use flashbench.Bus.Controller.{State, start_operation, issue_if_free}
use flashbench.Bus.Controller.View.{serve, chip_view}

-- What phase 2 does for one chip.
pub record Issues (time chip : ℕ) (s s' : State) : Type 0 where
  pub valid : (c : ℕ) → IsValid (s.opr_queue c) → IsValid (s'.opr_queue c)
  pub here : chip_view s' chip ≡ serve time (contents (s.opr_queue chip)) (s.chip_busies chip)
  pub other : (c : ℕ) → c ≢ chip → chip_view s' c ≡ chip_view s c
  pub same_bios : s'.bios ≡ s.bios
  pub same_max : (c : ℕ) → (s'.opr_queue c).num_max_entries ≡ (s.opr_queue c).num_max_entries

-- The chip is busy, or nothing waits for it.
serve_nothing :
    (time : ℕ) (n : ℕ) (f : List Operation) (busy : ChipBusy)
    → (n ≡ 0 → f ≡ [])
    → (n == 0 || is_acquired busy) ≡ true
    → serve time f busy ≡ (f, busy)
serve_nothing time n [] busy h e = refl
serve_nothing time n (o ∷ f) busy h e = elim (ℕ_discrete n 0) [
  | yes z ↦ absurd (cc (h z))
  | no nz ↦ ground arith
]

issue_nothing :
    (time chip : ℕ) (s : State)
    → ((s.opr_queue chip).num_entries == 0 || is_acquired (s.chip_busies chip)) ≡ true
    → issue_if_free time chip s ≡ some s
unfolding issue_if_free
issue_nothing time chip s e = rw e

nothing-Issues :
    (time chip : ℕ) (s : State)
    → ((s.opr_queue chip).num_entries == 0 || is_acquired (s.chip_busies chip)) ≡ true
    → Issues time chip s s
nothing-Issues time chip s e = record {
  valid = λ c v. v;
  here = sym (
      serve_nothing time (s.opr_queue chip).num_entries (contents (s.opr_queue chip))
        (s.chip_busies chip) (contents_empty (s.opr_queue chip)) e);
  other = λ c ne. refl;
  same_bios = refl;
  same_max = λ c. refl;
}

module _ (time chip : ℕ) (s : State) (v : IsValid (s.opr_queue chip))
    (e : ((s.opr_queue chip).num_entries == 0 || is_acquired (s.chip_busies chip)) ≡ false) where
  queue : OprQueue
  queue = s.opr_queue chip

  first : Operation
  unfolding queue
  first = get_or queue.opr_list queue.queue_tail blank

  started : State
  unfolding first
  started = record s {
    controller = record {
      opr_queue = update s.opr_queue chip (opr_queue_remove_first queue).1;
      chip_busies =
          update s.chip_busies chip (acquire_busy_lock time first.operation first.ptr_fb_bio);
    };
  }

  waits : 0 < queue.num_entries
  unfolding queue
  waits = ground arith

  free : is_acquired (s.chip_busies chip) ≡ false
  free = ground arith

  issue_first : issue_if_free time chip s ≡ some started
  unfolding issue_if_free started start_operation
  issue_first = rw (e, opr_queue_get_first_waiting v waits)

  serve_first :
      serve time (contents queue) (s.chip_busies chip)
      ≡ (contents (removed queue), acquire_busy_lock time first.operation first.ptr_fb_bio)
  unfolding first
  serve_first = rw (contents-removed queue waits, free)

  started-Issues : Issues time chip s started
  unfolding started queue
  started-Issues = record {
    valid = λ c w. update_cases IsValid s.opr_queue chip c _ (opr_queue_remove_first-IsValid v) w;
    here =
        ap₂ (λ q b. (contents q, b))
          (update_self s.opr_queue chip _
            ∙ ap (λ (r : Status × OprQueue). r.1) (opr_queue_remove_first_some v waits))
          (update_self s.chip_busies chip _)
        ∙ sym serve_first;
    other = λ c ne.
        ap₂ (λ q b. (contents q, b)) (update_ne s.opr_queue _ (λ p. ne (sym p)))
          (update_ne s.chip_busies _ (λ p. ne (sym p)));
    same_bios = refl;
    same_max = λ c. kept c (ℕ_discrete chip c);
  }
    where
      kept :
          (c : ℕ)
          → Dec (chip ≡ c)
          → (update s.opr_queue chip (opr_queue_remove_first queue).1 c).num_max_entries
            ≡ (s.opr_queue c).num_max_entries
      kept c (yes e) =
          ap (λ (q : OprQueue). q.num_max_entries)
            (ap (update s.opr_queue chip (opr_queue_remove_first queue).1) (sym e)
              ∙ update_self s.opr_queue chip _
              ∙ ap (λ (r : Status × OprQueue). r.1) (opr_queue_remove_first_some v waits))
          ∙ ap (λ i. (s.opr_queue i).num_max_entries) e
      kept c (no ne) = ap (λ (q : OprQueue). q.num_max_entries) (update_ne s.opr_queue _ ne)

-- Phase 2 never fails on a valid queue.
pub issue_if_free-Issues :
    (time chip : ℕ) (s : State)
    → IsValid (s.opr_queue chip)
    → (s' : State) × (issue_if_free time chip s ≡ some s') × Issues time chip s s'
issue_if_free-Issues time chip s v =
    elim (Bool-cases ((s.opr_queue chip).num_entries == 0 || is_acquired (s.chip_busies chip))) [
      | inl e ↦ (s, issue_nothing time chip s e, nothing-Issues time chip s e)
      | inr e ↦
          (started time chip s v e, issue_first time chip s v e, started-Issues time chip s v e)
    ]
