-- ===== src/Tests/Dispatching.antt =====
-- Block requests on a new device with an empty write buffer of five entries.
use flashbench.Common.{Each, ◌≡◌, refl, false, none, some, [], ◌∷◌, arith, ℕ}
use flashbench.Ut.Listing.{listing}
use flashbench.Bio.{Bios}
use flashbench.Requests.{read, write}
use flashbench.Dispatch.{Request, Kernel, Fb, make_request}
use flashbench.Dispatch.Invariant.{IsReady, make_request-IsReady}
use flashbench.Dispatch.Answers.{Completed, make_request-Completed}
use flashbench.Dispatch.Failure.{Reported, make_request-Reported}
use flashbench.Dispatch.Reading.{IsReading, make_request-IsReading}
use flashbench.Tests.Writing.{no_gc, empty_valid, empty_idle, incoming}

-- No structure is in use; the next one is at address 3.
abbrev no_bios : Bios
no_bios = record {
  fb_bio = λ p. record { req_count = 0; lpas = []; kpages = []; bio = 0 };
  live = λ p. false;
  ended = [];
  use_after_free = false;
}

abbrev kernel : Kernel
kernel = record { fbio = some 3; time_begin = 100; time_end = 120; minus_enodev = 4294967277 }

abbrev fb : Fb listing
fb = record {
  err = false;
  incoming = incoming;
  bios = no_bios;
  reads = [];
  nr_page_reads = 0;
  page_at = λ p. p ∷ [];
  bi_error = λ i. 0;
  background_gc_time_stamp = 0;
}

fb-IsReady : IsReady listing 5 fb
fb-IsReady = record { valid = empty_valid; idle = λ _. empty_idle; small = λ _. omega arith }

-- Six pages, of which the buffer has room for five, from sector 8 on.
abbrev writing : Request
writing = record {
  bio = 77;
  rw = write;
  preflush = false;
  discard = false;
  bi_sector = 8;
  bi_size = 24576;
  pages = 901 ∷ 902 ∷ 903 ∷ 904 ∷ 905 ∷ 906 ∷ [];
}

abbrev reading : Request
reading = record writing { rw = read; bio = 78 }

make_request-IsReady_example :
    Each (IsReady listing 5) (make_request listing no_gc kernel writing fb)
make_request-IsReady_example =
    make_request-IsReady listing no_gc kernel writing fb (omega arith) fb-IsReady

make_request-Completed_example :
    Each
      (λ (r : Fb listing). Completed 77 no_bios r.bios)
      (make_request listing no_gc kernel writing fb)
make_request-Completed_example =
    make_request-Completed listing no_gc kernel writing fb (omega arith) fb-IsReady refl
      (λ p e. refl) refl

granted : (p : ℕ) → some p ≡ none → ⊥
granted p e = absurd (cc)

make_request-Reported_example :
    Each (Reported listing writing fb) (make_request listing no_gc kernel writing fb)
make_request-Reported_example =
    make_request-Reported listing no_gc kernel writing fb (omega arith) fb-IsReady (granted 3)

make_request-IsReading_example :
    Each (IsReading listing reading 3 fb) (make_request listing no_gc kernel reading fb)
make_request-IsReading_example =
    make_request-IsReading listing no_gc kernel reading 3 fb (omega arith) refl refl refl refl refl
      refl
