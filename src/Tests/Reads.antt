-- ===== src/Tests/Reads.antt =====
-- A read request: a run of `fb_build_bio` of main.c.
use flashbench.Common.{ℕ, ◌≤◌, ◌≡◌, List, [], ◌∷◌, map, length, arith}
use flashbench.Config.{nr_max_req_bio}
use flashbench.Ut.Listing.{listing}
use flashbench.Requests.{read, fb_build_bio}
use flashbench.Requests.Build.{entered, answered, fb_build_bio_lem}
use flashbench.Tests.Buffers.{buffer_1}

-- The pages 5, which is buffered, and 6.
abbrev segments : List ℕ
segments = 1000 ∷ 2000 ∷ []

fb_build_bio_lem_example :
    ((fb_build_bio listing read buffer_1 40 segments 70).0.lpas
      ≡ map (λ (e : ℕ × ℕ). e.0) (entered listing read buffer_1 5 segments))
    × ((fb_build_bio listing read buffer_1 40 segments 70).0.kpages
        ≡ map (λ (e : ℕ × ℕ). e.1) (entered listing read buffer_1 5 segments))
    × ((fb_build_bio listing read buffer_1 40 segments 70).0.req_count
        ≡ length (entered listing read buffer_1 5 segments))
    × ((fb_build_bio listing read buffer_1 40 segments 70).0.req_count ≤ nr_max_req_bio)
    × ((fb_build_bio listing read buffer_1 40 segments 70).1
        ≡ answered listing read buffer_1 5 segments)
fb_build_bio_lem_example = fb_build_bio_lem listing read buffer_1 40 segments 70 (omega arith)
