-- ===== src/Tests/Loading.antt =====
-- A loading where the write buffer is refused.
use flashbench.Common.{ℕ, Bool, true, not, ◌==◌}
use flashbench.Driver.{write_buffer, fb_init}
use flashbench.Driver.Balance.{Loaded, unloaded, fb_init-Loaded}

abbrev granted : ℕ → Bool
granted p = not (p == write_buffer)

fb_init-Loaded_example : Loaded true (fb_init granted true unloaded)
fb_init-Loaded_example = fb_init-Loaded granted true
