-- ===== src/Mapping/Turns.antt =====
-- Writes take turns on the chips.
use flashbench.Common.{◌<◌, ◌≡◌, ◌≢◌, arith}
use flashbench.Config.{num_buses, num_chips_per_bus}
use flashbench.Mapping.{Ftl, get_next_bus_chip, set_prev_bus_chip}

-- The manager names a chip of the device.
abbrev pub InRange : Ftl → Type 0
InRange ftl = (ftl.mru_bus < num_buses) × (ftl.mru_chip < num_chips_per_bus)

abbrev pub turn : Ftl → Ftl
turn ftl = set_prev_bus_chip ftl (get_next_bus_chip ftl).0 (get_next_bus_chip ftl).1

-- From a chip of the device, the next turn is on another chip of the device, and the turn behind that
-- one on the first chip again: all chips are used in equal parts.
pub turn-InRange :
    (ftl : Ftl)
    → InRange ftl
    → InRange (turn ftl)
      × ((turn ftl).mru_chip ≢ ftl.mru_chip)
      × ((turn (turn ftl)).mru_bus ≡ ftl.mru_bus)
      × ((turn (turn ftl)).mru_chip ≡ ftl.mru_chip)
unfolding get_next_bus_chip set_prev_bus_chip
turn-InRange ftl h = ground arith
