-- ===== src/Bus.antt =====
-- The bus controllers of bus_controller.c: the operation queue of a chip, the busy state of a chip,
-- and the thread that serves both.
pub mod Fifo
pub mod Queue
pub mod Busy
pub mod Controller
pub mod Setup
