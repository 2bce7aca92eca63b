-- ===== src/Tests.antt =====
-- Runs of the models on concrete inputs, and instances of the theorems.
mod Addresses
mod Buses
mod Buffers
mod Mappings
mod Reads
mod Setups
mod Writing
mod Dispatching
mod Collecting
mod Loading
mod Reading
