-- ===== src/Examples.antt =====
-- The theorems at concrete inputs, and tests of the definitions.
mod Hosts
mod Calls
mod States
mod Ticks
mod Records
mod Callers
mod Runs
mod Launches
mod Canvases
mod Signals
