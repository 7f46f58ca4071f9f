-- ===== src/Simulation.antt =====
-- internal/context/simulation: what bends the stand's behaviour, the fault rules and the addresses
-- that may reach it.
pub mod Fault
pub mod Access
pub mod Config
pub mod Sandbox
