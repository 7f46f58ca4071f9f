-- ===== src/Kernel.antt =====
-- The kernel that every context uses: the protocol's errors and the effects of a call.
pub mod Errors
pub mod Effect
pub mod JsonRpc
pub mod Base64
pub mod Http
