-- ===== src/Programs.antt =====
-- cmd/merchant and cmd/paymemock: how the two services find the stand of a call and put their
-- layers round the handler.
pub mod Stack
pub mod Resolve
pub mod Handlers
pub mod Stands
