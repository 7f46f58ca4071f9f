-- ===== src/Tests.antt =====
-- Small stands on which the theorems are tried, and the witnesses.
mod Shop
mod Programs
mod Handlers
mod Database
mod Vault
pub mod Merchant
pub mod Subscribe
mod Receipts
mod Money
mod Faults
mod Http
mod Calls
mod Client
mod Checkout
mod Console
