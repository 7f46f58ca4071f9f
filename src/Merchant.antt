-- ===== src/Merchant.antt =====
-- internal/context/payment/merchant: the Merchant API that the provider calls.
pub mod Transaction
pub mod Ports
pub mod Laws
pub mod Orders
pub mod Register
pub mod Service
pub mod Create
pub mod Perform
pub mod Cancel
pub mod Http
