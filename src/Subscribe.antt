-- ===== src/Subscribe.antt =====
-- internal/context/payment/subscribe: the Subscribe API, cards and receipts.
pub mod Outcome
pub mod Card
pub mod Receipt
pub mod Ports
pub mod Laws
pub mod View
pub mod Cards
pub mod Receipts
pub mod Payouts
pub mod Http
pub mod Client
pub mod Inmem
