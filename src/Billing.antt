-- ===== src/Billing.antt =====
-- internal/context/payment/billing/domain: the orders a payment settles, and the cash register
-- that it moves.
pub mod Order
pub mod Cashbox
