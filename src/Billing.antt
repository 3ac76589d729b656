-- ===== src/Billing.antt =====
-- What a request costs and how its price is held and debited: apps/api/src/domains/billing and the
-- balance operations of the customers repository.
pub mod Balance
pub mod Charges
pub mod Estimate
pub mod Workflow
