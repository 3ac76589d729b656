-- ===== src/Settlement.antt =====
-- domains/settlement and the services behind it: settlement, its outbox and the worker that drains it.
pub mod Policy
pub mod Outbox
pub mod Settle
pub mod Reconcile
