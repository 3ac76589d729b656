-- ===== src/Settlement/Reconcile.antt =====
-- The worker that settles the rows of the outbox: apps/api/src/services/settlement-reconcile.ts.
pub mod Thaw
pub mod Worker
pub mod Recorded
pub mod Terms
pub mod Late
mod Examples
