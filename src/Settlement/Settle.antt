-- ===== src/Settlement/Settle.antt =====
-- Settlement of a request: apps/api/src/domains/settlement/settle.ts, with the transaction of
-- apps/api/src/infrastructure/mongo/session.ts.
pub mod Record
pub mod Transaction
pub mod Usage
pub mod Context
pub mod OrOutbox
pub mod Found
pub mod Paying
pub mod Once
pub mod Facts
pub mod Exact
pub mod Kept
pub mod Sample
mod Examples
