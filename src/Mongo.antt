-- ===== src/Mongo.antt =====
-- The document store as the repositories use it: a collection with atomic one-document operations.
-- MongoDB is not part of this repository: the operations are parameters, and `IsCollection` states
-- the documented behaviour that the repositories rely on. A filter document is read as a test on
-- documents, and an update document as a function on them.
mod Rows
mod InMemory
pub use Rows.*
pub use InMemory.{Listing, in_memory, in_memory-IsCollection}
unfoldable pub use InMemory.{select}
pub mod Laws
