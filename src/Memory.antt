-- ===== src/Memory.antt =====
-- go-core/internal/memory: the collections of MongoDB and the service on them. An operation on one
-- collection is a statement of `Sql.Actions` that the server runs alone; any of them can fail.
pub mod Store
pub mod Pending
pub mod Log
pub mod Sessions
pub mod Images
pub mod Context
pub mod Compact
mod Examples
