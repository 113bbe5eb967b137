-- ===== src/Ledger.antt =====
-- go-core/internal/ledger: the transactions, journal and projections that the bot keeps.
pub mod Tables
pub mod Accounts
pub mod Journal
pub mod Allocations
pub mod Events
pub mod Tenants
pub mod Writer
pub mod Update
pub mod Business
pub mod Household
pub mod Projects
pub mod Money
pub mod Resolve
pub mod Reader
pub mod Summary
pub mod Reads
pub mod Atomic
pub mod Books
pub mod Check
mod Examples
