-- ===== src/Parser.antt =====
-- go-core/internal/parser: number words of Thai, and answers of a vision model.
pub mod Amount
pub mod Repr
pub mod Patterns
pub mod Counterparty
pub mod Parse
mod Examples
