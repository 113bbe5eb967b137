-- ===== src/Liff.antt =====
-- go-core/internal/liff: the sessions of the pages that LINE shows.
pub mod Session
mod Examples
