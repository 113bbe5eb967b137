-- ===== src/Line.antt =====
-- go-core/internal/line: what stands between a message from LINE and the rest.
pub mod RateLimit
mod Examples
