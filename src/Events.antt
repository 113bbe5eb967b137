-- ===== src/Events.antt =====
-- go-core/internal/events: the outbox relay, and the consumer of the stream.
pub mod Subject
pub mod Relay
mod Examples
