-- ===== src/Dispatcher.antt =====
-- go-core/internal/dispatcher: what the bot does with an event from LINE.
pub mod Phrases
pub mod Answers
pub mod Chat
pub mod Replies
pub mod Allocate
pub mod Pending
pub mod Household
pub mod Business
pub mod Prompt
pub mod Image
pub mod Recall
pub mod Talk
pub mod Text
pub mod Event
pub mod Does
pub mod Silent
pub mod Handled
pub mod Sound
mod Examples
pub mod Isolated
pub mod Unwritten
