-- ===== src/Chat.antt =====
-- internal/chat/chat.go: `Service.Answer` and its helpers. `Types` has the data and the services
-- behind it, `Prompt` the prompt, `Steps` the
-- parts of the path and `Answer` the path itself; the rest states what it keeps to.
pub mod Types
pub mod Prompt
pub mod Steps
pub mod Answer
pub mod Panics
pub mod Replay
pub mod Recorded
pub mod Effects
pub mod Search
pub mod Corpus
pub mod Events
pub mod Version
pub mod Sample
mod Tests
