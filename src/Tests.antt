-- ===== src/Tests.antt =====
-- Concrete crates, a concrete platform, and the theorems at concrete inputs.
pub mod Codecs
pub mod Rules
pub mod Host
pub mod Data
mod Witnesses
mod Runs
pub mod Sending
pub mod Receiving
pub mod Polling
mod Polls
mod CloseExchange
mod Conversation
