-- ===== src/Engine.antt =====
-- core/src/p2p/engine.rs: the parts of the engine that keep their own state.
pub mod Session
pub mod Steps
pub mod Answers
pub mod Queue
pub mod Transfers
pub mod Outgoing
pub mod Inbox
pub mod Calls
pub mod Peers
pub mod Leaving
pub mod Sending
pub mod Contacts
pub mod Messages
mod Tests
mod Examples
