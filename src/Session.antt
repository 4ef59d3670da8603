-- ===== src/Session.antt =====
-- src/network/session.rs: the reader of a session's lines, its extranonce, its state, its handlers
-- and its loop.
pub mod Reader
pub mod Extranonce
pub mod State
pub mod Setup
pub mod Submit
pub mod Dispatch
pub mod Events
pub mod Invariant
pub mod Tally
pub mod Told
