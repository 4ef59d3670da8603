-- ===== src/Sv2.antt =====
-- src/protocol/sv2: the messages, the jobs and the sessions of Stratum V2.
pub mod Frame
pub mod Job
pub mod JobIds
pub mod Channel
