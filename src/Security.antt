-- ===== src/Security.antt =====
-- src/security/mod.rs: bans, connection rates and per-session guards. An `Instant` is a number of
-- nanoseconds on the monotonic clock; each reading of the clock is an argument.
pub mod ShareRate
pub mod Table
pub mod Bans
pub mod Connections
pub mod Guard
