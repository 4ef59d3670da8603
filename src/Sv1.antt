-- ===== src/Sv1.antt =====
-- src/protocol/sv1.rs: the requests of a Stratum V1 miner, and the pool's replies. JSON (crate
-- `serde_json`) is a parameter; texts are their UTF-8 bytes.
pub mod Json
pub mod Parse
pub mod Reply
