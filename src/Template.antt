-- ===== src/Template.antt =====
-- src/bitcoin/template.rs: from a block template to a Stratum job.
pub mod Job
pub mod Merkle
pub mod Target
pub mod PrevHash
pub mod Coinbase
pub mod Build
