-- ===== src/Tests.antt =====
-- The theorems at concrete inputs.
pub mod Doubles
mod Template
mod Validator
mod Security
mod Vardiff
mod Engine
mod Json
mod Handlers
mod Tip
mod Sv2
mod Session
