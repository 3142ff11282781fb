-- ===== src/Lifecycle.antt =====
-- src/lifecycle.rs
pub mod Types
pub mod Observe
pub mod Bootstrap
pub mod Soundness
pub mod Ready
pub mod Wake
pub mod Deadline
pub mod Seeing
pub mod Leases
pub mod Tasks
