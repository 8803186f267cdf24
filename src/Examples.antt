-- ===== src/Examples.antt =====
-- Concrete libraries, sessions and stores, and the theorems of this library applied to them.
pub mod Wallet
pub mod Runs
pub mod Answers
pub mod Resolving
pub mod Stores
pub mod Lifecycle
pub mod Responding
pub mod Internal
pub mod Caches
pub mod Rows
pub mod Creating
pub mod Delivering
pub mod Parts
pub mod Service
pub mod Startup
pub mod Publishing
pub mod Once
