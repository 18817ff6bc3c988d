-- ===== src/Mix.antt =====
-- Product mixes: which products a store carries (logo-admin/mix_service.py and its callers), part by
-- part.
pub mod Types
pub mod Seeds
pub mod Service
pub mod Commands
pub mod Styles
pub mod Routes
pub mod Counts
pub mod Nonempty
pub mod Preserved
pub mod Steps
pub mod Kept
pub mod Reachable
pub mod Contracts
pub mod Edits
pub mod Config
pub mod Agrees
mod Tests
