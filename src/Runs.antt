-- ===== src/Runs.antt =====
-- Apply runs and their job worker (logo-admin/categories_runs.py), part by part.
pub mod Types
pub mod Readiness
pub mod Store
pub mod Strict
pub mod Restores
pub mod Controls
pub mod Engine
pub mod Exclusive
pub mod Ensures
pub mod Operations
pub mod Fresh
pub mod Jobs
pub mod Single
pub mod Steps
pub mod Worker
pub mod Completed
pub mod Created
pub mod Ends
pub mod Terminates
mod Tests
