-- ===== src/Planner.antt =====
-- The plan of one blog (logo-admin/categories_planner.py), part by part.
pub mod Types
pub mod Names
pub mod Dispositions
pub mod Survivors
pub mod Terms
pub mod Creates
pub mod Memberships
pub mod Redirects
pub mod Plan
pub mod Collisions
pub mod Delivery
pub mod Doomed
pub mod Converged
pub mod Settles
pub mod Guided
pub mod Resolved
mod Tests
