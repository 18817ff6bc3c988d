-- ===== src/Draft.antt =====
-- The draft category tree (logo-admin/categories_draft.py), part by part.
pub mod Nodes
pub mod Moves
pub mod Rooted
pub mod Tree
pub mod Slugs
pub mod Edits
pub mod Overrides
pub mod Apart
pub mod Renames
pub mod Kept
pub mod Primaries
pub mod Hangs
pub mod Extras
pub mod Overridden
pub mod Sound
pub mod Suffixes
pub mod Search
mod Tests
mod EditTests
