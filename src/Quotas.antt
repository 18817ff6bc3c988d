-- ===== src/Quotas.antt =====
-- Cost and request reservations of the assistant (logo-admin/quotas.py), part by part.
pub mod Types
pub mod Reserve
pub mod Settle
pub mod Cleanup
pub mod Rules
pub mod Balance
pub mod Reserving
pub mod Settling
pub mod Sweeping
pub mod Swept
pub mod Accounts
pub mod Cleaning
pub mod Steps
pub mod Known
pub mod Sound
pub mod Always
mod Tests
