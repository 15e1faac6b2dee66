-- ===== src/Identity.antt =====
-- Accounts and sessions: application/identity/service.py.
pub mod Store
pub mod Sessions
pub mod Rotation
mod Families
mod Closing
mod Rotating
mod Rotated
mod Succession
mod Requests
mod Guarantees
pub mod Login
mod Lockout
mod Tests
