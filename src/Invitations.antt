-- ===== src/Invitations.antt =====
-- Invitations to an organization, and the limit of its users.
pub mod Service
mod Joining
mod Limits
mod Members
mod Resending
mod Tests
