-- ===== src/Saas.antt =====
-- Subscriptions and the limits of their plans: application/saas/service.py.
pub mod Plans
pub mod Growth
mod Limits
mod Vehicles
mod Tests
