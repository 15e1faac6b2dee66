-- ===== src/Fleet.antt =====
-- Drivers, devices and assignments: application/fleet/service.py.
pub mod Service
mod Assignments
mod Tests
