-- ===== src/Mail.antt =====
-- Delivery of queued e-mail: application/mail/delivery.py.
pub mod Delivery
mod Secrets
mod Finished
mod Tests
