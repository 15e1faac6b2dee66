-- ===== src/Worker.antt =====
-- The outbox worker: worker/runner.py.
pub mod Outbox
mod Laws
mod Tests
