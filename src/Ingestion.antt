-- ===== src/Ingestion.antt =====
-- Receiving events: domain/ingestion.py and application/ingestion/service.py.
pub mod Defs
pub mod Batch
mod Dedup
mod Steps
mod Replay
mod Again
mod Laws
mod Tests
