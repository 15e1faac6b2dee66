-- ===== src/Privacy.antt =====
-- Data-subject requests and retention: domain/privacy.py and application/privacy.
pub mod Retention
pub mod Runs
pub mod Store
pub mod Service
pub mod Erasing
pub mod Processor
mod Retained
mod Evolution
mod Effects
mod Singles
mod Lifecycle
mod Histories
mod Erasure
mod Purge
mod Purged
mod Tests
