-- ===== src/Coaching.antt =====
-- Coaching of drivers: domain/coaching.py and application/coaching/service.py.
pub mod Status
pub mod Store
pub mod Service
pub mod Commands
pub mod Changes
pub mod Shape
pub mod Validity
mod Stages
mod Update
mod Create
mod Answer
pub mod Requests
mod Moves
mod Tests
