-- ===== src/Safety.antt =====
-- Safety events: domain/safety.py and application/safety/engine.py.
pub mod Rules
pub mod Engine
mod Spacing
mod Counting
mod Kinds
mod Tests
