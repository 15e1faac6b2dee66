-- ===== src/Account.antt =====
-- Account security: application/identity/account_security.py and what it uses of domain/passwords.py
-- and infrastructure/security/totp.py.
pub mod Passwords
pub mod Totp
pub mod Base
pub mod Tokens
pub mod Factors
pub mod Enrollment
pub mod Challenges
mod Refusals
mod Guessing
mod Single
mod Requests
mod Resets
mod Replays
mod Tests
