-- ===== src/Access.antt =====
-- Who may do what: domain/permissions.py and application/context.py.
pub mod Permissions
pub mod Context
mod Laws
mod Tests
