-- ===== src/Tx.antt =====
-- The database session of a request (api/deps.py `_open_session`, infrastructure/db/engine.py) and
-- the errors of application/errors.py. A service method is an action on a session: what it wrote
-- is in `current`, what a `commit` has made permanent is in `durable`. A method that raises keeps
-- what it wrote before; the request then rolls back.
mod Defs
mod Rules
mod Triples
pub use Defs.{
  Error, Result, ok, err, Tx, Action, pure, raise, gets, modify, commit, raise_unless, or_raise,
  query, lift, ◌>>=◌, ◌>>◌, Result-cases, request,
}
pub use Rules.*
pub use Triples.*
