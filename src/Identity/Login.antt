-- ===== src/Identity/Login.antt =====
-- application/identity/service.py: `authenticate`, with the lockout after failed attempts. The
-- check of a password against its digest is a library's.
use visi_on_route.Prelude.{
  Bool, List, Option, String, TextMethods, Time, [], false, find, if◌then◌else◌, leb, ltb, minutes,
  none, not, some, str_eq, update_where, ℕ, ◌+◌, ◌==◌, ◌∷◌,
}
use visi_on_route.Identity.Store.{Store, User, Membership, add_audit}
use visi_on_route.Tx.{
  Action, ◌>>◌, modify, request, ◌>>=◌, commit, gets, query, Error, raise, pure, raise_unless,
}
use visi_on_route.Access.Context.{RequestContext}
use visi_on_route.Audit.{record_audit}
use visi_on_route.Identity.Sessions.{first_membership}

-- What `authenticate` takes from libraries: `str.strip` and `str.lower`, the database's `lower`,
-- and `verify_password digest password`.
pub record Logins : Type 0 where
  pub text : TextMethods
  pub lower : String → String
  pub database_lower : String → String
  pub verify_password : ℕ → String → Bool

abbrev pub has_email : Logins → String → User → Bool
has_email l email u = str_eq (l.database_lower u.email) (l.lower (l.text.strip email))

-- `get_user_by_email`
abbrev pub user_by_email : Logins → String → Store → Option User
user_by_email l email s = find (has_email l email) s.users

abbrev pub change_user : ℕ → (User → User) → Store → Store
change_user k f s = record s { users = update_where (λ u. u.id == k) f s.users }

-- `user.locked_until is not None and user.locked_until > now`
abbrev pub is_locked : Time → User → Bool
is_locked now u = elim u.locked_until [ none ↦ false | some t ↦ ltb now t ]

-- A failed attempt reaches the limit of ten.
abbrev pub reaches_limit : User → Bool
reaches_limit u = leb 10 (u.failed_login_count + 1)

abbrev pub fail : Time → User → User
fail now u =
    if reaches_limit u
    then record u { locked_until = some (now + minutes 15); failed_login_count = 0 }
    else record u { failed_login_count = u.failed_login_count + 1 }

-- The audit of a lock
abbrev pub audit_lock : RequestContext → User → Store → Store
audit_lock ctx u s =
    if reaches_limit u then add_audit (record_audit ctx none "auth.account_locked" u.id) s else s

-- The failed attempt is committed before the error, so that the rollback does not undo it.
unfoldable pub reject : RequestContext → Time → User → Action Store (User × Option Membership)
reject ctx now u = do
  modify (change_user u.id (fail now))
  modify (audit_lock ctx u)
  commit
  raise Error.invalid_credentials

abbrev pub clear : User → User
clear u = record u { failed_login_count = 0; locked_until = none }

unfoldable pub admit : User → Action Store (User × Option Membership)
admit u = do
  modify (change_user u.id clear)
  membership ← gets (λ s. first_membership u.id s.memberships)
  pure (clear u, membership)

abbrev pub found_user : Logins → String → Store → Option User
found_user l email s = elim (user_by_email l email s) [
  | none ↦ none
  | some u ↦ if u.is_active then some u else none
]

unfoldable pub authenticate :
    Logins → RequestContext → Time → String → String → Action Store (User × Option Membership)
authenticate l ctx now email password = do
  u ← query (found_user l email) Error.invalid_credentials
  raise_unless (not (is_locked now u)) Error.account_locked
  if l.verify_password u.password_hash password then admit u else reject ctx now u

-- The store after one attempt
abbrev pub attempt : Logins → RequestContext → String → Time × String → Store → Store
attempt l ctx email (now, password) s = (request (authenticate l ctx now email password) s).1

abbrev pub attempt_all : Logins → RequestContext → String → List (Time × String) → Store → Store
attempt_all l ctx email [] s = s
attempt_all l ctx email (a ∷ rest) s = attempt_all l ctx email rest (attempt l ctx email a s)
