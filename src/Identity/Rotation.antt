-- ===== src/Identity/Rotation.antt =====
-- application/identity/service.py: `rotate_refresh_token`.
use visi_on_route.Prelude.{
  Bool, Option, Time, find, if◌then◌else◌, is_none, ltb, none, not, or_else, same_text, some, true,
  update_where, ℕ, ◌&&◌, ◌+◌, ◌==◌,
}
use visi_on_route.Identity.Store.{Store, User, Session, add_audit}
use visi_on_route.Identity.Sessions.{
  Service, is_open, Draw, AuthenticatedUser, add_session, revoke_family, by_token, first_membership,
}
use visi_on_route.Access.Context.{RequestContext}
use visi_on_route.Tx.{
  Action, pure, ◌>>◌, modify, raise_unless, ◌>>=◌, Error, gets, query, commit, raise,
}
use visi_on_route.Audit.{record_audit}

-- `_unused_successor`: the session that a retried rotation may replace.
abbrev pub in_grace : Service → RequestContext → Time → Session → Time → Bool
in_grace svc ctx now x revoked =
    not (svc.reuse_grace == 0)
    && is_none x.reuse_detected_at
    && not (ltb (revoked + svc.reuse_grace) now)
    && same_text x.user_agent ctx.user_agent

abbrev pub session_by_id : ℕ → Store → Option Session
session_by_id k s = find (λ (x : Session). x.id == k) s.sessions

abbrev pub still_open : Option Session → Option Session
still_open none = none
still_open (some y) = if is_open y then some y else none

unfoldable pub unused_successor : Service → RequestContext → Time → Session → Store → Option Session
unused_successor svc ctx now x s = elim x.replaced_by_id [
  | none ↦ none
  | some j ↦ elim x.revoked_at [
    | none ↦ none
    | some revoked ↦ if in_grace svc ctx now x revoked then still_open (session_by_id j s) else none
  ]
]

-- The row under an identifier is changed.
abbrev pub change_session : ℕ → (Session → Session) → Store → Store
change_session k f s = record s { sessions = update_where (λ x. x.id == k) f s.sessions }

abbrev pub revoke_now : Time → Session → Session
revoke_now now x = record x { revoked_at = some now }

-- `session.revoked_at = session.revoked_at or now`
abbrev pub stop : Time → Session → Session
stop now x = record x { revoked_at = or_else x.revoked_at (some now) }

-- Reuse of a rotated or revoked token: the family is revoked, and that is committed before the
-- error, so that the rollback of the request does not undo it.
unfoldable pub raise_alarm : RequestContext → Time → Session → Action Store (Unit {0})
raise_alarm ctx now x = do
  modify (revoke_family x.family_id true now)
  modify (add_audit (record_audit ctx x.organization_id "auth.refresh_reuse_detected" x.id))
  commit
  raise Error.invalid_credentials

-- The client never received the previous rotation: its successor is replaced.
unfoldable pub retry : RequestContext → Time → Session → Session → Action Store (Unit {0})
retry ctx now x successor = do
  modify (change_session successor.id (revoke_now now))
  modify (add_audit (record_audit ctx x.organization_id "auth.refresh_retried" x.id))

abbrev pub retry_or_alarm :
    RequestContext → Time → Session → Option Session → Action Store (Unit {0})
retry_or_alarm ctx now x none = raise_alarm ctx now x
retry_or_alarm ctx now x (some successor) = retry ctx now x successor

-- `if session.revoked_at is not None: …`
unfoldable pub check_reuse : Service → RequestContext → Time → Session → Action Store (Unit {0})
check_reuse svc ctx now x =
    if is_open x
    then pure tt
    else do successor ← gets (unused_successor svc ctx now x); retry_or_alarm ctx now x successor

abbrev pub active_user : ℕ → Store → Option User
active_user k s = elim (find (λ (u : User). u.id == k) s.users) [
  | none ↦ none
  | some u ↦ if u.is_active then some u else none
]

-- The next session of the family.
unfoldable pub next_session : Service → Draw → Session → Session
next_session svc d x = record {
  id = d.session_id;
  user_id = x.user_id;
  organization_id = x.organization_id;
  family_id = x.family_id;
  refresh_token_hash = svc.hash_opaque_secret d.token;
  user_agent = x.user_agent;
  expires_at = d.now + svc.refresh_ttl;
  revoked_at = none;
  reuse_detected_at = none;
  last_used_at = some d.now;
  replaced_by_id = none;
}

abbrev pub replace_by : ℕ → Session → Session
replace_by k x = record x { replaced_by_id = some k }

-- The presented session is revoked, its successor is added, and the two are linked.
unfoldable pub succeed : Service → Draw → Session → Action Store (Unit {0})
succeed svc d x = do
  modify (change_session x.id (stop d.now))
  add_session (next_session svc d x)
  modify (change_session x.id (replace_by d.session_id))

unfoldable pub rotate_session :
    Service → RequestContext → Draw → Session → Action Store AuthenticatedUser
rotate_session svc ctx d x = do
  check_reuse svc ctx d.now x
  raise_unless (ltb d.now x.expires_at) Error.invalid_credentials
  user ← query (active_user x.user_id) Error.invalid_credentials
  succeed svc d x
  membership ← gets (λ s. first_membership user.id s.memberships)
  pure (record {
    user = user;
    membership = membership;
    refresh_token_cleartext = d.token;
    session_id = d.session_id;
  })

unfoldable pub rotate_refresh_token :
    Service → RequestContext → Draw → ℕ → Action Store AuthenticatedUser
rotate_refresh_token svc ctx d token = do
  x ← query (by_token svc token) Error.invalid_credentials
  rotate_session svc ctx d x
