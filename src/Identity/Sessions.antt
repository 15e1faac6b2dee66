-- ===== src/Identity/Sessions.antt =====
-- application/identity/service.py: starting, rotating and ending sessions. The clock, fresh
-- identifiers, the random token and the digest function are arguments.
use visi_on_route.Prelude.{
  Bool, List, Option, String, TextMethods, Time, [], any, false, find, if◌then◌else◌, is_empty,
  is_none, leb, none, not, or_empty, some, update_where, ℕ, ◌&&◌, ◌+◌, ◌==◌, ◌||◌, ◌∷◌,
}
use visi_on_route.Identity.Store.{Membership, Session, User, Store, add_audit}
use visi_on_route.Access.Context.{RequestContext}
use visi_on_route.Tx.{Action, pure, ◌>>=◌, ◌>>◌, gets, modify, raise_unless, Error}
use visi_on_route.Audit.{record_audit}

-- `IdentityService`'s settings, and the functions that it takes from libraries.
pub record Service : Type 0 where
  pub text : TextMethods
  pub hash_opaque_secret : ℕ → ℕ
  pub refresh_ttl : Time
  pub reuse_grace : Time

-- What one call draws: the moment, a session identifier, a family identifier and a random token.
pub record Draw : Type 0 where
  pub now : Time
  pub session_id : ℕ
  pub family_id : ℕ
  pub token : ℕ

pub record AuthenticatedUser : Type 0 where
  pub user : User
  pub membership : Option Membership
  pub refresh_token_cleartext : ℕ
  pub session_id : ℕ

abbrev pub is_open : Session → Bool
is_open x = is_none x.revoked_at

abbrev pub in_family : ℕ → Session → Bool
in_family f x = x.family_id == f

-- The unique indexes of `sessions`: the primary key and the token digest.
unfoldable pub is_taken : Session → Store → Bool
is_taken x s =
    any (λ (y : Session). (y.id == x.id) || (y.refresh_token_hash == x.refresh_token_hash))
      s.sessions

abbrev pub put_session : Session → Store → Store
put_session x s = record s { sessions = x ∷ s.sessions }

-- `self._db.add(session)` and the flush
unfoldable pub add_session : Session → Action Store (Unit {0})
add_session x = do
  taken ← gets (is_taken x)
  raise_unless (not taken) Error.integrity_error
  modify (put_session x)

-- The active membership with the earliest `created_at`
abbrev earlier : Membership → Option Membership → Membership
earlier m none = m
earlier m (some n) = if leb m.created_at n.created_at then m else n

unfoldable pub first_membership : ℕ → List Membership → Option Membership
first_membership user_id [] = none
first_membership user_id (m ∷ ms) =
    let rest = first_membership user_id ms in
    if (m.user_id == user_id) && m.is_active then some (earlier m rest) else rest

-- `(ctx.user_agent or "")[:400] or None`
abbrev pub kept_agent : TextMethods → Option String → Option String
kept_agent text agent =
    let kept = text.prefix 400 (or_empty agent) in if is_empty kept then none else some kept

abbrev pub organization_of : Option Membership → Option ℕ
organization_of none = none
organization_of (some m) = some m.organization_id

unfoldable pub fresh_session : Service → RequestContext → Draw → User → Option Membership → Session
fresh_session svc ctx d user membership = record {
  id = d.session_id;
  user_id = user.id;
  organization_id = organization_of membership;
  family_id = d.family_id;
  refresh_token_hash = svc.hash_opaque_secret d.token;
  user_agent = kept_agent svc.text ctx.user_agent;
  expires_at = d.now + svc.refresh_ttl;
  revoked_at = none;
  reuse_detected_at = none;
  last_used_at = some d.now;
  replaced_by_id = none;
}

unfoldable pub start_session :
    Service → RequestContext → Draw → User → Option Membership → Action Store AuthenticatedUser
start_session svc ctx d user membership = do
  let x = fresh_session svc ctx d user membership
  add_session x
  modify (add_audit (record_audit ctx (organization_of membership) "auth.login" user.id))
  pure (record {
    user = user;
    membership = membership;
    refresh_token_cleartext = d.token;
    session_id = x.id;
  })

-- `_revoke_family`
abbrev pub revoke : Time → Bool → Session → Session
revoke now reuse x = record x {
  revoked_at = some now;
  reuse_detected_at = if reuse then some now else x.reuse_detected_at;
}

unfoldable pub revoke_family : ℕ → Bool → Time → Store → Store
revoke_family family reuse now s = record s {
  sessions = update_where (λ x. in_family family x && is_open x) (revoke now reuse) s.sessions;
}

abbrev pub by_token : Service → ℕ → Store → Option Session
by_token svc token s =
    find (λ (x : Session). x.refresh_token_hash == svc.hash_opaque_secret token) s.sessions

unfoldable pub end_session : RequestContext → Time → Option Session → Action Store (Unit {0})
end_session ctx now none = pure tt
end_session ctx now (some x) = do
  modify (revoke_family x.family_id false now)
  modify (add_audit (record_audit ctx none "auth.logout" x.id))

unfoldable pub logout : Service → RequestContext → Time → ℕ → Action Store (Unit {0})
logout svc ctx now token = do found ← gets (by_token svc token); end_session ctx now found
