-- ===== src/Account/Enrollment.antt =====
-- Setting up, confirming and ending two-factor authentication.
use visi_on_route.Prelude.{
  Bool, List, Option, String, Time, [], any, false, find, is_none, is_some, none, not, same, select,
  some, true, ℕ, ◌&&◌, ◌==◌, ◌||◌, ◌∷◌,
}
use visi_on_route.Identity.Store.{Store, User, Membership, MfaRecoveryCode}
use visi_on_route.Account.Base.{
  Security, notify, save_user, audit_user, require_user, decrypt, reauthenticate,
  revoke_all_sessions,
}
use visi_on_route.Tx.{
  lift, Action, ◌>>◌, modify, raise_unless, ◌>>=◌, Error, gets, or_raise, pure, query,
}
use visi_on_route.Access.Context.{RequestContext}
use visi_on_route.Access.Permissions.{RoleKey}
use visi_on_route.Account.Totp.{matching_time_step}
use visi_on_route.Account.Factors.{verify_second_factor}

unfoldable pub begin_mfa_setup : Security → RequestContext → ℕ → ℕ → String → Action Store ℕ
begin_mfa_setup sec ctx secret user_id password = do
  u ← require_user user_id
  reauthenticate sec u password
  raise_unless (is_none u.mfa_enabled_at) Error.domain_conflict
  raise_unless sec.has_cipher Error.service_not_configured
  modify (save_user (record u { mfa_pending_secret_enc = some (sec.encrypt secret) }))
  modify (audit_user ctx "auth.mfa_setup_started" u)
  pure secret

abbrev pub not_of : ℕ → MfaRecoveryCode → Bool
not_of user_id c = not (c.user_id == user_id)

abbrev pub drop_codes : ℕ → Store → Store
drop_codes user_id s = record s { recovery_codes = select (not_of user_id) s.recovery_codes }

-- Each new code comes with the identifier that is drawn for it.
abbrev pub put_codes :
    Security → ℕ → List (ℕ × String) → List MfaRecoveryCode → List MfaRecoveryCode
put_codes sec user_id [] rows = rows
put_codes sec user_id ((k, code) ∷ codes) rows =
    record { id = k; user_id = user_id; code_hash = sec.hash_recovery_code code; used_at = none }
    ∷ put_codes sec user_id codes rows

-- The identifiers and the digests are unique for a user.
abbrev pub repeats : Security → List (ℕ × String) → List MfaRecoveryCode → Bool
repeats sec [] rows = false
repeats sec ((k, code) ∷ codes) rows =
    any (λ (c : MfaRecoveryCode). c.id == k) rows
    || any
        (λ (p : ℕ × String).
          (p.0 == k) || (sec.hash_recovery_code p.1 == sec.hash_recovery_code code))
        codes
    || repeats sec codes rows

-- `_replace_recovery_codes`
unfoldable pub replace_recovery_codes :
    Security → ℕ → List (ℕ × String) → Action Store (List (ℕ × String))
replace_recovery_codes sec user_id codes = do
  modify (drop_codes user_id)
  taken ← gets (λ (s : Store). repeats sec codes s.recovery_codes)
  raise_unless (not taken) Error.integrity_error
  modify (λ (s : Store). record s { recovery_codes = put_codes sec user_id codes s.recovery_codes })
  pure codes

abbrev pub with_mfa : Time → ℕ → ℕ → User → User
with_mfa now value step u = record u {
  mfa_totp_secret_enc = some value;
  mfa_pending_secret_enc = none;
  mfa_enabled_at = some now;
  mfa_last_used_step = some step;
}

unfoldable pub confirm_mfa :
    Security
    → RequestContext
    → Time
    → List (ℕ × String)
    → ℕ
    → String
    → Action Store (List (ℕ × String))
confirm_mfa sec ctx now codes user_id code = do
  u ← require_user user_id
  raise_unless (is_none u.mfa_enabled_at) Error.domain_conflict
  value ← or_raise u.mfa_pending_secret_enc Error.domain_conflict
  secret ← decrypt sec value
  matched ← lift (matching_time_step sec.totp_text secret code now)
  step ← or_raise matched Error.invalid_mfa_code
  modify (save_user (with_mfa now value step u))
  fresh ← replace_recovery_codes sec u.id codes
  modify (audit_user ctx "auth.mfa_enabled" u)
  notify sec u
  pure fresh

-- `_clear_mfa`
abbrev pub clear_mfa : User → User
clear_mfa u = record u {
  mfa_totp_secret_enc = none;
  mfa_pending_secret_enc = none;
  mfa_enabled_at = none;
  mfa_last_used_step = none;
}

unfoldable pub disable_mfa :
    Security → RequestContext → Time → ℕ → String → String → Action Store (Unit {0})
disable_mfa sec ctx now user_id password code = do
  u ← require_user user_id
  reauthenticate sec u password
  raise_unless (is_some u.mfa_enabled_at) Error.domain_conflict
  verify_second_factor sec ctx u code now
  modify (save_user (clear_mfa u))
  modify (drop_codes u.id)
  modify (audit_user ctx "auth.mfa_disabled" u)
  notify sec u

unfoldable pub regenerate_recovery_codes :
    Security
    → RequestContext
    → Time
    → List (ℕ × String)
    → ℕ
    → String
    → String
    → Action Store (List (ℕ × String))
regenerate_recovery_codes sec ctx now codes user_id password code = do
  u ← require_user user_id
  reauthenticate sec u password
  raise_unless (is_some u.mfa_enabled_at) Error.domain_conflict
  verify_second_factor sec ctx u code now
  fresh ← replace_recovery_codes sec u.id codes
  modify (audit_user ctx "auth.mfa_recovery_codes_regenerated" u)
  notify sec u
  pure fresh

abbrev pub is_membership : ℕ → ℕ → Membership → Bool
is_membership k org m = (m.id == k) && (m.organization_id == org)

abbrev pub membership_of : ℕ → ℕ → Store → Option Membership
membership_of k org s = find (is_membership k org) s.memberships

abbrev pub is_owner : Option RoleKey → Bool
is_owner (some RoleKey.owner) = true
is_owner _ = false

-- A membership of the same person in another organization
abbrev pub is_elsewhere : ℕ → Membership → Membership → Bool
is_elsewhere org m n = (n.user_id == m.user_id) && not (n.organization_id == org)

unfoldable pub reset_member : Security → RequestContext → Time → ℕ → Membership → Action Store User
reset_member sec ctx now org m = do
  raise_unless (ctx.is_platform_admin || is_owner ctx.role) Error.permission_denied
  raise_unless (not (same (some m.user_id) ctx.user_id)) Error.domain_conflict
  elsewhere ← gets (λ (s : Store). any (is_elsewhere org m) s.memberships)
  raise_unless (not elsewhere) Error.domain_conflict
  u ← require_user m.user_id
  raise_unless (is_some u.mfa_enabled_at) Error.domain_conflict
  modify (save_user (clear_mfa u))
  modify (drop_codes u.id)
  modify (revoke_all_sessions u.id now)
  modify (audit_user ctx "auth.mfa_reset_by_admin" u)
  notify sec u
  pure (record (clear_mfa u) { sessions_revoked_at = some now })

unfoldable pub admin_reset_mfa : Security → RequestContext → Time → ℕ → Action Store User
admin_reset_mfa sec ctx now membership_id = do
  org ← or_raise ctx.organization_id Error.domain_not_found
  m ← query (membership_of membership_id org) Error.domain_not_found
  reset_member sec ctx now org m
