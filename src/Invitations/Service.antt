-- ===== src/Invitations/Service.antt =====
-- The invitations of application/identity/service.py, with `enforce_user_limit` of
-- application/saas/service.py. What only the text of an e-mail uses, and events that nothing
-- reads, are not kept.
use visi_on_route.Prelude.{
  Bool, Option, String, Time, any, count, false, find, if◌then◌else◌, is_empty, is_none, is_some,
  ltb, none, not, or_else, or_empty, same, some, str_eq, true, update_where, ℕ, ◌&&◌, ◌+◌, ◌==◌,
  ◌||◌, ◌∷◌,
}
use visi_on_route.Tx.{Action, ◌>>=◌, ◌>>◌, gets, query, raise_unless, Error, modify, pure, or_raise}
use visi_on_route.Access.Context.{RequestContext}
use visi_on_route.Access.Permissions.{RoleKey}
use visi_on_route.Audit.{record_audit}
use visi_on_route.Identity.Store.{Store, User, Membership, Invitation, Message, add_audit}
use visi_on_route.Saas.Plans.{get_entitlements}
use visi_on_route.Saas.Growth.{has_room}
use visi_on_route.Account.Base.{Security, enqueue, save_user}
use visi_on_route.Account.Passwords.{is_acceptable}
use visi_on_route.Account.Tokens.{is_user}

abbrev pub belongs : ℕ → Membership → Bool
belongs org m = m.organization_id == org

unfoldable pub enforce_user_limit : Time → ℕ → Action Store (Unit {0})
enforce_user_limit now org = do
  e ← query (λ (s : Store). get_entitlements now org s.saas) Error.runtime_error
  raise_unless (not e.growth_blocked) Error.domain_conflict
  used ← gets (λ (s : Store). count (belongs org) s.memberships)
  raise_unless (has_room e.user_limit used) Error.domain_conflict

-- What one call draws, and the settings of invitations
pub record Draw : Type 0 where
  pub now : Time
  pub new_id : ℕ
  pub user_id : ℕ
  pub membership_id : ℕ
  pub secret : ℕ
  pub ttl : Time
  pub has_mail : Bool

abbrev pub is_owner_role : RoleKey → Bool
is_owner_role role = elim role [ RoleKey.owner ↦ true | _ ↦ false ]

-- `get_user_by_email`
abbrev pub user_by_email : Security → String → Store → Option User
user_by_email sec email s = find (is_user sec email) s.users

abbrev pub is_member : ℕ → ℕ → Store → Bool
is_member user_id org s =
    any (λ (m : Membership). (m.user_id == user_id) && (m.organization_id == org)) s.memberships

-- The account under an address is a member already.
abbrev pub is_joined : Security → String → ℕ → Store → Bool
is_joined sec email org s = elim (user_by_email sec email s) [
  | none ↦ false
  | some u ↦ is_member u.id org s
]

-- Neither accepted, nor revoked, nor expired
abbrev pub is_open : Time → Invitation → Bool
is_open now i = is_none i.accepted_at && (is_none i.revoked_at && ltb now i.expires_at)

abbrev pub is_pending : Security → ℕ → String → Time → Invitation → Bool
is_pending sec org normalized now i =
    (i.organization_id == org) && (str_eq (sec.database_lower i.email) normalized && is_open now i)

-- The unique indexes of `invitations`
abbrev pub is_taken : Invitation → Store → Bool
is_taken i s =
    any (λ (j : Invitation). (j.id == i.id) || (j.token_hash == i.token_hash)) s.invitations

abbrev pub put_invitation : Invitation → Store → Store
put_invitation i s = record s { invitations = i ∷ s.invitations }

abbrev pub change_invitation : ℕ → (Invitation → Invitation) → Store → Store
change_invitation k f s = record s {
  invitations = update_where (λ (i : Invitation). i.id == k) f s.invitations;
}

abbrev pub invitation_message : Invitation → ℕ → Message
invitation_message i token = record {
  template = "invitation";
  recipient = i.email;
  secret = some token;
  related_id = i.id;
  idempotency_key = some (i.id, i.token_hash);
}

abbrev pub sent_at : Time → Invitation → Invitation
sent_at now i = record i { last_sent_at = some now }

-- `_send_invitation`
unfoldable pub send_invitation : Security → Draw → Invitation → Action Store (Unit {0})
send_invitation sec d i = do
  raise_unless d.has_mail Error.service_not_configured
  enqueue sec.has_cipher (invitation_message i d.secret)
  modify (change_invitation i.id (sent_at d.now))

abbrev pub new_invitation : Security → Draw → ℕ → String → RoleKey → Invitation
new_invitation sec d org normalized role = record {
  id = d.new_id;
  organization_id = org;
  email = normalized;
  role_key = role;
  token_hash = sec.hash_opaque_secret d.secret;
  expires_at = d.now + d.ttl;
  accepted_at = none;
  revoked_at = none;
  last_sent_at = none;
}

abbrev pub normalize : Security → String → String
normalize sec email = sec.lower (sec.text.strip email)

unfoldable pub add_invitation :
    Security → RequestContext → Draw → Invitation → Action Store Invitation
add_invitation sec ctx d i = do
  taken ← gets (is_taken i)
  raise_unless (not taken) Error.integrity_error
  modify (put_invitation i)
  send_invitation sec d i
  modify (add_audit (record_audit ctx none "invitation.created" i.id))
  pure (sent_at d.now i)

unfoldable pub invite_to :
    Security → RequestContext → Draw → ℕ → String → RoleKey → Action Store Invitation
invite_to sec ctx d org normalized role = do
  raise_unless (not (is_owner_role role)) Error.validation_failed
  enforce_user_limit d.now org
  joined ← gets (is_joined sec normalized org)
  raise_unless (not joined) Error.domain_conflict
  pending ← gets (λ (s : Store). any (is_pending sec org normalized d.now) s.invitations)
  raise_unless (not pending) Error.domain_conflict
  add_invitation sec ctx d (new_invitation sec d org normalized role)

unfoldable pub create_invitation :
    Security → RequestContext → Draw → String → RoleKey → Action Store Invitation
create_invitation sec ctx d email role = do
  org ← or_raise ctx.organization_id Error.domain_not_found
  invite_to sec ctx d org (normalize sec email) role

-- `_tenant_invitation`
abbrev pub tenant_invitation : RequestContext → ℕ → Store → Option Invitation
tenant_invitation ctx k s = elim (find (λ (i : Invitation). i.id == k) s.invitations) [
  | none ↦ none
  | some i ↦ if same (some i.organization_id) ctx.organization_id then some i else none
]

abbrev pub rotated : Security → Draw → Invitation → Invitation
rotated sec d i = record i {
  token_hash = sec.hash_opaque_secret d.secret;
  expires_at = d.now + d.ttl;
}

-- Another invitation has the digest already.
abbrev pub is_hash_taken : Invitation → Store → Bool
is_hash_taken i s =
    any (λ (j : Invitation). not (j.id == i.id) && (j.token_hash == i.token_hash)) s.invitations

unfoldable pub send_again : Security → RequestContext → Draw → Invitation → Action Store Invitation
send_again sec ctx d i = do
  taken ← gets (is_hash_taken i)
  raise_unless (not taken) Error.integrity_error
  modify (change_invitation i.id (λ _. i))
  send_invitation sec d i
  modify (add_audit (record_audit ctx none "invitation.resent" i.id))
  pure (sent_at d.now i)

unfoldable pub resend_invitation : Security → RequestContext → Draw → ℕ → Action Store Invitation
resend_invitation sec ctx d k = do
  i ← query (tenant_invitation ctx k) Error.domain_not_found
  raise_unless (is_none i.accepted_at && is_none i.revoked_at) Error.domain_conflict
  send_again sec ctx d (rotated sec d i)

abbrev pub revoked : Time → Invitation → Invitation
revoked now i = record i { revoked_at = some now }

unfoldable pub revoke_invitation : RequestContext → Time → ℕ → Action Store Invitation
revoke_invitation ctx now k = do
  i ← query (tenant_invitation ctx k) Error.domain_not_found
  raise_unless (is_none i.accepted_at) Error.domain_conflict
  if is_some i.revoked_at then pure i else do
    modify (change_invitation i.id (revoked now))
    modify (add_audit (record_audit ctx none "invitation.revoked" i.id))
    pure (revoked now i)

abbrev pub invitation_by_token : Security → ℕ → Store → Option Invitation
invitation_by_token sec token s =
    find (λ (i : Invitation). i.token_hash == sec.hash_opaque_secret token) s.invitations

-- `_open_invitation_by_token`
abbrev pub open_invitation : Security → ℕ → Time → Store → Option Invitation
open_invitation sec token now s = elim (invitation_by_token sec token s) [
  | none ↦ none
  | some i ↦ if is_open now i then some i else none
]

-- `preview_invitation`, without the organization's name
unfoldable pub preview_invitation : Security → ℕ → Time → Action Store (Invitation × Bool)
preview_invitation sec token now = do
  i ← query (open_invitation sec token now) Error.domain_not_found
  known ← gets (user_by_email sec i.email)
  pure (i, is_some known)

-- The account of an invited person, whose link proves the address
abbrev pub new_user : Security → Draw → Invitation → String → User
new_user sec d i password = record {
  id = d.user_id;
  email = i.email;
  password_hash = sec.hash_password password;
  is_active = true;
  failed_login_count = 0;
  locked_until = none;
  email_verified_at = some d.now;
  mfa_totp_secret_enc = none;
  mfa_pending_secret_enc = none;
  mfa_enabled_at = none;
  mfa_last_used_step = none;
  password_changed_at = none;
  sessions_revoked_at = none;
}

-- The unique indexes of `users`
abbrev pub is_user_taken : Security → User → Store → Bool
is_user_taken sec u s =
    any
      (λ (v : User).
        (v.id == u.id) || str_eq (sec.database_lower v.email) (sec.database_lower u.email))
      s.users

abbrev pub put_user : User → Store → Store
put_user u s = record s { users = u ∷ s.users }

unfoldable pub register :
    Security → Draw → Invitation → Option String → Option String → Action Store User
register sec d i full_name password = do
  raise_unless (not (is_empty (or_empty full_name) || is_empty (or_empty password)))
      Error.validation_failed
  raise_unless (is_acceptable sec.password_text (or_empty password)) Error.validation_failed
  taken ← gets (is_user_taken sec (new_user sec d i (or_empty password)))
  raise_unless (not taken) Error.integrity_error
  modify (put_user (new_user sec d i (or_empty password)))
  pure (new_user sec d i (or_empty password))

abbrev pub verified : Time → User → User
verified now u = record u { email_verified_at = or_else u.email_verified_at (some now) }

unfoldable pub join_known : Draw → Invitation → User → Action Store User
join_known d i u = do
  member ← gets (is_member u.id i.organization_id)
  raise_unless (not member) Error.domain_conflict
  modify (save_user (verified d.now u))
  pure (verified d.now u)

abbrev pub invitee :
    Security → Draw → Invitation → Option String → Option String → Option User → Action Store User
invitee sec d i full_name password none = register sec d i full_name password
invitee sec d i full_name password (some u) = join_known d i u

abbrev pub new_membership : Draw → Invitation → User → Membership
new_membership d i u = record {
  id = d.membership_id;
  user_id = u.id;
  organization_id = i.organization_id;
  role_key = i.role_key;
  is_active = true;
  created_at = d.now;
}

-- The unique indexes of `memberships`
abbrev pub is_membership_taken : Membership → Store → Bool
is_membership_taken m s =
    any
      (λ (n : Membership).
        (n.id == m.id) || ((n.user_id == m.user_id) && (n.organization_id == m.organization_id)))
      s.memberships

abbrev pub put_membership : Membership → Store → Store
put_membership m s = record s { memberships = m ∷ s.memberships }

abbrev pub accepted : Time → Invitation → Invitation
accepted now i = record i { accepted_at = some now }

unfoldable pub join : RequestContext → Draw → Invitation → User → Action Store (User × Membership)
join ctx d i u = do
  taken ← gets (is_membership_taken (new_membership d i u))
  raise_unless (not taken) Error.integrity_error
  modify (put_membership (new_membership d i u))
  modify (change_invitation i.id (accepted d.now))
  modify (add_audit (record_audit ctx (some i.organization_id) "invitation.accepted" i.id))
  pure (u, new_membership d i u)

unfoldable pub accept_invitation :
    Security
    → RequestContext
    → Draw
    → ℕ
    → Option String
    → Option String
    → Action Store (User × Membership)
accept_invitation sec ctx d token full_name password = do
  i ← query (open_invitation sec token d.now) Error.domain_not_found
  enforce_user_limit d.now i.organization_id
  known ← gets (user_by_email sec i.email)
  u ← invitee sec d i full_name password known
  join ctx d i u
