-- ===== src/Account/Tokens.antt =====
-- Password resets and the verification of e-mails.
use visi_on_route.Prelude.{
  Bool, Option, String, Time, any, false, find, if◌then◌else◌, is_none, is_some, ltb, none, not,
  some, str_eq, true, update_where, ℕ, ◌&&◌, ◌+◌, ◌==◌, ◌||◌, ◌∷◌,
}
use visi_on_route.Identity.Store.{Store, User, UserToken, Purpose, Message}
use visi_on_route.Account.Base.{
  Security, Draw, enqueue, require_user, audit_user, save_user, active_user, revoke_all_sessions,
  notify,
}
use visi_on_route.Tx.{Action, ◌>>=◌, ◌>>◌, gets, modify, pure, query, raise_unless, Error}
use visi_on_route.Access.Context.{RequestContext}
use visi_on_route.Account.Passwords.{is_acceptable}

abbrev pub same_purpose : Purpose → Purpose → Bool
same_purpose Purpose.password_reset Purpose.password_reset = true
same_purpose Purpose.email_verification Purpose.email_verification = true
same_purpose _ _ = false

abbrev pub is_unused : ℕ → Purpose → UserToken → Bool
is_unused user_id purpose t =
    (t.user_id == user_id) && same_purpose t.purpose purpose && is_none t.used_at

abbrev pub use_at : Time → UserToken → UserToken
use_at now t = record t { used_at = some now }

-- `_invalidate_tokens`
unfoldable pub invalidate_tokens : ℕ → Purpose → Time → Store → Store
invalidate_tokens user_id purpose now s = record s {
  tokens = update_where (is_unused user_id purpose) (use_at now) s.tokens;
}

-- The unique indexes of `user_tokens`
abbrev pub is_taken : UserToken → Store → Bool
is_taken t s = any (λ (x : UserToken). (x.id == t.id) || (x.token_hash == t.token_hash)) s.tokens

abbrev pub put_token : UserToken → Store → Store
put_token t s = record s { tokens = t ∷ s.tokens }

abbrev pub new_token : Security → Draw → User → Purpose → Time → UserToken
new_token sec d u purpose ttl = record {
  id = d.new_id;
  user_id = u.id;
  purpose = purpose;
  token_hash = sec.hash_opaque_secret d.secret;
  expires_at = d.now + ttl;
  used_at = none;
}

-- `_issue_token`
unfoldable pub issue_token : Security → Draw → User → Purpose → Time → Action Store ℕ
issue_token sec d u purpose ttl = do
  modify (invalidate_tokens u.id purpose d.now)
  taken ← gets (is_taken (new_token sec d u purpose ttl))
  raise_unless (not taken) Error.integrity_error
  modify (put_token (new_token sec d u purpose ttl))
  pure d.secret

abbrev pub is_token : Security → ℕ → Purpose → UserToken → Bool
is_token sec token purpose t =
    (t.token_hash == sec.hash_opaque_secret token) && same_purpose t.purpose purpose

-- The token's row, if it may be consumed
abbrev pub usable : Time → Option UserToken → Option UserToken
usable now none = none
usable now (some t) = if is_none t.used_at && ltb now t.expires_at then some t else none

abbrev pub usable_token : Security → ℕ → Purpose → Time → Store → Option UserToken
usable_token sec token purpose now s = usable now (find (is_token sec token purpose) s.tokens)

abbrev pub use_token : ℕ → Time → Store → Store
use_token k now s = record s {
  tokens = update_where (λ (t : UserToken). t.id == k) (use_at now) s.tokens;
}

-- `_consume_token`
unfoldable pub consume_token : Security → ℕ → Purpose → Time → Action Store UserToken
consume_token sec token purpose now = do
  t ← query (usable_token sec token purpose now) Error.invalid_account_token
  modify (use_token t.id now)
  pure t

abbrev pub is_user : Security → String → User → Bool
is_user sec email u = str_eq (sec.database_lower u.email) (sec.lower (sec.text.strip email))

-- `_user_by_email`, if the account is active
abbrev pub active_by_email : Security → String → Store → Option User
active_by_email sec email s = elim (find (is_user sec email) s.users) [
  | none ↦ none
  | some u ↦ if u.is_active then some u else none
]

abbrev pub token_message : String → User → ℕ → Message
token_message template u token = record {
  template = template;
  recipient = u.email;
  secret = some token;
  related_id = u.id;
  idempotency_key = none;
}

unfoldable pub send_reset : Security → RequestContext → Draw → User → Action Store (Unit {0})
send_reset sec ctx d u = do
  token ← issue_token sec d u Purpose.password_reset sec.reset_ttl
  enqueue sec.has_cipher (token_message "password_reset" u token)
  modify (audit_user ctx "auth.password_reset_requested" u)

abbrev pub send_reset_to : Security → RequestContext → Draw → Option User → Action Store (Unit {0})
send_reset_to sec ctx d none = pure tt
send_reset_to sec ctx d (some u) = send_reset sec ctx d u

unfoldable pub request_password_reset :
    Security → RequestContext → Draw → String → Action Store (Unit {0})
request_password_reset sec ctx d email = do
  found ← gets (active_by_email sec email)
  send_reset_to sec ctx d found

-- The account after a reset of its password
abbrev pub with_password : Security → Time → String → User → User
with_password sec now password u = record u {
  password_hash = sec.hash_password password;
  password_changed_at = some now;
  failed_login_count = 0;
  locked_until = none;
}

unfoldable pub set_password : Security → RequestContext → Time → String → User → Action Store User
set_password sec ctx now password u = do
  modify (save_user (with_password sec now password u))
  modify (invalidate_tokens u.id Purpose.password_reset now)
  modify (revoke_all_sessions u.id now)
  modify (audit_user ctx "auth.password_reset_completed" u)
  notify sec u
  pure (record (with_password sec now password u) { sessions_revoked_at = some now })

unfoldable pub reset_password : Security → RequestContext → Time → ℕ → String → Action Store User
reset_password sec ctx now token password = do
  raise_unless (is_acceptable sec.password_text password) Error.validation_failed
  t ← consume_token sec token Purpose.password_reset now
  u ← query (active_user t.user_id) Error.invalid_account_token
  set_password sec ctx now password u

unfoldable pub send_email_verification : Security → RequestContext → Draw → User → Action Store Bool
send_email_verification sec ctx d u = if is_some u.email_verified_at then pure false else do
  token ← issue_token sec d u Purpose.email_verification sec.verification_ttl
  enqueue sec.has_cipher (token_message "email_verification" u token)
  pure true

unfoldable pub resend_email_verification : Security → RequestContext → Draw → ℕ → Action Store Bool
resend_email_verification sec ctx d user_id = do
  u ← require_user user_id
  send_email_verification sec ctx d u

abbrev pub user_by_id : ℕ → Store → Option User
user_by_id k s = find (λ (u : User). u.id == k) s.users

unfoldable pub mark_verified : RequestContext → Time → User → Action Store User
mark_verified ctx now u = if is_some u.email_verified_at then pure u else do
  let v = record u { email_verified_at = some now }
  modify (save_user v)
  modify (audit_user ctx "auth.email_verified" u)
  pure v

unfoldable pub verify_email : Security → RequestContext → Time → ℕ → Action Store User
verify_email sec ctx now token = do
  t ← consume_token sec token Purpose.email_verification now
  u ← query (user_by_id t.user_id) Error.invalid_account_token
  mark_verified ctx now u
