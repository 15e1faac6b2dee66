-- ===== src/Account/Base.antt =====
-- What the account security services share: the settings, the mail queue, and the internals at the
-- end of application/identity/account_security.py.
use visi_on_route.Prelude.{
  Bool, Option, String, TextMethods, Time, any, false, find, if◌then◌else◌, is_none, none, some,
  update_where, ℕ, ◌&&◌, ◌==◌, ◌||◌, ◌∷◌,
}
use visi_on_route.Identity.Store.{Store, User, Message, add_audit, Session}
use visi_on_route.Identity.Sessions.{is_open}
use visi_on_route.Account.Passwords.{PasswordText}
use visi_on_route.Account.Totp.{TotpText}
use visi_on_route.Tx.{Action, or_raise, query, raise_unless, ◌>>◌, Error, modify}
use visi_on_route.Access.Context.{RequestContext}
use visi_on_route.Audit.{record_audit}

-- The settings of `AccountSecurityService`, and the functions that it takes from libraries.
pub record Security : Type 0 where
  pub text : TextMethods
  pub lower : String → String
  pub database_lower : String → String
  pub password_text : PasswordText
  pub totp_text : TotpText
  pub hash_opaque_secret : ℕ → ℕ
  pub hash_recovery_code : String → ℕ
  pub hash_password : String → ℕ
  pub verify_password : ℕ → String → Bool
  pub has_cipher : Bool
  pub encrypt : ℕ → ℕ
  pub decrypt : ℕ → Option ℕ
  pub reset_ttl : Time
  pub verification_ttl : Time

-- What one call draws: the moment, an identifier and a random token.
pub record Draw : Type 0 where
  pub now : Time
  pub new_id : ℕ
  pub secret : ℕ

abbrev pub same_key : Option (ℕ × ℕ) → Option (ℕ × ℕ) → Bool
same_key (some (a, b)) (some (c, d)) = (a == c) && (b == d)
same_key _ _ = false

-- `on_conflict_do_nothing(index_elements=["idempotency_key"])`
abbrev pub add_message : Message → Store → Store
add_message m s =
    if any (λ (n : Message). same_key n.idempotency_key m.idempotency_key) s.messages
    then s
    else record s { messages = m ∷ s.messages }

-- `MailService.enqueue`: a secret needs the field cipher.
unfoldable pub enqueue : Bool → Message → Action Store (Unit {0})
enqueue has_cipher m = do
  raise_unless (is_none m.secret || has_cipher) Error.service_not_configured
  modify (add_message m)

abbrev pub security_notice : User → Message
security_notice u = record {
  template = "security_notice";
  recipient = u.email;
  secret = none;
  related_id = u.id;
  idempotency_key = none;
}

-- `_notify`
unfoldable pub notify : Security → User → Action Store (Unit {0})
notify sec u = enqueue sec.has_cipher (security_notice u)

abbrev pub active_user : ℕ → Store → Option User
active_user k s = elim (find (λ (u : User). u.id == k) s.users) [
  | none ↦ none
  | some u ↦ if u.is_active then some u else none
]

-- `_require_user`
abbrev pub require_user : ℕ → Action Store User
require_user k = query (active_user k) Error.domain_not_found

abbrev pub save_user : User → Store → Store
save_user u s = record s { users = update_where (λ (x : User). x.id == u.id) (λ _. u) s.users }

-- `_reauthenticate`
abbrev pub reauthenticate : Security → User → String → Action Store (Unit {0})
reauthenticate sec u password =
    raise_unless (sec.verify_password u.password_hash password) Error.reauthentication_failed

-- `_decrypt`
abbrev pub decrypt : Security → ℕ → Action Store ℕ
decrypt sec value =
    or_raise (if sec.has_cipher then sec.decrypt value else none) Error.service_not_configured

-- `revoke_all_sessions`: the refresh sessions, and the mark that rejects older access tokens
abbrev pub close_session : Time → Session → Session
close_session now x = record x { revoked_at = some now }

abbrev pub is_open_of : ℕ → Session → Bool
is_open_of user_id x = (x.user_id == user_id) && is_open x

abbrev pub close_sessions : ℕ → Time → Store → Store
close_sessions user_id now s = record s {
  sessions = update_where (is_open_of user_id) (close_session now) s.sessions;
}

abbrev pub mark_revoked : ℕ → Time → Store → Store
mark_revoked user_id now s = record s {
  users =
      update_where (λ (u : User). u.id == user_id)
        (λ u. record u { sessions_revoked_at = some now }) s.users;
}

unfoldable pub revoke_all_sessions : ℕ → Time → Store → Store
revoke_all_sessions user_id now s = mark_revoked user_id now (close_sessions user_id now s)

abbrev pub audit_user : RequestContext → String → User → Store → Store
audit_user ctx action u s = add_audit (record_audit ctx none action u.id) s
