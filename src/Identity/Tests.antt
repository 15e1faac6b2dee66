-- ===== src/Identity/Tests.antt =====
-- Runs of the account services on a small store.
use visi_on_route.Prelude.{
  List, String, TextMethods, Time, [], arith, count, days, false, hours, minutes, none, refl, some,
  str_eq, true, ℕ, ◌+◌, ◌∷◌, ◌≡◌,
}
use visi_on_route.Tx.{request, err, ok, Error}
use visi_on_route.Access.Context.{RequestContext}
use visi_on_route.Identity.Store.{Store, Session, User}
use visi_on_route.Identity.Sessions.{Service, Draw, logout}
use visi_on_route.Identity.Families.{IsValid, open_in}
use visi_on_route.Identity.Requests.{Request, answer_requests}
use visi_on_route.Identity.Guarantees.{answer_requests-IsValid, rotate-reuse, logout-closes}
use visi_on_route.Identity.Login.{Logins, attempt, attempt_all, authenticate}
use visi_on_route.Identity.Lockout.{ten_failures_lock}
use visi_on_route.Identity.Rotation.{unused_successor, rotate_refresh_token}

abbrev plain_text : TextMethods
plain_text = record { strip = λ s. s; prefix = λ n s. s }

abbrev service : Service
service = record {
  text = plain_text;
  hash_opaque_secret = λ n. n + 1000;
  refresh_ttl = days 30;
  reuse_grace = 0;
}

abbrev caller : RequestContext
caller = record {
  user_id = none;
  organization_id = none;
  role = none;
  is_platform_admin = false;
  user_agent = some "browser";
}

abbrev ayse : User
ayse = record {
  id = 1;
  email = "ayse@example.com";
  password_hash = 7;
  is_active = true;
  failed_login_count = 0;
  locked_until = none;
  email_verified_at = none;
  mfa_totp_secret_enc = none;
  mfa_pending_secret_enc = none;
  mfa_enabled_at = none;
  mfa_last_used_step = none;
  password_changed_at = none;
  sessions_revoked_at = none;
}

abbrev empty_store : Store
empty_store = record {
  sessions = [];
  users = ayse ∷ [];
  memberships = [];
  audits = [];
  tokens = [];
  recovery_codes = [];
  challenges = [];
  invitations = [];
  messages = [];
  saas = record { plans = []; subscriptions = []; fleets = []; vehicles = []; audits = [] };
}

abbrev draw : ℕ → Draw
draw n = record { now = hours n; session_id = n; family_id = n; token = n }

-- A login, a rotation of its token, and the first token once more.
abbrev theft : List Request
theft =
    Request.login caller (draw 1) ayse none
    ∷ Request.rotate caller (draw 2) 1
    ∷ Request.rotate caller (draw 3) 1
    ∷ []

empty_store-IsValid : IsValid empty_store
empty_store-IsValid = record {
  unique_ids = λ k. omega arith;
  one_open = λ f. omega arith;
  links = λ k j x h l. absurd (cc h);
}

answer_requests-IsValid_example : IsValid (answer_requests service theft empty_store)
answer_requests-IsValid_example =
    answer_requests-IsValid service theft empty_store (refl, (tt, (tt, tt))) empty_store-IsValid

-- The session that the theft presents
abbrev spent : Session
spent = record {
  id = 1;
  user_id = 1;
  organization_id = none;
  family_id = 1;
  refresh_token_hash = 1001;
  user_agent = some "browser";
  expires_at = days 31;
  revoked_at = some (hours 2);
  reuse_detected_at = none;
  last_used_at = none;
  replaced_by_id = some 2;
}

abbrev current : Session
current = record {
  id = 2;
  user_id = 1;
  organization_id = none;
  family_id = 1;
  refresh_token_hash = 1002;
  user_agent = some "browser";
  expires_at = days 31;
  revoked_at = none;
  reuse_detected_at = none;
  last_used_at = none;
  replaced_by_id = none;
}

abbrev in_use : Store
in_use = record empty_store { sessions = current ∷ spent ∷ [] }

rotate-reuse_example :
    ((request (rotate_refresh_token service caller (draw 3) 1) in_use).0
      ≡ err Error.invalid_credentials)
    × (count
          (open_in 1)
          (request (rotate_refresh_token service caller (draw 3) 1) in_use).1.sessions
        ≡ 0)
unfolding unused_successor
rotate-reuse_example = rotate-reuse service caller (draw 3) 1 spent in_use refl refl refl

logout-closes_example :
    ((request (logout service caller (hours 3) 2) in_use).0 ≡ ok tt)
    × (count (open_in 1) (request (logout service caller (hours 3) 2) in_use).1.sessions ≡ 0)
logout-closes_example = logout-closes service caller (hours 3) 2 current in_use refl

abbrev logins : Logins
logins = record {
  text = plain_text;
  lower = λ s. s;
  database_lower = λ s. s;
  verify_password = λ digest password. str_eq password "correct horse 7";
}

abbrev nine : List (Time × String)
nine =
    (1, "wrong")
    ∷ (2, "wrong")
    ∷ (3, "wrong")
    ∷ (4, "wrong")
    ∷ (5, "wrong")
    ∷ (6, "wrong")
    ∷ (7, "wrong")
    ∷ (8, "wrong")
    ∷ (9, "wrong")
    ∷ []

ten_failures_lock_example :
    let s' =
      attempt logins caller "ayse@example.com"
        (10, "wrong")
        (attempt_all logins caller "ayse@example.com" nine empty_store) in
    request (authenticate logins caller (minutes 10) "ayse@example.com" "correct horse 7") s'
    ≡ (err Error.account_locked, s')
ten_failures_lock_example =
    ten_failures_lock logins caller "ayse@example.com" ayse empty_store nine 10 (minutes 10) "wrong"
      "correct horse 7" (record { found = refl; active = refl }) refl refl refl refl refl
      (omega arith)
