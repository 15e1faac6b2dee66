-- ===== src/Account/Tests.antt =====
-- Runs of the account security services on a small store.
use visi_on_route.Prelude.{
  List, Time, [], arith, days, false, hours, if◌then◌else◌, minutes, none, not, refl, seconds, some,
  str_eq, true, ◌+◌, ◌==◌, ◌∷◌, ◌≡◌,
}
use visi_on_route.Tx.{request, err, ok, Error}
use visi_on_route.Access.Context.{RequestContext}
use visi_on_route.Identity.Store.{
  Store, Session, User, UserToken, Purpose, MfaChallenge, MfaRecoveryCode,
}
use visi_on_route.Account.Base.{Security}
use visi_on_route.Account.Requests.{Request, answer_all, answer_all-HasSingleTokens}
use visi_on_route.Account.Totp.{epoch, looks_like_totp, matching_time_step}
use visi_on_route.Account.Passwords.{password_problems}
use visi_on_route.Account.Single.{HasSingleTokens}
use visi_on_route.Account.Guessing.{Guess, guess, guess_all, five_guesses}
use visi_on_route.Account.Challenges.{
  verify_mfa_challenge, check_challenge, reject_code, current_user,
}
use visi_on_route.Account.Factors.{verify_second_factor, verify_totp, Factor}
use visi_on_route.Account.Resets.{IsSpent, reset_password-spends}
use visi_on_route.Account.Tokens.{reset_password}
use visi_on_route.Account.Replays.{recovery_replay, totp_replay, factor_result}

abbrev security : Security
security = record {
  text = record { strip = λ s. s; prefix = λ n s. s };
  lower = λ s. s;
  database_lower = λ s. s;
  password_text = record {
    length = λ s. if str_eq s "short" then 5 else 14;
    lower = λ s. s;
    is_digit = λ s. false;
    is_alpha = λ s. false;
  };
  totp_text = record {
    compact = λ s. s;
    length = λ s. if str_eq s "k7d2-9fqa" then 9 else 6;
    is_digit = λ s. not (str_eq s "k7d2-9fqa");
    is_ascii = λ s. true;
    code_at = λ secret step. if step == 10 then "000010" else "999999";
  };
  hash_opaque_secret = λ n. n + 1000;
  hash_recovery_code = λ s. if str_eq s "k7d2-9fqa" then 5 else 6;
  hash_password = λ s. if str_eq s "New-Password-2" then 8 else 7;
  verify_password = λ n s. n == 7;
  has_cipher = true;
  encrypt = λ n. n;
  decrypt = λ n. some n;
  reset_ttl = minutes 30;
  verification_ttl = hours 48;
}

abbrev caller : RequestContext
caller = record {
  user_id = none;
  organization_id = none;
  role = none;
  is_platform_admin = false;
  user_agent = some "browser";
}

abbrev deniz : User
deniz = record {
  id = 1;
  email = "deniz@example.com";
  password_hash = 7;
  is_active = true;
  failed_login_count = 0;
  locked_until = none;
  email_verified_at = none;
  mfa_totp_secret_enc = some 3;
  mfa_pending_secret_enc = none;
  mfa_enabled_at = some (hours 1);
  mfa_last_used_step = some 8;
  password_changed_at = none;
  sessions_revoked_at = none;
}

abbrev link : UserToken
link = record {
  id = 4;
  user_id = 1;
  purpose = Purpose.password_reset;
  token_hash = 1042;
  expires_at = hours 3;
  used_at = none;
}

abbrev open_session : Session
open_session = record {
  id = 2;
  user_id = 1;
  organization_id = none;
  family_id = 1;
  refresh_token_hash = 1002;
  user_agent = some "browser";
  expires_at = days 31;
  revoked_at = none;
  reuse_detected_at = none;
  last_used_at = none;
  replaced_by_id = none;
}

abbrev pending : MfaChallenge
pending = record {
  id = 6;
  user_id = 1;
  token_hash = 1077;
  expires_at = epoch + seconds 600;
  attempts = 3;
  consumed_at = none;
}

abbrev paper_code : MfaRecoveryCode
paper_code = record { id = 9; user_id = 1; code_hash = 5; used_at = none }

abbrev store : Store
store = record {
  sessions = open_session ∷ [];
  users = deniz ∷ [];
  memberships = [];
  audits = [];
  tokens = link ∷ [];
  recovery_codes = paper_code ∷ [];
  challenges = pending ∷ [];
  invitations = [];
  messages = [];
  saas = record { plans = []; subscriptions = []; fleets = []; vehicles = []; audits = [] };
}

-- Two requests for a link, the use of the second, and a verification link.
abbrev mornings : List Request
mornings =
    Request.forgot caller (record { now = hours 1; new_id = 11; secret = 21 }) "deniz@example.com"
    ∷ Request.forgot caller (record { now = hours 2; new_id = 12; secret = 22 }) "deniz@example.com"
    ∷ Request.reset caller (hours 2) 22 "New-Password-2"
    ∷ Request.resend caller (record { now = hours 2; new_id = 13; secret = 23 }) 1
    ∷ []

store-HasSingleTokens : HasSingleTokens store
store-HasSingleTokens k p = ground arith

answer_all-HasSingleTokens_example : HasSingleTokens (answer_all security mornings store)
answer_all-HasSingleTokens_example =
    answer_all-HasSingleTokens security mornings store store-HasSingleTokens

reset_password-spends_example :
    IsSpent security caller
      (hours 2)
      42
      "New-Password-2"
      store
      link
      deniz
      (hours 3)
      "New-Password-2"
      (request (reset_password security caller (hours 2) 42 "New-Password-2") store)
unfolding password_problems
reset_password-spends_example =
    reset_password-spends security caller (hours 2) 42 "New-Password-2" store link deniz
      (record { acceptable = refl; found = refl; account = refl }) (hours 3) "New-Password-2" refl

abbrev at_step : Time
at_step = epoch + seconds 310

abbrev wrong : Guess
wrong = record { now = at_step; code = some "123456"; recovery_code = none }

abbrev right : Guess
right = record { now = at_step; code = some "000010"; recovery_code = none }

five_guesses_example :
    guess security caller 77 right (guess_all security caller 77 (wrong ∷ wrong ∷ []) store)
    ≡ (err Error.invalid_mfa_code, guess_all security caller 77 (wrong ∷ wrong ∷ []) store)
unfolding verify_mfa_challenge check_challenge reject_code verify_second_factor verify_totp
    matching_time_step looks_like_totp
five_guesses_example =
    five_guesses security caller 77 (wrong ∷ wrong ∷ []) right pending deniz store
      (record { found = refl; fresh = refl; account = refl; enabled = refl })
      ((refl, refl), ((refl, refl), tt)) refl

totp_replay_example :
    (let after = (factor_result security caller deniz "000010" at_step store).1 in
      factor_result security caller (current_user deniz after) "000010" at_step after
      ≡ (err Error.invalid_mfa_code, after))
unfolding verify_second_factor verify_totp matching_time_step looks_like_totp
totp_replay_example =
    totp_replay security caller store deniz 3 "000010" "000010" at_step at_step 10 10
      (record { value = 3; enrolled = refl; cipher = refl; readable = refl; stored = refl }) refl
      refl refl refl refl (omega arith)

recovery_replay_example :
    ((factor_result security caller deniz "k7d2-9fqa" at_step store).0 ≡ ok Factor.recovery)
    × (factor_result security caller deniz "k7d2-9fqa" at_step
          (factor_result security caller deniz "k7d2-9fqa" at_step store).1
        ≡ (
          err Error.invalid_mfa_code,
          (factor_result security caller deniz "k7d2-9fqa" at_step store).1,
        ))
unfolding looks_like_totp
recovery_replay_example =
    recovery_replay security caller store deniz "k7d2-9fqa" at_step at_step paper_code deniz refl
      refl refl (omega arith) refl
