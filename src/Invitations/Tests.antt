-- ===== src/Invitations/Tests.antt =====
-- Runs of invitations on a small store.
use visi_on_route.Prelude.{
  List, Option, String, [], arith, days, false, hours, minutes, none, refl, some, true, ℕ, ◌+◌,
  ◌==◌, ◌∷◌, ◌≡◌,
}
use visi_on_route.Tx.{request, err, Error, ok}
use visi_on_route.Access.Context.{RequestContext}
use visi_on_route.Access.Permissions.{RoleKey}
use visi_on_route.Identity.Store.{Store, User, Invitation}
use visi_on_route.Saas.Plans.{Plan, get_entitlements}
use visi_on_route.Account.Base.{Security}
use visi_on_route.Invitations.Service.{
  Draw, accept_invitation, enforce_user_limit, register, join, new_user, new_membership,
  resend_invitation, sent_at, rotated, open_invitation,
}
use visi_on_route.Invitations.Members.{Request, answer_all, answer_all-IsWithinLimits}
use visi_on_route.Invitations.Limits.{IsWithinLimits}
use visi_on_route.Account.Passwords.{password_problems}
use visi_on_route.Invitations.Joining.{IsJoined, accept_invitation-once}
use visi_on_route.Invitations.Resending.{resend_invitation-replaces}

abbrev security : Security
security = record {
  text = record { strip = λ s. s; prefix = λ n s. s };
  lower = λ s. s;
  database_lower = λ s. s;
  password_text = record {
    length = λ s. 14;
    lower = λ s. s;
    is_digit = λ s. false;
    is_alpha = λ s. false;
  };
  totp_text = record {
    compact = λ s. s;
    length = λ s. 6;
    is_digit = λ s. true;
    is_ascii = λ s. true;
    code_at = λ secret step. "000010";
  };
  hash_opaque_secret = λ n. n + 1000;
  hash_recovery_code = λ s. 5;
  hash_password = λ s. 7;
  verify_password = λ n s. n == 7;
  has_cipher = true;
  encrypt = λ n. n;
  decrypt = λ n. some n;
  reset_ttl = minutes 30;
  verification_ttl = hours 48;
}

abbrev owner : RequestContext
owner = record {
  user_id = some 1;
  organization_id = some 7;
  role = some RoleKey.owner;
  is_platform_admin = false;
  user_agent = none;
}

abbrev visitor : RequestContext
visitor = record {
  user_id = none;
  organization_id = none;
  role = none;
  is_platform_admin = false;
  user_agent = none;
}

abbrev small : Plan
small = record {
  key = "baslangic";
  vehicle_limit = some 10;
  user_limit = some 2;
  retention_days = 90;
}

abbrev draw : ℕ → Draw
draw n = record {
  now = hours n;
  new_id = n;
  user_id = n + 10;
  membership_id = n + 20;
  secret = n;
  ttl = days 7;
  has_mail = true;
}

abbrev letter : Invitation
letter = record {
  id = 1;
  organization_id = 7;
  email = "can@example.com";
  role_key = RoleKey.auditor;
  token_hash = 1001;
  expires_at = days 7;
  accepted_at = none;
  revoked_at = none;
  last_sent_at = none;
}

abbrev store : Store
store = record {
  sessions = [];
  users = [];
  memberships =
      record {
        id = 1;
        user_id = 1;
        organization_id = 7;
        role_key = RoleKey.owner;
        is_active = true;
        created_at = 0;
      }
      ∷ [];
  audits = [];
  tokens = [];
  recovery_codes = [];
  challenges = [];
  invitations = letter ∷ [];
  messages = [];
  saas = record { plans = small ∷ []; subscriptions = []; fleets = []; vehicles = []; audits = [] };
}

-- Two invitations for the one free place, and both accepted
abbrev rush : List Request
rush =
    Request.invite owner (draw 2) "ece@example.com" RoleKey.auditor
    ∷ Request.accept visitor (draw 3) 1 (some "Can") (some "A-Password-3")
    ∷ Request.accept visitor (draw 4) 2 (some "Ece") (some "A-Password-4")
    ∷ []

store-IsWithinLimits : IsWithinLimits store
unfolding get_entitlements
store-IsWithinLimits org n h = ground (arith, h)

answer_all-IsWithinLimits_example : IsWithinLimits (answer_all security rush store)
answer_all-IsWithinLimits_example =
    answer_all-IsWithinLimits security rush store store-IsWithinLimits

abbrev can : User
can = new_user security (draw 3) letter "A-Password-3"

accept_invitation-once_example :
    (i : Invitation) × IsJoined security visitor
      (draw 3)
      1
      (some "Can")
      (some "A-Password-3")
      store
      i
      (request
        (accept_invitation security visitor (draw 3) 1 (some "Can") (some "A-Password-3"))
        store)
    × ((later : Draw) (other : RequestContext) (name word : Option String)
        → let after =
            (request
              (accept_invitation security visitor (draw 3) 1 (some "Can") (some "A-Password-3"))
              store).1 in
          request (accept_invitation security other later 1 name word) after
          ≡ (err Error.domain_not_found, after))
unfolding accept_invitation enforce_user_limit get_entitlements register join password_problems
accept_invitation-once_example =
    accept_invitation-once security visitor (draw 3) 1 (some "Can") (some "A-Password-3") store can
      (new_membership (draw 3) letter can) refl

resend_invitation-replaces_example :
    ((request (resend_invitation security owner (draw 5) 1) store).0
      ≡ ok (sent_at (hours 5) (rotated security (draw 5) letter)))
    × (open_invitation security 1
          (hours 6)
          (request (resend_invitation security owner (draw 5) 1) store).1
        ≡ none)
resend_invitation-replaces_example =
    resend_invitation-replaces security owner (draw 5) 1 store letter 1 (hours 6)
      (record { found = refl; waiting = refl; fresh = refl; mail = refl; cipher = refl }) refl
      (omega arith) refl
