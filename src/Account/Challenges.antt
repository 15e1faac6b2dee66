-- ===== src/Account/Challenges.antt =====
-- The second step of a login.
use visi_on_route.Prelude.{
  Bool, Option, String, Time, any, find, if◌then◌else◌, is_empty, is_none, is_some, ltb, minutes,
  none, not, or_empty, some, update_where, ℕ, ◌&&◌, ◌+◌, ◌==◌, ◌||◌, ◌∷◌,
}
use visi_on_route.Identity.Store.{Store, User, MfaChallenge}
use visi_on_route.Account.Base.{Security, Draw, active_user, audit_user}
use visi_on_route.Account.Factors.{verify_second_factor, Factor}
use visi_on_route.Tx.{
  Action, Result, ok, err, ◌>>=◌, ◌>>◌, gets, modify, query, Error, commit, pure, raise_unless,
  raise,
}
use visi_on_route.Access.Context.{RequestContext}

abbrev pub new_challenge : Security → Draw → User → MfaChallenge
new_challenge sec d u = record {
  id = d.new_id;
  user_id = u.id;
  token_hash = sec.hash_opaque_secret d.secret;
  expires_at = d.now + minutes 5;
  attempts = 0;
  consumed_at = none;
}

-- The unique indexes of `mfa_challenges`
abbrev pub is_taken : MfaChallenge → Store → Bool
is_taken c s =
    any (λ (x : MfaChallenge). (x.id == c.id) || (x.token_hash == c.token_hash)) s.challenges

abbrev pub put_challenge : MfaChallenge → Store → Store
put_challenge c s = record s { challenges = c ∷ s.challenges }

unfoldable pub create_mfa_challenge : Security → Draw → User → Action Store (ℕ × ℕ)
create_mfa_challenge sec d u = do
  taken ← gets (is_taken (new_challenge sec d u))
  raise_unless (not taken) Error.integrity_error
  modify (put_challenge (new_challenge sec d u))
  pure (d.secret, 300)

abbrev pub is_challenge : Security → ℕ → MfaChallenge → Bool
is_challenge sec token c = c.token_hash == sec.hash_opaque_secret token

-- The challenge is neither consumed, nor expired, nor out of its five attempts.
abbrev pub is_alive : Time → MfaChallenge → Bool
is_alive now c = is_none c.consumed_at && ltb now c.expires_at && ltb c.attempts 5

abbrev pub alive : Time → Option MfaChallenge → Option MfaChallenge
alive now none = none
alive now (some c) = if is_alive now c then some c else none

abbrev pub live_challenge : Security → ℕ → Time → Store → Option MfaChallenge
live_challenge sec token now s = alive now (find (is_challenge sec token) s.challenges)

abbrev pub with_mfa_on : Option User → Option User
with_mfa_on none = none
with_mfa_on (some u) = if is_some u.mfa_enabled_at then some u else none

abbrev pub change_challenge : ℕ → (MfaChallenge → MfaChallenge) → Store → Store
change_challenge k f s = record s {
  challenges = update_where (λ (c : MfaChallenge). c.id == k) f s.challenges;
}

abbrev pub count_attempt : MfaChallenge → MfaChallenge
count_attempt c = record c { attempts = c.attempts + 1 }

abbrev pub consume : Time → MfaChallenge → MfaChallenge
consume now c = record c { consumed_at = some now }

-- `except InvalidMfaCodeError`: the attempt is committed before the error is raised again.
unfoldable pub reject_code : RequestContext → User → MfaChallenge → Action Store User
reject_code ctx u c = do
  modify (change_challenge c.id count_attempt)
  modify (audit_user ctx "auth.mfa_challenge_failed" u)
  commit
  raise Error.invalid_mfa_code

-- The row of the user as it is now: the session's object is the row.
abbrev pub current_user : User → Store → User
current_user u s = elim (find (λ (v : User). v.id == u.id) s.users) [ none ↦ u | some v ↦ v ]

unfoldable pub accept_code : Time → User → MfaChallenge → Action Store User
accept_code now u c = do modify (change_challenge c.id (consume now)); gets (current_user u)

-- What follows the check of the second factor; another error is not caught.
abbrev pub after_factor :
    RequestContext → Time → User → MfaChallenge → Result Factor → Action Store User
after_factor ctx now u c (ok f) = accept_code now u c
after_factor ctx now u c (err Error.invalid_mfa_code) = reject_code ctx u c
after_factor ctx now u c (err e) = raise e

-- `try … except`: the check is run, and its error is handed on as a value.
abbrev pub attempt_factor : Action Store Factor → Action Store (Result Factor)
attempt_factor m tx = let (r, tx') = m tx in (ok r, tx')

-- `code or recovery_code or ""`
abbrev pub submitted_code : Option String → Option String → String
submitted_code code recovery_code =
    if is_empty (or_empty code) then or_empty recovery_code else or_empty code

unfoldable pub check_challenge :
    Security → RequestContext → Time → String → MfaChallenge → Action Store User
check_challenge sec ctx now submitted c = do
  u ← query (λ s. with_mfa_on (active_user c.user_id s)) Error.invalid_mfa_code
  r ← attempt_factor (verify_second_factor sec ctx u submitted now)
  after_factor ctx now u c r

unfoldable pub verify_mfa_challenge :
    Security → RequestContext → Time → ℕ → Option String → Option String → Action Store User
verify_mfa_challenge sec ctx now token code recovery_code = do
  c ← query (live_challenge sec token now) Error.invalid_mfa_code
  check_challenge sec ctx now (submitted_code code recovery_code) c
