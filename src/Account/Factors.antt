-- ===== src/Account/Factors.antt =====
-- `_verify_second_factor`: a code of the authenticator, or a recovery code.
use visi_on_route.Prelude.{
  Bool, Option, String, Time, find, if◌then◌else◌, is_empty, is_none, ltb, none, some, true,
  update_where, ℕ, ◌&&◌, ◌==◌,
}
use visi_on_route.Identity.Store.{Store, User, MfaRecoveryCode}
use visi_on_route.Account.Base.{Security, notify, save_user, audit_user, decrypt}
use visi_on_route.Tx.{Action, ◌>>=◌, or_raise, query, raise, Error, ◌>>◌, modify, pure, lift}
use visi_on_route.Access.Context.{RequestContext}
use visi_on_route.Account.Totp.{matching_time_step, looks_like_totp}

pub data Factor : Type 0 where
  totp recovery : Factor

-- A step is used up by a code for it, or for a later one.
abbrev pub is_newer : Option ℕ → ℕ → Bool
is_newer none step = true
is_newer (some last) step = ltb last step

abbrev pub accepted_step : User → Option ℕ → Option ℕ
accepted_step u none = none
accepted_step u (some step) = if is_newer u.mfa_last_used_step step then some step else none

abbrev pub with_step : ℕ → User → User
with_step step u = record u { mfa_last_used_step = some step }

unfoldable pub verify_totp : Security → User → String → Time → Action Store Factor
verify_totp sec u code now = do
  value ← or_raise u.mfa_totp_secret_enc Error.invalid_mfa_code
  secret ← decrypt sec value
  matched ← lift (matching_time_step sec.totp_text secret code now)
  step ← or_raise (accepted_step u matched) Error.invalid_mfa_code
  modify (save_user (with_step step u))
  pure Factor.totp

-- An unused code of the user, under its digest
abbrev pub is_code : Security → ℕ → String → MfaRecoveryCode → Bool
is_code sec user_id code c =
    (c.user_id == user_id) && (c.code_hash == sec.hash_recovery_code code) && is_none c.used_at

abbrev pub find_code : Security → ℕ → String → Store → Option MfaRecoveryCode
find_code sec user_id code s = find (is_code sec user_id code) s.recovery_codes

abbrev pub use_code : ℕ → Time → Store → Store
use_code k now s = record s {
  recovery_codes =
      update_where (λ (c : MfaRecoveryCode). c.id == k) (λ c. record c { used_at = some now })
        s.recovery_codes;
}

unfoldable pub verify_recovery :
    Security → RequestContext → User → String → Time → Action Store Factor
verify_recovery sec ctx u code now = do
  c ← query (find_code sec u.id code) Error.invalid_mfa_code
  modify (use_code c.id now)
  modify (audit_user ctx "auth.mfa_recovery_code_used" u)
  notify sec u
  pure Factor.recovery

unfoldable pub verify_second_factor :
    Security → RequestContext → User → String → Time → Action Store Factor
verify_second_factor sec ctx u submitted now =
    if is_empty submitted
    then raise Error.invalid_mfa_code
    else if looks_like_totp sec.totp_text submitted
    then verify_totp sec u submitted now
    else verify_recovery sec ctx u submitted now
