-- ===== src/Account/Totp.antt =====
-- infrastructure/security/totp.py: which time step a code belongs to. The codes of a secret are
-- those of the library pyotp.
use visi_on_route.Prelude.{
  Bool, Option, String, Time, if◌then◌else◌, none, not, seconds, some, str_eq, suc, zero, ℕ, ◌&&◌,
  ◌+◌, ◌-◌, ◌/◌, ◌==◌,
}
use visi_on_route.Tx.{Result, ok, err, Error}

pub record TotpText : Type 0 where
  -- `"".join(code.split())`
  pub compact : String → String
  pub length : String → ℕ
  pub is_digit : String → Bool
  pub is_ascii : String → Bool
  -- `pyotp.TOTP(secret).at(step * 30)`
  pub code_at : ℕ → ℕ → String

-- The seconds of the calendar before the Unix epoch
abbrev pub epoch : Time
epoch = seconds 62135596800

abbrev pub time_step : Time → ℕ
time_step now = (now - epoch) / seconds 30

unfoldable pub looks_like_totp : TotpText → String → Bool
looks_like_totp t code = (t.length (t.compact code) == 6) && t.is_digit (t.compact code)

-- The first of the steps from `step` on, `n` of them, whose code is the given one
abbrev pub first_match : TotpText → ℕ → String → ℕ → ℕ → Option ℕ
first_match t secret code step zero = none
first_match t secret code step (suc n) =
    let rest = first_match t secret code (step + 1) n in
    if str_eq (t.code_at secret step) code then some step else rest

-- `matching_time_step` with its default window of one step on each side. The first comparison,
-- `hmac.compare_digest`, raises on a text outside ASCII, which `str.isdigit` lets through.
unfoldable pub matching_time_step : TotpText → ℕ → String → Time → Result (Option ℕ)
unfolding looks_like_totp
matching_time_step t secret code now =
    if not (looks_like_totp t code)
    then ok none
    else if t.is_ascii (t.compact code)
    then ok (first_match t secret (t.compact code) (time_step now - 1) 3)
    else err Error.type_error
