-- ===== src/Privacy/Retention.antt =====
-- domain/privacy.py: the retention of an organization, and the delays between attempts. A setting
-- is a JSON value; a dictionary is a list of its pairs, with the last value of a key in front.
use visi_on_route.Prelude.{
  Bool, List, Option, String, Time, [], false, find, if◌then◌else◌, leb, ltb, max, min, minutes,
  none, not, on_some, select, some, str_eq, true, ℕ, ◌&&◌, ◌-◌, ◌^◌, ◌||◌, ◌∷◌,
}

-- A JSON value, as far as `resolve_retention` tells values apart
pub data Setting : Type 0 where
  whole : ℕ → Setting
  negative : ℕ → Setting
  other : Setting

pub record RetentionPolicy : Type 0 where
  pub telemetry_days : ℕ
  pub evidence_media_days : ℕ

-- `MIN_RETENTION_DAYS`
abbrev pub min_retention_days : ℕ
min_retention_days = 30

-- `RETENTION_CATEGORIES`
abbrev pub is_category : String → Bool
is_category key = str_eq key "telemetry_days" || str_eq key "evidence_media_days"

abbrev pub Settings : Type 0
Settings = List (String × Setting)

-- `overrides.get(key)`
abbrev pub setting_of : String → Settings → Option Setting
setting_of key xs =
    on_some (λ (p : String × Setting). p.1) (find (λ (p : String × Setting). str_eq p.0 key) xs)

-- `pick`, on the value that was found
abbrev pub pick : ℕ → Option Setting → ℕ
pick plan_days (some (Setting.whole n)) =
    if ltb 0 n then max min_retention_days (min n plan_days) else plan_days
pick plan_days _ = plan_days

unfoldable pub resolve_retention : ℕ → Settings → RetentionPolicy
resolve_retention plan_days overrides = record {
  telemetry_days = pick plan_days (setting_of "telemetry_days" overrides);
  evidence_media_days = pick plan_days (setting_of "evidence_media_days" overrides);
}

-- The wanted number of days of a category, or nothing to follow the plan; the API admits integers.
abbrev pub Wishes : Type 0
Wishes = List (String × Option Setting)

-- Whether the loop of `validate_retention_overrides` finds no problem in one item
abbrev pub is_allowed : ℕ → String × Option Setting → Bool
is_allowed plan_days (key, none) = is_category key
is_allowed plan_days (key, some (Setting.whole n)) =
    is_category key && leb min_retention_days n && leb n plan_days
is_allowed plan_days (key, some _) = false

unfoldable pub are_allowed : ℕ → Wishes → Bool
are_allowed plan_days [] = true
are_allowed plan_days (w ∷ ws) = is_allowed plan_days w && are_allowed plan_days ws

-- `merged.pop(key, None)`
abbrev pub drop_key : String → Settings → Settings
drop_key key xs = select (λ (p : String × Setting). not (str_eq p.0 key)) xs

-- One turn of the loop of `update_retention`
abbrev pub merge_one : String × Option Setting → Settings → Settings
merge_one (key, none) xs = drop_key key xs
merge_one (key, some v) xs = (key, v) ∷ drop_key key xs

abbrev pub merge : Wishes → Settings → Settings
merge [] xs = xs
merge (w ∷ ws) xs = merge ws (merge_one w xs)

-- `retry_delay`; subtraction on ℕ stops at 0, as `max(0, …)` does
unfoldable pub retry_delay : ℕ → Time
retry_delay attempts = minutes (min 60 (2 ^ (attempts - 1)))
