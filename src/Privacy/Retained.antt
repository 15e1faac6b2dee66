-- ===== src/Privacy/Retained.antt =====
-- What an organization asks for its retention is what it gets.
use visi_on_route.Prelude.{
  Bool-cases, List, Option, String, Time, [], ap, arith, find, if◌then◌else◌, inl, inr, none,
  on_some, or_else, refl, some, str_eq, sym, true, update_where, ℕ, ◌==◌, ◌∷◌, ◌≡◌, ◌≤◌,
}
use text.Mathlib.TextEquality.{eq_iff}
use visi_on_route.Privacy.Store.{Store, OrganizationSettings}
use visi_on_route.Tx.{request, ok}
use visi_on_route.Privacy.Retention.{
  Setting, Settings, Wishes, setting_of, drop_key, pick, are_allowed, is_allowed, merge_one, merge,
  RetentionPolicy, resolve_retention, min_retention_days,
}
use visi_on_route.Access.Context.{RequestContext}
use visi_on_route.Saas.Plans.{Entitlements, get_entitlements}
use visi_on_route.Privacy.Service.{update_retention, get_retention, settings_of}

-- The last wish for a category, where there is one
abbrev pub last_wish : String → Wishes → Option (Option Setting)
last_wish key [] = none
last_wish key ((k, v) ∷ ws) = or_else (last_wish key ws) (if str_eq k key then some v else none)

-- The days that a category comes to: those wished for, those of the plan where the wish is to
-- follow it, and what was there before where nothing is wished.
abbrev pub granted : ℕ → Option (Option Setting) → Option Setting → ℕ
granted plan_days (some (some (Setting.whole n))) before = n
granted plan_days (some v) before = plan_days
granted plan_days none before = pick plan_days before

str_eq-same : (a b c : String) → str_eq a b ≡ true → str_eq a c ≡ str_eq b c
str_eq-same a b c h = ap (λ x. str_eq x c) ((eq_iff a b).0 h)

str_eq-swap : (a b : String) → str_eq a b ≡ true → str_eq b a ≡ true
str_eq-swap a b h = (eq_iff b a).1 (sym ((eq_iff a b).0 h))

setting-drop :
    (key k : String) (xs : Settings)
    → setting_of key (drop_key k xs) ≡ (if str_eq k key then none else setting_of key xs)
setting-drop key k [] = ground arith
setting-drop key k ((j, v) ∷ xs) = elim (Bool-cases (str_eq j k)) [
  | inl e ↦ ground (arith, setting-drop key k xs, str_eq-same j k key e)
  | inr e ↦ ground (arith, setting-drop key k xs, str_eq-same j key k, str_eq-swap k key)
]

-- The setting after one wish.
setting-merge_one :
    (key k : String) (v : Option Setting) (xs : Settings)
    → setting_of key (merge_one (k, v) xs) ≡ (if str_eq k key then v else setting_of key xs)
setting-merge_one key k none xs = setting-drop key k xs
setting-merge_one key k (some v) xs = ground (arith, setting-drop key k xs)

pick-granted :
    (plan_days : ℕ) (key k : String) (v : Option Setting) (before : Option Setting)
    → is_allowed plan_days (k, v) ≡ true
    → pick plan_days (if str_eq k key then v else before)
      ≡ granted plan_days (if str_eq k key then some v else none) before
pick-granted plan_days key k none before h = ground arith
pick-granted plan_days key k (some (Setting.whole n)) before h = ground arith
pick-granted plan_days key k (some (Setting.negative n)) before h = ground arith
pick-granted plan_days key k (some Setting.other) before h = ground arith

pick-merge :
    (plan_days : ℕ) (key : String) (ws : Wishes) (xs : Settings)
    → are_allowed plan_days ws ≡ true
    → pick plan_days (setting_of key (merge ws xs))
      ≡ granted plan_days (last_wish key ws) (setting_of key xs)
unfolding are_allowed
pick-merge plan_days key [] xs h = refl
pick-merge plan_days key ((k, v) ∷ ws) xs h = ground (
  arith,
  pick-merge plan_days key ws (merge_one (k, v) xs),
  setting-merge_one key k v xs,
  pick-granted plan_days key k v (setting_of key xs),
)

module _ (ctx : RequestContext) (now : Time) (tenant : ℕ) (wishes : Wishes) (s : Store)
    (e : Entitlements) (before : Settings) where
  -- The plan and the settings of the organization are there, and the plan allows the wishes.
  pub record IsGrantable : Type 0 where
    pub plan : get_entitlements now tenant s.saas ≡ some e
    pub stored : settings_of tenant s ≡ some before
    pub allowed : are_allowed e.retention_days wishes ≡ true

  -- The days that each category comes to
  abbrev pub wanted : RetentionPolicy
  wanted = record {
    telemetry_days =
        granted e.retention_days (last_wish "telemetry_days" wishes)
          (setting_of "telemetry_days" before);
    evidence_media_days =
        granted e.retention_days (last_wish "evidence_media_days" wishes)
          (setting_of "evidence_media_days" before);
  }

  found-kept :
      (xs : List OrganizationSettings) (ys : Settings)
      → on_some
          (λ (x : OrganizationSettings). x.retention)
          (find (λ (x : OrganizationSettings). x.organization_id == tenant) xs)
        ≡ some before
      → on_some
          (λ (x : OrganizationSettings). x.retention)
          (find
            (λ (x : OrganizationSettings). x.organization_id == tenant)
            (update_where
              (λ (x : OrganizationSettings). x.organization_id == tenant)
              (λ x. record x { retention = ys })
              xs))
        ≡ some ys
  found-kept [] ys h = ground arith
  found-kept (x ∷ xs) ys h = ground (arith, found-kept xs ys)

  resolved : IsGrantable → resolve_retention e.retention_days (merge wishes before) ≡ wanted
  unfolding resolve_retention
  resolved g = ground (
    arith,
    pick-merge e.retention_days "telemetry_days" wishes before g.allowed,
    pick-merge e.retention_days "evidence_media_days" wishes before g.allowed,
  )

  -- Wishes that the plan allows are granted: the answer gives each category the days last wished
  -- for, those of the plan where the wish is to follow it, and what it had before where nothing is
  -- wished; and a later request, at the same moment, reads the same.
  pub update_retention-granted :
      IsGrantable
      → ((request (update_retention ctx now tenant wishes) s).0 ≡ ok wanted)
        × (request (get_retention now tenant) (request (update_retention ctx now tenant wishes) s).1
            ≡ (ok wanted, (request (update_retention ctx now tenant wishes) s).1))
  unfolding update_retention get_retention
  update_retention-granted g = ground (
    arith,
    g.plan,
    g.stored,
    g.allowed,
    resolved g,
    found-kept s.settings (merge wishes before) g.stored,
  )

-- From the least retention up to the plan's
pub record IsWithin (plan_days : ℕ) (n : ℕ) : Type 0 where
  pub least : min_retention_days ≤ n
  pub most : n ≤ plan_days

pick-IsWithin :
    (plan_days : ℕ) (o : Option Setting)
    → min_retention_days ≤ plan_days
    → IsWithin plan_days (pick plan_days o)
pick-IsWithin plan_days none h = record { least = h; most = omega arith }
pick-IsWithin plan_days (some (Setting.whole n)) h = record {
  least = ground arith;
  most = ground arith;
}
pick-IsWithin plan_days (some (Setting.negative n)) h = record { least = h; most = omega arith }
pick-IsWithin plan_days (some Setting.other) h = record { least = h; most = omega arith }

-- Whatever the stored settings are, also ones that no request could have stored, both categories
-- are kept for 30 days at least and never longer than the plan allows, for a plan of 30 days or
-- more.
pub resolve_retention-IsWithin :
    (plan_days : ℕ) (overrides : Settings)
    → min_retention_days ≤ plan_days
    → IsWithin plan_days (resolve_retention plan_days overrides).telemetry_days
      × IsWithin plan_days (resolve_retention plan_days overrides).evidence_media_days
unfolding resolve_retention
resolve_retention-IsWithin plan_days overrides h = (
  pick-IsWithin plan_days (setting_of "telemetry_days" overrides) h,
  pick-IsWithin plan_days (setting_of "evidence_media_days" overrides) h,
)
