-- ===== src/Saas/Plans.antt =====
-- domain/usage.py, the rows of infrastructure/db/models/saas.py, and the entitlements of
-- application/saas/service.py. A negative limit means that there is none, so a limit may be null.
use visi_on_route.Prelude.{
  Bool, List, Option, String, Time, days, false, find, if◌then◌else◌, leb, none, on_some, some,
  str_eq, true, ℕ, ◌&&◌, ◌+◌, ◌-◌, ◌/◌, ◌==◌,
}
use visi_on_route.Audit.{AuditLog}

pub data SubscriptionStatus : Type 0 where
  trial active past_due canceled : SubscriptionStatus

pub record Plan : Type 0 where
  pub key : String
  pub vehicle_limit : Option ℕ
  pub user_limit : Option ℕ
  pub retention_days : ℕ

pub record Subscription : Type 0 where
  pub organization_id : ℕ
  pub plan_key : String
  pub status : SubscriptionStatus
  pub trial_ends_at : Option Time

pub record Fleet : Type 0 where
  pub id : ℕ
  pub organization_id : ℕ

-- A vehicle, without the columns that only describe it.
pub record FleetVehicle : Type 0 where
  pub id : ℕ
  pub organization_id : ℕ
  pub external_id : String
  pub fleet_id : Option ℕ

pub record Store : Type 0 where
  pub plans : List Plan
  pub subscriptions : List Subscription
  pub fleets : List Fleet
  pub vehicles : List FleetVehicle
  pub audits : List AuditLog

pub record Entitlements : Type 0 where
  pub plan_key : String
  pub status : SubscriptionStatus
  pub vehicle_limit : Option ℕ
  pub user_limit : Option ℕ
  pub retention_days : ℕ
  pub trial_ends_at : Option Time
  pub trial_days_left : Option ℕ
  pub growth_blocked : Bool

abbrev pub is_trial : SubscriptionStatus → Bool
is_trial status = elim status [ SubscriptionStatus.trial ↦ true | _ ↦ false ]

abbrev pub trial_has_expired : SubscriptionStatus → Option Time → Time → Bool
trial_has_expired status ends_at now =
    is_trial status && elim ends_at [ none ↦ false | some t ↦ leb t now ]

abbrev pub effective_status : SubscriptionStatus → Option Time → Time → SubscriptionStatus
effective_status status ends_at now =
    if trial_has_expired status ends_at now then SubscriptionStatus.past_due else status

-- Days rounded up; subtraction on ℕ stops at 0, as `max(0, …)` does
unfoldable pub trial_days_left : SubscriptionStatus → Option Time → Time → Option ℕ
trial_days_left status none now = none
trial_days_left status (some t) now =
    if is_trial status then some ((t - now + (days 1 - 1)) / days 1) else none

-- `GROWTH_BLOCKED_STATUSES`
abbrev pub blocks_growth : SubscriptionStatus → Bool
blocks_growth status = elim status [
  | SubscriptionStatus.past_due ↦ true
  | SubscriptionStatus.canceled ↦ true
  | _ ↦ false
]

abbrev pub default_trial_plan : String
default_trial_plan = "baslangic"

abbrev pub plan_by_key : String → Store → Option Plan
plan_by_key k s = find (λ (p : Plan). str_eq p.key k) s.plans

abbrev pub subscription_of : ℕ → Store → Option Subscription
subscription_of org s = find (λ (x : Subscription). x.organization_id == org) s.subscriptions

-- Organizations without a subscription have the trial plan.
abbrev pub fallback : Option Plan → Option Entitlements
fallback none = none
fallback (some p) = some (record {
  plan_key = p.key;
  status = SubscriptionStatus.trial;
  vehicle_limit = p.vehicle_limit;
  user_limit = p.user_limit;
  retention_days = p.retention_days;
  trial_ends_at = none;
  trial_days_left = none;
  growth_blocked = false;
})

abbrev pub entitle : Time → Subscription → Plan → Entitlements
entitle now x p =
    let status = effective_status x.status x.trial_ends_at now in
    record {
      plan_key = p.key;
      status = status;
      vehicle_limit = p.vehicle_limit;
      user_limit = p.user_limit;
      retention_days = p.retention_days;
      trial_ends_at = x.trial_ends_at;
      trial_days_left = trial_days_left status x.trial_ends_at now;
      growth_blocked = blocks_growth status;
    }

-- The join of a subscription with its plan
abbrev pub joined : Option Subscription → Store → Option (Subscription × Plan)
joined none s = none
joined (some x) s = on_some (λ (p : Plan). (x, p)) (plan_by_key x.plan_key s)

abbrev pub entitled : Time → Option (Subscription × Plan) → Store → Option Entitlements
entitled now none s = fallback (plan_by_key default_trial_plan s)
entitled now (some (x, p)) s = some (entitle now x p)

-- `get_entitlements`; nothing where the plan catalog is missing
unfoldable pub get_entitlements : Time → ℕ → Store → Option Entitlements
get_entitlements now org s = entitled now (joined (subscription_of org s) s) s
