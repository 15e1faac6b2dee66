-- ===== src/Saas/Tests.antt =====
-- Runs of the enforcement of limits.
use visi_on_route.Prelude.{
  TextMethods, [], arith, days, false, if◌then◌else◌, none, refl, some, ℕ, ◌==◌, ◌∷◌, ◌≡◌,
}
use visi_on_route.Tx.{request, err, Error}
use visi_on_route.Access.Context.{RequestContext}
use visi_on_route.Saas.Plans.{Store, Plan, Subscription, SubscriptionStatus}
use visi_on_route.Saas.Growth.{create_vehicle}
use visi_on_route.Saas.Limits.{IsWithinLimits}
use visi_on_route.Saas.Vehicles.{
  NewVehicle, create_all, create_all-IsWithinLimits, create_vehicle-expired, IsOver,
}

abbrev plain_text : TextMethods
plain_text = record { strip = λ s. s; prefix = λ n s. s }

abbrev manager : RequestContext
manager = record {
  user_id = some 1;
  organization_id = some 1;
  role = none;
  is_platform_admin = false;
  user_agent = none;
}

abbrev small_plan : Plan
small_plan = record {
  key = "baslangic";
  vehicle_limit = some 1;
  user_limit = some 5;
  retention_days = 90;
}

abbrev on_trial : Subscription
on_trial = record {
  organization_id = 1;
  plan_key = "baslangic";
  status = SubscriptionStatus.trial;
  trial_ends_at = some (days 30);
}

abbrev market : Store
market = record {
  plans = small_plan ∷ [];
  subscriptions = on_trial ∷ [];
  fleets = [];
  vehicles = [];
  audits = [];
}

abbrev wish : ℕ → NewVehicle
wish n = record {
  now = days 1;
  caller = manager;
  organization_id = 1;
  new_id = n;
  external_id = if n == 1 then "34 ABC 01" else "34 ABC 02";
  fleet_id = none;
}

create_all-IsWithinLimits_example :
    IsWithinLimits (create_all plain_text (wish 1 ∷ wish 2 ∷ []) market)
create_all-IsWithinLimits_example =
    create_all-IsWithinLimits plain_text (wish 1 ∷ wish 2 ∷ []) market (λ org n h. omega arith)

create_vehicle-expired_example :
    request (create_vehicle plain_text (days 31) manager 1 9 "34 ABC 01" none) market
    ≡ (err Error.domain_conflict, market)
create_vehicle-expired_example =
    create_vehicle-expired plain_text (days 31) manager 1 9 "34 ABC 01" none on_trial small_plan
      market refl refl (IsOver.unrecorded (days 30) refl refl (omega arith))
