-- ===== src/Saas/Vehicles.antt =====
-- What requests for new vehicles guarantee.
use visi_on_route.Prelude.{
  List, Option, String, TextMethods, Time, [], arith, some, ℕ, ◌∷◌, ◌≡◌, ◌≤◌,
}
use visi_on_route.Tx.{request, request-Keeps, err, Error}
use visi_on_route.Access.Context.{RequestContext}
use visi_on_route.Saas.Plans.{
  Store, Plan, Subscription, SubscriptionStatus, get_entitlements, subscription_of, plan_by_key,
}
use visi_on_route.Saas.Growth.{create_vehicle, enforce_vehicle_limit}
use visi_on_route.Saas.Limits.{IsWithinLimits, create_vehicle-Keeps}

-- A request for a new vehicle.
pub record NewVehicle : Type 0 where
  pub now : Time
  pub caller : RequestContext
  pub organization_id : ℕ
  pub new_id : ℕ
  pub external_id : String
  pub fleet_id : Option ℕ

abbrev pub create_all : TextMethods → List NewVehicle → Store → Store
create_all text [] s = s
create_all text (r ∷ rs) s =
    create_all text rs
      (request
        (create_vehicle text r.now r.caller r.organization_id r.new_id r.external_id r.fleet_id)
        s).1

-- Requests for new vehicles, one after another, never take an organization beyond the vehicle limit
-- of its plan, if no organization was beyond it before.
pub create_all-IsWithinLimits :
    (text : TextMethods) (rs : List NewVehicle) (s : Store)
    → IsWithinLimits s
    → IsWithinLimits (create_all text rs s)
create_all-IsWithinLimits text [] s w = w
create_all-IsWithinLimits text (r ∷ rs) s w =
    create_all-IsWithinLimits text rs
      (request
        (create_vehicle text r.now r.caller r.organization_id r.new_id r.external_id r.fleet_id)
        s).1
      (request-Keeps {P = IsWithinLimits}
        (create_vehicle text r.now r.caller r.organization_id r.new_id r.external_id r.fleet_id) s
        (create_vehicle-Keeps text r.now r.caller r.organization_id r.new_id r.external_id
          r.fleet_id)
        w)

-- The trial of a subscription has ended: its time is over, or its end was recorded.
pub data IsOver (x : Subscription) (now : Time) : Type 0 where
  unrecorded :
      (ends_at : Time)
      → x.status ≡ SubscriptionStatus.trial
      → x.trial_ends_at ≡ some ends_at
      → ends_at ≤ now
      → IsOver x now
  recorded : x.status ≡ SubscriptionStatus.past_due → IsOver x now

-- Once the trial of an organization, of a known plan, has ended, no vehicle is added, whether its
-- subscription still says that it is on trial or that a payment is due: the request is a conflict
-- and changes nothing.
pub create_vehicle-expired :
    (text : TextMethods) (now : Time) (ctx : RequestContext) (org new_id : ℕ) (external_id : String)
    (fleet_id : Option ℕ) (x : Subscription) (p : Plan) (s : Store)
    → subscription_of org s ≡ some x
    → plan_by_key x.plan_key s ≡ some p
    → IsOver x now
    → request (create_vehicle text now ctx org new_id external_id fleet_id) s
      ≡ (err Error.domain_conflict, s)
unfolding create_vehicle enforce_vehicle_limit get_entitlements
create_vehicle-expired text now ctx org new_id external_id fleet_id x p s found planned
      (IsOver.unrecorded ends_at on_trial ends over) =
    ground (arith, found, planned, on_trial, ends, over)
create_vehicle-expired text now ctx org new_id external_id fleet_id x p s found planned
      (IsOver.recorded due) =
    ground (arith, found, planned, due)
