-- ===== src/Saas/Growth.antt =====
-- application/saas/service.py: the enforcement of limits and the changes of subscriptions, and
-- `create_vehicle` of application/fleet/service.py, which they guard.
use visi_on_route.Prelude.{
  Bool, Option, String, TextMethods, Time, any, count, ltb, none, not, some, str_eq, true, ℕ, ◌&&◌,
  ◌==◌, ◌||◌, ◌∷◌,
}
use visi_on_route.Tx.{Action, ◌>>=◌, ◌>>◌, gets, query, raise_unless, Error, modify, pure}
use visi_on_route.Access.Context.{RequestContext}
use visi_on_route.Saas.Plans.{Store, FleetVehicle, Fleet, get_entitlements}
use visi_on_route.Audit.{AuditLog, record_audit}

abbrev pub in_organization : ℕ → FleetVehicle → Bool
in_organization org v = v.organization_id == org

abbrev pub has_room : Option ℕ → ℕ → Bool
has_room none n = true
has_room (some limit) n = ltb n limit

unfoldable pub enforce_vehicle_limit : Time → ℕ → Action Store (Unit {0})
enforce_vehicle_limit now org = do
  e ← query (get_entitlements now org) Error.runtime_error
  raise_unless (not e.growth_blocked) Error.domain_conflict
  used ← gets (λ (s : Store). count (in_organization org) s.vehicles)
  raise_unless (has_room e.vehicle_limit used) Error.domain_conflict

abbrev pub has_fleet : ℕ → Option ℕ → Store → Bool
has_fleet org none s = true
has_fleet org (some k) s = any (λ (f : Fleet). (f.id == k) && (f.organization_id == org)) s.fleets

-- The unique indexes of `vehicles`
abbrev pub is_taken : FleetVehicle → Store → Bool
is_taken v s =
    any
      (λ (w : FleetVehicle).
        (w.id == v.id)
        || ((w.organization_id == v.organization_id) && str_eq w.external_id v.external_id))
      s.vehicles

abbrev pub put_vehicle : FleetVehicle → Store → Store
put_vehicle v s = record s { vehicles = v ∷ s.vehicles }

abbrev pub new_vehicle : TextMethods → ℕ → ℕ → String → Option ℕ → FleetVehicle
new_vehicle text org new_id external_id fleet_id = record {
  id = new_id;
  organization_id = org;
  external_id = text.strip external_id;
  fleet_id = fleet_id;
}

abbrev pub add_audit : AuditLog → Store → Store
add_audit entry s = record s { audits = entry ∷ s.audits }

-- The flush of the new row, and its audit
unfoldable pub add_vehicle : RequestContext → FleetVehicle → Action Store FleetVehicle
add_vehicle ctx v = do
  taken ← gets (is_taken v)
  raise_unless (not taken) Error.domain_conflict
  modify (put_vehicle v)
  modify (add_audit (record_audit ctx none "vehicle.created" v.id))
  pure v

unfoldable pub create_vehicle :
    TextMethods → Time → RequestContext → ℕ → ℕ → String → Option ℕ → Action Store FleetVehicle
create_vehicle text now ctx org new_id external_id fleet_id = do
  enforce_vehicle_limit now org
  known ← gets (has_fleet org fleet_id)
  raise_unless known Error.domain_not_found
  add_vehicle ctx (new_vehicle text org new_id external_id fleet_id)
