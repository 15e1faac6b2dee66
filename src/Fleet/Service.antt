-- ===== src/Fleet/Service.antt =====
-- Drivers, devices and the assignments of drivers to vehicles, in application/fleet/service.py, with
-- their rows of infrastructure/db/models/fleet.py. A flush that breaks a unique index rolls back
-- and raises a conflict.
use visi_on_route.Prelude.{
  Bool, List, Option, String, TextMethods, Time, any, find, if◌then◌else◌, is_none, is_some, none,
  not, some, str_eq, true, update_where, ℕ, ◌&&◌, ◌==◌, ◌||◌, ◌∷◌,
}
use visi_on_route.Tx.{Action, ◌>>=◌, ◌>>◌, gets, query, raise_unless, Error, modify, pure}
use visi_on_route.Access.Context.{RequestContext}
use visi_on_route.Audit.{AuditLog, record_audit}

pub record Driver : Type 0 where
  pub id : ℕ
  pub organization_id : ℕ
  pub external_id : String
  pub full_name : String
  pub phone : Option String

pub record Vehicle : Type 0 where
  pub id : ℕ
  pub organization_id : ℕ

pub record Device : Type 0 where
  pub id : ℕ
  pub organization_id : ℕ
  pub vehicle_id : Option ℕ
  pub external_id : String
  pub kind : String
  pub label : Option String

pub record DriverAssignment : Type 0 where
  pub id : ℕ
  pub organization_id : ℕ
  pub driver_id : ℕ
  pub vehicle_id : ℕ
  pub started_at : Time
  pub ended_at : Option Time

pub record Store : Type 0 where
  pub drivers : List Driver
  pub vehicles : List Vehicle
  pub devices : List Device
  pub assignments : List DriverAssignment
  pub audits : List AuditLog

abbrev pub add_audit : AuditLog → Store → Store
add_audit entry s = record s { audits = entry ∷ s.audits }

-- `_require`, for each of the tables
abbrev pub own_driver : ℕ → ℕ → Store → Option Driver
own_driver tenant k s = elim (find (λ (d : Driver). d.id == k) s.drivers) [
  | none ↦ none
  | some d ↦ if d.organization_id == tenant then some d else none
]

abbrev pub own_vehicle : ℕ → ℕ → Store → Option Vehicle
own_vehicle tenant k s = elim (find (λ (v : Vehicle). v.id == k) s.vehicles) [
  | none ↦ none
  | some v ↦ if v.organization_id == tenant then some v else none
]

abbrev pub own_assignment : ℕ → ℕ → Store → Option DriverAssignment
own_assignment tenant k s = elim (find (λ (a : DriverAssignment). a.id == k) s.assignments) [
  | none ↦ none
  | some a ↦ if a.organization_id == tenant then some a else none
]

abbrev pub is_driver_taken : Driver → Store → Bool
is_driver_taken d s =
    any
      (λ (e : Driver).
        (e.id == d.id)
        || ((e.organization_id == d.organization_id) && str_eq e.external_id d.external_id))
      s.drivers

abbrev pub put_driver : Driver → Store → Store
put_driver d s = record s { drivers = d ∷ s.drivers }

abbrev pub new_driver : TextMethods → ℕ → ℕ → String → String → Option String → Driver
new_driver text tenant new_id external_id full_name phone = record {
  id = new_id;
  organization_id = tenant;
  external_id = text.strip external_id;
  full_name = full_name;
  phone = phone;
}

unfoldable pub add_driver : RequestContext → Driver → Action Store Driver
add_driver ctx d = do
  taken ← gets (is_driver_taken d)
  raise_unless (not taken) Error.domain_conflict
  modify (put_driver d)
  modify (add_audit (record_audit ctx none "driver.created" d.id))
  pure d

abbrev pub create_driver :
    TextMethods → RequestContext → ℕ → ℕ → String → String → Option String → Action Store Driver
create_driver text ctx tenant new_id external_id full_name phone =
    add_driver ctx (new_driver text tenant new_id external_id full_name phone)

abbrev pub is_device_taken : Device → Store → Bool
is_device_taken d s =
    any
      (λ (e : Device).
        (e.id == d.id)
        || ((e.organization_id == d.organization_id) && str_eq e.external_id d.external_id))
      s.devices

abbrev pub put_device : Device → Store → Store
put_device d s = record s { devices = d ∷ s.devices }

abbrev pub is_own_vehicle : ℕ → Option ℕ → Store → Bool
is_own_vehicle tenant none s = true
is_own_vehicle tenant (some k) s = is_some (own_vehicle tenant k s)

abbrev pub new_device : TextMethods → ℕ → ℕ → String → String → Option String → Option ℕ → Device
new_device text tenant new_id external_id kind label vehicle_id = record {
  id = new_id;
  organization_id = tenant;
  vehicle_id = vehicle_id;
  external_id = text.strip external_id;
  kind = kind;
  label = label;
}

unfoldable pub add_device : RequestContext → Device → Action Store Device
add_device ctx d = do
  known ← gets (is_own_vehicle d.organization_id d.vehicle_id)
  raise_unless known Error.domain_not_found
  taken ← gets (is_device_taken d)
  raise_unless (not taken) Error.domain_conflict
  modify (put_device d)
  modify (add_audit (record_audit ctx none "device.created" d.id))
  pure d

abbrev pub create_device :
    TextMethods
    → RequestContext
    → ℕ
    → ℕ
    → String
    → String
    → Option String
    → Option ℕ
    → Action Store Device
create_device text ctx tenant new_id external_id kind label vehicle_id =
    add_device ctx (new_device text tenant new_id external_id kind label vehicle_id)

-- The rows of `uq_driver_assignments_open_vehicle`
abbrev pub is_open_for : ℕ → DriverAssignment → Bool
is_open_for vehicle_id a = (a.vehicle_id == vehicle_id) && is_none a.ended_at

abbrev pub is_taken : DriverAssignment → Store → Bool
is_taken a s =
    any (λ (b : DriverAssignment). b.id == a.id) s.assignments
    || any (is_open_for a.vehicle_id) s.assignments

abbrev pub put_assignment : DriverAssignment → Store → Store
put_assignment a s = record s { assignments = a ∷ s.assignments }

abbrev pub or_now : Option Time → Time → Time
or_now none now = now
or_now (some t) now = t

abbrev pub new_assignment : Time → ℕ → ℕ → ℕ → ℕ → Option Time → DriverAssignment
new_assignment now tenant new_id driver_id vehicle_id started_at = record {
  id = new_id;
  organization_id = tenant;
  driver_id = driver_id;
  vehicle_id = vehicle_id;
  started_at = or_now started_at now;
  ended_at = none;
}

unfoldable pub assign_driver :
    RequestContext → Time → ℕ → ℕ → ℕ → ℕ → Option Time → Action Store DriverAssignment
assign_driver ctx now tenant new_id driver_id vehicle_id started_at = do
  query (own_driver tenant driver_id) Error.domain_not_found
  query (own_vehicle tenant vehicle_id) Error.domain_not_found
  taken ← gets (is_taken (new_assignment now tenant new_id driver_id vehicle_id started_at))
  raise_unless (not taken) Error.domain_conflict
  modify (put_assignment (new_assignment now tenant new_id driver_id vehicle_id started_at))
  modify (add_audit (record_audit ctx none "driver.assigned" new_id))
  pure (new_assignment now tenant new_id driver_id vehicle_id started_at)

abbrev pub end_at : Time → DriverAssignment → DriverAssignment
end_at t a = record a { ended_at = some t }

abbrev pub change_assignment : ℕ → (DriverAssignment → DriverAssignment) → Store → Store
change_assignment k f s = record s {
  assignments = update_where (λ (a : DriverAssignment). a.id == k) f s.assignments;
}

unfoldable pub end_assignment :
    RequestContext → Time → ℕ → ℕ → Option Time → Action Store DriverAssignment
end_assignment ctx now tenant k ended_at = do
  a ← query (own_assignment tenant k) Error.domain_not_found
  raise_unless (is_none a.ended_at) Error.domain_conflict
  modify (change_assignment k (end_at (or_now ended_at now)))
  modify (add_audit (record_audit ctx none "driver.assignment_ended" k))
  pure (end_at (or_now ended_at now) a)
