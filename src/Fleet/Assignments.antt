-- ===== src/Fleet/Assignments.antt =====
-- A vehicle has one driver at a time.
use visi_on_route.Prelude.{
  ==_iff, Bool, Bool-cases, List, Option, Time, [], any-false, arith, count, count-update_where_le,
  false, if◌then◌else◌, inl, inr, is_none, is_some, none, not, refl, some, subst, sym, true, ℕ,
  ◌&&◌, ◌==◌, ◌∷◌, ◌≡◌, ◌≤◌,
}
use visi_on_route.Tx.{request}
use visi_on_route.Access.Context.{RequestContext}
use visi_on_route.Fleet.Service.{
  Store, DriverAssignment, assign_driver, end_assignment, is_taken, new_assignment, is_open_for,
  own_driver, own_vehicle, own_assignment, change_assignment, end_at, or_now,
}

-- Every vehicle has at most one open assignment.
abbrev pub HasOneDriver : List DriverAssignment → Type 0
HasOneDriver xs = (vehicle_id : ℕ) → count (is_open_for vehicle_id) xs ≤ 1

opened-HasOneDriver :
    (a : DriverAssignment) (s : Store)
    → is_taken a s ≡ false
    → HasOneDriver s.assignments
    → HasOneDriver (a ∷ s.assignments)
opened-HasOneDriver a s free h v = elim (Bool-cases (a.vehicle_id == v)) [
  | inr e ↦ ground (arith, e, h v)
  | inl e ↦ ground (
    arith,
    e,
    subst (λ k. count (is_open_for k) s.assignments ≡ 0) ((==_iff a.vehicle_id v).0 e)
        (any-false (is_open_for a.vehicle_id) s.assignments (ground (arith, free))),
  )
]

ended-HasOneDriver :
    (k : ℕ) (t : Time) (s : Store)
    → HasOneDriver s.assignments
    → HasOneDriver (change_assignment k (end_at t) s).assignments
ended-HasOneDriver k t s h v = omega (
  arith,
  h v,
  count-update_where_le (is_open_for v) (λ (a : DriverAssignment). a.id == k) (end_at t)
      s.assignments (λ a e. ground (arith, e)),
)

module _ (ctx : RequestContext) (now : Time) (tenant k : ℕ) (s : Store) where
  assign-rows :
      (driver_id vehicle_id : ℕ) (started_at : Option Time)
      → let a = new_assignment now tenant k driver_id vehicle_id started_at in
        (request (assign_driver ctx now tenant k driver_id vehicle_id started_at) s).1.assignments
        ≡ (if is_some (own_driver tenant driver_id s)
              && (is_some (own_vehicle tenant vehicle_id s) && not (is_taken a s))
            then a ∷ s.assignments
            else s.assignments)
  unfolding assign_driver
  assign-rows driver_id vehicle_id started_at = ground arith

  if_granted :
      (b : Bool) (a : DriverAssignment)
      → (b ≡ true → is_taken a s ≡ false)
      → HasOneDriver s.assignments
      → HasOneDriver (if b then a ∷ s.assignments else s.assignments)
  if_granted true a free h = opened-HasOneDriver a s (free refl) h
  if_granted false a free h = h

  assign-HasOneDriver :
      (driver_id vehicle_id : ℕ) (started_at : Option Time)
      → HasOneDriver s.assignments
      → HasOneDriver
          (request (assign_driver ctx now tenant k driver_id vehicle_id started_at) s).1.assignments
  assign-HasOneDriver driver_id vehicle_id started_at h =
      subst HasOneDriver (sym (assign-rows driver_id vehicle_id started_at)) (
        if_granted
          (is_some (own_driver tenant driver_id s)
            && (is_some (own_vehicle tenant vehicle_id s)
                && not (is_taken (new_assignment now tenant k driver_id vehicle_id started_at) s)))
          (new_assignment now tenant k driver_id vehicle_id started_at) (λ e. ground (arith, e)) h)

  abbrev is_endable : Option DriverAssignment → Bool
  is_endable none = false
  is_endable (some a) = is_none a.ended_at

  end-rows :
      (ended_at : Option Time)
      → (request (end_assignment ctx now tenant k ended_at) s).1.assignments ≡ (
          if is_endable (own_assignment tenant k s)
          then (change_assignment k (end_at (or_now ended_at now)) s).assignments
          else s.assignments)
  unfolding end_assignment
  end-rows ended_at = ground arith

  if_ended :
      (b : Bool) (t : Time)
      → HasOneDriver s.assignments
      → HasOneDriver (if b then (change_assignment k (end_at t) s).assignments else s.assignments)
  if_ended true t h = ended-HasOneDriver k t s h
  if_ended false t h = h

  end-HasOneDriver :
      (ended_at : Option Time)
      → HasOneDriver s.assignments
      → HasOneDriver (request (end_assignment ctx now tenant k ended_at) s).1.assignments
  end-HasOneDriver ended_at h =
      subst HasOneDriver (sym (end-rows ended_at))
        (if_ended (is_endable (own_assignment tenant k s)) (or_now ended_at now) h)

-- A request about the drivers of vehicles
pub data Request : Type 0 where
  assign : RequestContext → Time → ℕ → ℕ → ℕ → ℕ → Option Time → Request
  finish : RequestContext → Time → ℕ → ℕ → Option Time → Request

-- The store after a request
unfoldable pub answer : Request → Store → Store
answer (Request.assign ctx now tenant new_id driver_id vehicle_id started_at) s =
    (request (assign_driver ctx now tenant new_id driver_id vehicle_id started_at) s).1
answer (Request.finish ctx now tenant k ended_at) s =
    (request (end_assignment ctx now tenant k ended_at) s).1

abbrev pub answer_all : List Request → Store → Store
answer_all [] s = s
answer_all (r ∷ rs) s = answer_all rs (answer r s)

answer-HasOneDriver :
    (r : Request) (s : Store) → HasOneDriver s.assignments → HasOneDriver (answer r s).assignments
unfolding answer
answer-HasOneDriver (Request.assign ctx now tenant new_id driver_id vehicle_id started_at) s h =
    assign-HasOneDriver ctx now tenant new_id s driver_id vehicle_id started_at h
answer-HasOneDriver (Request.finish ctx now tenant k ended_at) s h =
    end-HasOneDriver ctx now tenant k s ended_at h

-- Whoever assigns drivers to vehicles and ends assignments, in whatever order, a vehicle never has
-- two open assignments, if none had two before.
pub answer_all-HasOneDriver :
    (rs : List Request) (s : Store)
    → HasOneDriver s.assignments
    → HasOneDriver (answer_all rs s).assignments
answer_all-HasOneDriver [] s h = h
answer_all-HasOneDriver (r ∷ rs) s h =
    answer_all-HasOneDriver rs (answer r s) (answer-HasOneDriver r s h)
