-- ===== src/Saas/Limits.antt =====
-- The limit of vehicles holds.
use mathlib.Core.Option.{some-injective}
use visi_on_route.Prelude.{
  Bool, Bool-cases, Option, String, TextMethods, Time, ap, arith, count, find, inl, inr, none, not,
  on_some, refl, some, str_eq, subst, sym, true, ℕ, ◌+◌, ◌==◌, ◌∙◌, ◌≡◌, ◌≤◌,
}
use visi_on_route.Tx.{
  Action, Triple, raise_unless, Error, gets, ◌>>=◌, ◌>>◌, Triple-bind, query, Triple-query,
  Triple-raise_unless, Triple-gets, Triple-after, modify, pure, Triple-modify, Triple-pure, Keeps,
  Keeps-Triple,
}
use visi_on_route.Saas.Plans.{
  Store, Plan, Subscription, FleetVehicle, Entitlements, entitled, get_entitlements, joined,
  subscription_of, fallback, plan_by_key, default_trial_plan,
}
use visi_on_route.Saas.Growth.{
  enforce_vehicle_limit, in_organization, put_vehicle, has_room, add_vehicle, add_audit, is_taken,
  create_vehicle, new_vehicle, has_fleet,
}
use visi_on_route.Access.Context.{RequestContext}
use visi_on_route.Audit.{AuditLog, record_audit}

abbrev limit_in : Option Entitlements → Option (Option ℕ)
limit_in o = on_some (λ (e : Entitlements). e.vehicle_limit) o

-- The limit of vehicles that an organization is under; it is the same at every moment.
abbrev pub limit_of : ℕ → Store → Option (Option ℕ)
limit_of org s = limit_in (get_entitlements 0 org s)

-- No organization has more vehicles than its plan allows.
abbrev pub IsWithinLimits : Store → Type 0
IsWithinLimits s =
    (org n : ℕ) → limit_of org s ≡ some (some n) → count (in_organization org) s.vehicles ≤ n

limit-entitled :
    (now : Time) (o : Option (Subscription × Plan)) (s : Store)
    → limit_in (entitled now o s) ≡ limit_in (entitled 0 o s)
limit-entitled now none s = refl
limit-entitled now (some (x, p)) s = refl

limit-now :
    (now : Time) (org : ℕ) (s : Store) → limit_in (get_entitlements now org s) ≡ limit_of org s
unfolding get_entitlements
limit-now now org s = limit-entitled now (joined (subscription_of org s) s) s

-- Limits are read from the plans and the subscriptions only.
module _ (s t : Store) (same_plans : t.plans ≡ s.plans)
    (same_subscriptions : t.subscriptions ≡ s.subscriptions) where
  same_plan : (k : String) → plan_by_key k t ≡ plan_by_key k s
  same_plan k = ap (find (λ (p : Plan). str_eq p.key k)) same_plans

  joined-same : (o : Option Subscription) → joined o t ≡ joined o s
  joined-same none = refl
  joined-same (some x) = ap (on_some (λ (p : Plan). (x, p))) (same_plan x.plan_key)

  entitled-same : (o : Option (Subscription × Plan)) → entitled 0 o t ≡ entitled 0 o s
  entitled-same none = ap fallback (same_plan default_trial_plan)
  entitled-same (some (x, p)) = refl

  limit-same : (org : ℕ) → limit_of org t ≡ limit_of org s
  unfolding get_entitlements
  limit-same org =
      ap
        (λ xs.
          limit_in
            (entitled 0 (joined (find (λ (x : Subscription). x.organization_id == org) xs) t) t))
        same_subscriptions
      ∙ ap (λ o. limit_in (entitled 0 o t)) (joined-same (subscription_of org s))
      ∙ ap limit_in (entitled-same (joined (subscription_of org s) s))

limit-put :
    (org : ℕ) (v : FleetVehicle) (s : Store) → limit_of org (put_vehicle v s) ≡ limit_of org s
limit-put org v s = limit-same s (put_vehicle v s) refl refl org

-- The organization has room for one more vehicle.
abbrev HasRoom : ℕ → Store → Type 0
HasRoom org s =
    (n : ℕ) → limit_of org s ≡ some (some n) → count (in_organization org) s.vehicles + 1 ≤ n

room-HasRoom :
    (now : Time) (org : ℕ) (e : Entitlements) (s : Store)
    → get_entitlements now org s ≡ some e
    → has_room e.vehicle_limit (count (in_organization org) s.vehicles) ≡ true
    → HasRoom org s
room-HasRoom now org e s found room n h = ground (arith, same_limit, room)
  where
    same_limit : e.vehicle_limit ≡ some n
    same_limit =
        some-injective e.vehicle_limit (some n) (sym (ap limit_in found) ∙ limit-now now org s ∙ h)

enforce-Triple :
    (now : Time) (org : ℕ)
    → Triple IsWithinLimits (λ _. Unit {0}) (enforce_vehicle_limit now org) (λ _. HasRoom org)
unfolding enforce_vehicle_limit
enforce-Triple now org =
    Triple-bind {Mid = λ e s. Unit {0} × (get_entitlements now org s ≡ some e)}
      (query (get_entitlements now org) Error.runtime_error) check
      (Triple-query (get_entitlements now org) Error.runtime_error)
      (λ e.
        Triple-bind
          {Mid = λ _ s.
            (Unit {0} × (get_entitlements now org s ≡ some e)) × (not e.growth_blocked ≡ true)}
          (raise_unless (not e.growth_blocked) Error.domain_conflict) (λ _. look e)
          (Triple-raise_unless (not e.growth_blocked) Error.domain_conflict)
          (λ _.
            Triple-bind
              {Mid = λ used s.
                ((Unit {0} × (get_entitlements now org s ≡ some e)) × (not e.growth_blocked ≡ true))
                × (count (in_organization org) s.vehicles ≡ used)}
              (gets (λ (s : Store). count (in_organization org) s.vehicles)) (test e)
              (Triple-gets (λ (s : Store). count (in_organization org) s.vehicles))
              (λ used.
                Triple-after (test e used)
                  (λ u s p.
                    room-HasRoom now org e s p.0.0.0.1
                      (subst (λ k. has_room e.vehicle_limit k ≡ true) (sym p.0.1) p.1))
                  (Triple-raise_unless (has_room e.vehicle_limit used) Error.domain_conflict))))
  where
    test : Entitlements → ℕ → Action Store (Unit {0})
    test e used = raise_unless (has_room e.vehicle_limit used) Error.domain_conflict

    look : Entitlements → Action Store (Unit {0})
    look e = gets (λ (s : Store). count (in_organization org) s.vehicles) >>= test e

    check : Entitlements → Action Store (Unit {0})
    check e = raise_unless (not e.growth_blocked) Error.domain_conflict >> look e

put-within :
    (v : FleetVehicle) (s : Store)
    → IsWithinLimits s
    → HasRoom v.organization_id s
    → IsWithinLimits (put_vehicle v s)
put-within v s w room org n h = elim (Bool-cases (v.organization_id == org)) [
  | inr other ↦ ground (arith, w org n (sym (limit-put org v s) ∙ h))
  | inl own ↦ ground (arith, own_room (ground arith))
]
  where
    own_room : v.organization_id ≡ org → count (in_organization org) s.vehicles + 1 ≤ n
    own_room e = subst (λ k. HasRoom k s) e room n (sym (limit-put org v s) ∙ h)

add_vehicle-Triple :
    (ctx : RequestContext) (v : FleetVehicle)
    → Triple IsWithinLimits (HasRoom v.organization_id) (add_vehicle ctx v) (λ _ _. Unit {0})
unfolding add_vehicle
add_vehicle-Triple ctx v =
    Triple-bind {Mid = λ taken s. HasRoom v.organization_id s × (is_taken v s ≡ taken)}
      (gets (is_taken v)) (λ taken. raise_unless (not taken) Error.domain_conflict >> write)
      (Triple-gets (is_taken v))
      (λ taken.
        Triple-bind
          {Mid = λ _ s. (HasRoom v.organization_id s × (is_taken v s ≡ taken)) × (not taken ≡ true)}
          (raise_unless (not taken) Error.domain_conflict) (λ _. write)
          (Triple-raise_unless (not taken) Error.domain_conflict)
          (λ _.
            Triple-bind {Mid = λ _ _. Unit {0}} (modify (put_vehicle v))
              (λ _. modify (add_audit entry) >> pure v)
              (Triple-modify {Post = λ _. Unit {0}} (put_vehicle v)
                (λ s w p. put-within v s w p.0.0) (λ s w p. tt))
              (λ _.
                Triple-bind {Mid = λ _ _. Unit {0}} (modify (add_audit entry)) (λ _. pure v)
                  (Triple-modify {Post = λ _. Unit {0}} (add_audit entry) (λ s w p. audited s w)
                    (λ s w p. tt))
                  (λ _. Triple-pure v (λ s p. tt)))))
  where
    entry : AuditLog
    entry = record_audit ctx none "vehicle.created" v.id

    write : Action Store FleetVehicle
    write = modify (put_vehicle v) >> (modify (add_audit entry) >> pure v)

    audited : (s : Store) → IsWithinLimits s → IsWithinLimits (add_audit entry s)
    audited s w = λ org n h. w org n (sym (limit-same s (add_audit entry s) refl refl org) ∙ h)

pub create_vehicle-Keeps :
    (text : TextMethods) (now : Time) (ctx : RequestContext) (org new_id : ℕ) (external_id : String)
    (fleet_id : Option ℕ)
    → Keeps IsWithinLimits (create_vehicle text now ctx org new_id external_id fleet_id)
unfolding create_vehicle
create_vehicle-Keeps text now ctx org new_id external_id fleet_id =
    Keeps-Triple {Pre = λ _. Unit {0}} {Post = λ _ _. Unit {0}}
      (enforce_vehicle_limit now org >> rest) (λ s. tt)
      (Triple-bind {Mid = λ _. HasRoom org} (enforce_vehicle_limit now org) (λ _. rest)
        (enforce-Triple now org)
        (λ _.
          Triple-bind {Mid = λ known s. HasRoom org s × (has_fleet org fleet_id s ≡ known)}
            (gets (has_fleet org fleet_id)) proceed (Triple-gets (has_fleet org fleet_id))
            (λ known.
              Triple-bind {Mid = λ _. HasRoom org} (raise_unless known Error.domain_not_found)
                (λ _. add_vehicle ctx v)
                (Triple-after (raise_unless known Error.domain_not_found) (λ u s p. p.0.0)
                  (Triple-raise_unless known Error.domain_not_found))
                (λ _. add_vehicle-Triple ctx v))))
  where
    v : FleetVehicle
    v = new_vehicle text org new_id external_id fleet_id

    proceed : Bool → Action Store FleetVehicle
    proceed known = raise_unless known Error.domain_not_found >> add_vehicle ctx v

    rest : Action Store FleetVehicle
    rest = gets (has_fleet org fleet_id) >>= proceed
