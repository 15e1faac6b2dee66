-- ===== src/Coaching/Create.antt =====
-- `create_action` keeps the invariant of the rows, whatever other transactions do meanwhile, and
-- answers with the one active action of the event.
use visi_on_route.Prelude.{
  Bool, Bool-cases, Option, false, if◌then◌else◌, inl, inr, is_some, none, not, or_else, refl, same,
  some, true, ℕ, ◌&&◌, ◌≡◌,
}
use visi_on_route.Coaching.Commands.{
  Surroundings, check_assignee, create_action, check_driver, Creation, new_action, insert_action,
  create_new, resolve_conflict, violates_index, create_or_reuse, create_for, meanwhile,
}
use visi_on_route.Access.Context.{RequestContext}
use visi_on_route.Coaching.Store.{Store, CoachingAction, SafetyEvent}
use visi_on_route.Coaching.Shape.{
  IsValid, is_well_formed, IsValid-actions, actions-notify_assignee, add_audit-IsValid,
  add_action-IsValid,
}
use visi_on_route.Coaching.Service.{notify_assignee, require_assignee}
use visi_on_route.Tx.{Keeps, keeps_rules, Tx, Holds}

module _ (past : Store) (env : Surroundings) (ctx : RequestContext) (tenant : ℕ)
    (others-IsValid : (s : Store) → IsValid past s → IsValid past (env.others s)) where
  tell-IsValid :
      (b : Bool) (a : CoachingAction) (s : Store)
      → IsValid past s
      → IsValid past ((if b then notify_assignee env.has_mail tenant a else λ t. t) s)
  tell-IsValid true a s v =
      IsValid-actions past s (notify_assignee env.has_mail tenant a s)
        (actions-notify_assignee env.has_mail tenant a s) v
  tell-IsValid false a s v = v

  resolve_conflict-Keeps : (e : Option ℕ) → Keeps (IsValid past) (resolve_conflict tenant e)
  unfolding resolve_conflict
  resolve_conflict-Keeps none = search keeps_rules
  resolve_conflict-Keeps (some e) = search keeps_rules

  insert_action-Holds :
      (a : CoachingAction)
      → is_well_formed a ≡ true
      → (tx : Tx Store) → Holds (IsValid past) tx
      → Holds (IsValid past) (insert_action env ctx tenant a tx).1
  unfolding insert_action
  insert_action-Holds a shape tx v = elim (Bool-cases (violates_index a tx.current)) [
    | inl e ↦ rw e ((resolve_conflict-Keeps a.safety_event_id).at tx v)
    | inr e ↦ rw e (record {
      durable = v.durable;
      current =
          tell-IsValid (is_some a.assignee_user_id && not (same a.assignee_user_id ctx.user_id)) a _
            (add_audit-IsValid past _ _ (add_action-IsValid past a tx.current e shape v.current));
    })
  ]

  check_driver-Keeps : (d : Option ℕ) → Keeps (IsValid past) (check_driver tenant d)
  unfolding check_driver
  check_driver-Keeps none = search keeps_rules
  check_driver-Keeps (some d) = search keeps_rules

  check_assignee-Keeps : (u : Option ℕ) → Keeps (IsValid past) (check_assignee ctx tenant u)
  unfolding check_assignee require_assignee
  check_assignee-Keeps none = search keeps_rules
  check_assignee-Keeps (some u) = search keeps_rules

  new_action-shape :
      (c : Creation) (event : Option SafetyEvent) (d : Option ℕ)
      → is_well_formed (new_action env ctx tenant c event d) ≡ true
  unfolding new_action
  new_action-shape c event d = refl

  insert_new-Keeps :
      (c : Creation) (event : Option SafetyEvent) (d : Option ℕ)
      → Keeps (IsValid past) (insert_action env ctx tenant (new_action env ctx tenant c event d))
  insert_new-Keeps c event d = record {
    at = insert_action-Holds (new_action env ctx tenant c event d) (new_action-shape c event d);
  }

  meanwhile-Keeps : Keeps (IsValid past) (meanwhile env.others)
  meanwhile-Keeps = record {
    at = λ tx v. record {
      durable = others-IsValid tx.durable v.durable;
      current = others-IsValid tx.current v.current;
    };
  }

  create_new-Keeps :
      (c : Creation) (event : Option SafetyEvent) (d : Option ℕ)
      → Keeps (IsValid past) (create_new env ctx tenant c event d)
  unfolding create_new
  create_new-Keeps c event d =
      search
        (keeps_rules, check_driver-Keeps, check_assignee-Keeps, insert_new-Keeps, meanwhile-Keeps)

  create_or_reuse-Keeps :
      (c : Creation) (event : SafetyEvent) (o : Option CoachingAction)
      → Keeps (IsValid past) (create_or_reuse env ctx tenant c event o)
  create_or_reuse-Keeps c event none =
      create_new-Keeps c (some event) (or_else c.driver_id event.driver_id)
  create_or_reuse-Keeps c event (some a) = search keeps_rules

  create_for-Keeps :
      (c : Creation) (e : Option ℕ) → Keeps (IsValid past) (create_for env ctx tenant c e)
  create_for-Keeps c none = create_new-Keeps c none c.driver_id
  create_for-Keeps c (some e) = search (keeps_rules, create_or_reuse-Keeps) depth 8

  pub create_action-Keeps : (c : Creation) → Keeps (IsValid past) (create_action env ctx tenant c)
  unfolding create_action
  create_action-Keeps c = create_for-Keeps c c.safety_event_id
