-- ===== src/Coaching/Answer.antt =====
-- A creation for a safety event answers with the active action of the event.
use visi_on_route.Prelude.{
  Bool, Option, ap, arith, false, find, if◌then◌else◌, is_some, none, not, or_else, refl, same,
  some, subst, sym, true, ℕ, ◌&&◌, ◌∙◌, ◌≡◌,
}
use visi_on_route.Coaching.Commands.{
  Surroundings, resolve_conflict, insert_action, create_new, add_action, Creation, new_action,
  create_action, create_for, create_or_reuse,
}
use visi_on_route.Access.Context.{RequestContext}
use visi_on_route.Coaching.Store.{CoachingAction, Store, SafetyEvent}
use visi_on_route.Coaching.Service.{is_active_for, active_for_event, notify_assignee, add_audit}
use visi_on_route.Tx.{Ensures, Result, ok, modify, ◌>>◌, pure, Ensures-bind, gets, Tx, ◌>>=◌}
use visi_on_route.Coaching.Shape.{actions-notify_assignee}
use visi_on_route.Audit.{AuditLog, record_audit}

module _ (env : Surroundings) (ctx : RequestContext) (tenant event_id : ℕ) where
  -- The result is what a look-up of the event's active action finds afterwards.
  abbrev pub IsTheActive : CoachingAction × Bool → Store → Type 0
  IsTheActive (a, created) s = active_for_event tenant event_id s ≡ some a

  resolve-answers : Ensures IsTheActive (resolve_conflict tenant (some event_id))
  unfolding resolve_conflict
  resolve-answers = record { at = λ tx (a, b) h. ground arith }

  -- Only the messages change.
  active-quiet :
      (b : Bool) (a : CoachingAction) (s : Store)
      → active_for_event tenant event_id
          ((if b then notify_assignee env.has_mail tenant a else λ t. t) s)
        ≡ active_for_event tenant event_id s
  unfolding active_for_event
  active-quiet true a s =
      ap (find (is_active_for tenant event_id)) (actions-notify_assignee env.has_mail tenant a s)
  active-quiet false a s = refl

  active-added :
      (a : CoachingAction) (l : AuditLog) (s : Store)
      → is_active_for tenant event_id a ≡ true
      → active_for_event tenant event_id (add_audit l (add_action a s)) ≡ some a
  unfolding active_for_event add_action
  active-added a l s h = rw h

  first-some :
      (a : CoachingAction) (b : Bool) (p : CoachingAction × Bool)
      → ◌≡◌ {A = Result (CoachingAction × Bool)} (ok (a, b)) (ok p)
      → a ≡ p.0
  first-some a b p e = cc

  insert-answers :
      (a : CoachingAction)
      → a.safety_event_id ≡ some event_id
      → is_active_for tenant event_id a ≡ true
      → Ensures IsTheActive (insert_action env ctx tenant a)
  unfolding insert_action
  insert-answers a q h = search (Ensures-bind, branch)
    where
      tell : Store → Store
      tell =
          if is_some a.assignee_user_id && not (same a.assignee_user_id ctx.user_id)
          then notify_assignee env.has_mail tenant a
          else λ s. s

      branch :
          (taken : Bool)
          → Ensures IsTheActive (
              if taken
              then resolve_conflict tenant a.safety_event_id
              else (modify (add_action a)
                  >> (modify (add_audit (record_audit ctx none "coaching_action.created" a.id))
                      >> (modify tell >> pure (a, true)))))
      branch true = rw q resolve-answers
      branch false = record {
        at = λ tx p e.
            rw (← first-some a true p e) (active-quiet _ a _ ∙ active-added a _ tx.current h);
      }

  new_event :
      (c : Creation) (event : Option SafetyEvent) (d : Option ℕ)
      → c.safety_event_id ≡ some event_id
      → (new_action env ctx tenant c event d).safety_event_id ≡ some event_id
  unfolding new_action
  new_event c event d q = q

  new_active :
      (c : Creation) (event : Option SafetyEvent) (d : Option ℕ)
      → c.safety_event_id ≡ some event_id
      → is_active_for tenant event_id (new_action env ctx tenant c event d) ≡ true
  unfolding new_action
  new_active c event d q = ground arith

  new-answers :
      (c : Creation) (event : Option SafetyEvent) (d : Option ℕ)
      → c.safety_event_id ≡ some event_id
      → Ensures IsTheActive (create_new env ctx tenant c event d)
  unfolding create_new
  new-answers c event d q = search (Ensures-bind, insert-answers, new_event, new_active) depth 8

  reuse-answers :
      (c : Creation)
      → c.safety_event_id ≡ some event_id
      → (event : SafetyEvent)
      → Ensures IsTheActive
          (gets (active_for_event tenant event_id) >>= create_or_reuse env ctx tenant c event)
  reuse-answers c q event = record {
    at = λ tx p h. decide tx p (active_for_event tenant event_id tx.current) refl h;
  }
    where
      decide :
          (tx : Tx Store) (p : CoachingAction × Bool) (o : Option CoachingAction)
          → active_for_event tenant event_id tx.current ≡ o
          → (create_or_reuse env ctx tenant c event o tx).0 ≡ ok p
          → IsTheActive p (create_or_reuse env ctx tenant c event o tx).1.current
      decide tx p none e h =
          (new-answers c (some event) (or_else c.driver_id event.driver_id) q).at tx p h
      decide tx p (some a) e h = rw (← first-some a false p h) e

  create_for-answers :
      (c : Creation)
      → c.safety_event_id ≡ some event_id
      → Ensures IsTheActive (create_for env ctx tenant c (some event_id))
  create_for-answers c q = search (Ensures-bind, reuse-answers)

  -- Whatever other transactions do, a creation for a safety event that returns answers with the
  -- action that a look-up of the event's active action then finds.
  pub create_action-answers :
      (c : Creation) (tx : Tx Store) (answer : CoachingAction × Bool)
      → c.safety_event_id ≡ some event_id
      → (create_action env ctx tenant c tx).0 ≡ ok answer
      → active_for_event tenant event_id (create_action env ctx tenant c tx).1.current
        ≡ some answer.0
  unfolding create_action
  create_action-answers c tx answer q h =
      subst
        (λ o.
          (create_for env ctx tenant c o tx).0 ≡ ok answer
          → active_for_event tenant event_id (create_for env ctx tenant c o tx).1.current
            ≡ some answer.0)
        (sym q) ((create_for-answers c q).at tx answer) h
