-- ===== src/Coaching/Validity.antt =====
-- Every command of the coaching service keeps the invariant of the rows.
use visi_on_route.Prelude.{
  Bool-cases, TextMethods, Time, arith, find, find-holds, inl, inr, some, subst, sym, true, ℕ, ◌&&◌,
  ◌==◌, ◌≡◌,
}
use visi_on_route.Coaching.Store.{CoachingAction, Store}
use visi_on_route.Access.Context.{RequestContext}
use visi_on_route.Coaching.Status.{CoachingStatus, same_status, can_transition, is_active}
use visi_on_route.Coaching.Service.{in_scope, get_action, save, visible_action}
use visi_on_route.Coaching.Changes.{Details, transition_row, transition, enter}
use visi_on_route.Coaching.Shape.{
  Continues, IsValid, save-IsValid, add_audit-IsValid, enter-Continues,
}
use visi_on_route.Tx.{Tx, Keeps, Holds, Keeps-query, Result-cases, Error}

-- What `get_action` found can be saved, changed as `Continues` allows.
-- Only an active action has transitions.
leaves_active : (x y : CoachingStatus) → can_transition x y ≡ true → is_active x ≡ true
unfolding can_transition
leaves_active x y h = ground arith

module _ (past : Store) (ctx : RequestContext) (tenant action_id : ℕ) where
  save_found :
      (s : Store) (a b : CoachingAction)
      → find (λ x. in_scope ctx tenant s x && (x.id == action_id)) s.actions ≡ some a
      → Continues a b
      → is_active a.status ≡ true
      → IsValid past s
      → IsValid past (save b s)
  save_found s a b h c act v =
      save-IsValid past (in_scope ctx tenant s) a b s
        (subst (λ k. find (λ x. in_scope ctx tenant s x && (x.id == k)) s.actions ≡ some a)
          (sym (same_id h)) h)
        c act v
    where
      same_id :
          find (λ x. in_scope ctx tenant s x && (x.id == action_id)) s.actions ≡ some a
          → b.id ≡ action_id
      same_id q = ground (
        arith,
        find-holds (λ x. in_scope ctx tenant s x && (x.id == action_id)) s.actions a q,
        c.id,
      )

  module _ (text : TextMethods) (now : Time) (target : CoachingStatus) (d : Details) where
    transition_row-Holds :
        (tx : Tx Store) (a : CoachingAction)
        → find (λ x. in_scope ctx tenant tx.current x && (x.id == action_id)) tx.current.actions
          ≡ some a
        → Holds (IsValid past) tx
        → Holds (IsValid past) (transition_row text now ctx target d a tx).1
    unfolding transition_row
    transition_row-Holds tx a h v = elim (Bool-cases (same_status a.status target)) [
      | inl e ↦ rw e v
      | inr e ↦ rw e (elim (Bool-cases (can_transition a.status target)) [
        | inr q ↦ rw q v
        | inl q ↦ rw q (elim (Result-cases (enter text now ctx d target a)) [
          | inr (x, r) ↦ rw r v
          | inl (b, r) ↦ rw r (record {
            durable = v.durable;
            current = add_audit-IsValid past _ _ (
                save_found tx.current a b h (enter-Continues text now ctx d target a b q r)
                  (leaves_active a.status target q) v.current);
          })
        ])
      ])
    ]

    -- A transition keeps the invariant, whether it succeeds or raises.
    pub transition-Keeps : Keeps (IsValid past) (transition text now ctx tenant action_id target d)
    unfolding transition get_action
    transition-Keeps =
        Keeps-query (visible_action ctx tenant action_id) Error.domain_not_found
          (transition_row text now ctx target d) transition_row-Holds
