-- ===== src/Coaching/Update.antt =====
-- `update_action` keeps the invariant of the rows.
use visi_on_route.Prelude.{
  Bool, Bool-cases, TextMethods, Time, arith, false, find, find-holds, find-key, if◌then◌else◌, inl,
  inr, none, some, subst, sym, true, ℕ, ◌&&◌, ◌==◌, ◌≡◌,
}
use visi_on_route.Access.Context.{RequestContext}
use visi_on_route.Coaching.Store.{CoachingAction, Store}
use visi_on_route.Coaching.Changes.{
  update_row, update_action, Changes, change_assignee, change_title, change_texts, change_due,
  is_audited,
}
use visi_on_route.Tx.{Tx, Keeps, Holds, modify, Keeps-query, ◌>>=◌, Error, pure}
use visi_on_route.Audit.{AuditLog, record_audit}
use visi_on_route.Coaching.Service.{get_action, visible_action, add_audit, in_scope}
use visi_on_route.Coaching.Stages.{
  IsStage, IsStored, Outcome-same, IsStage-bind, change_assignee-IsStage, change_title-IsStage,
  change_texts-IsStage, change_due-IsStage,
}
use visi_on_route.Coaching.Shape.{IsValid, add_audit-IsValid}
use visi_on_route.Coaching.Status.{is_active}

module _ (past : Store) (text : TextMethods) (has_mail : Bool) (now : Time) (ctx : RequestContext)
    (tenant : ℕ) where
  finish-IsStage :
      (b : Bool) (l : CoachingAction → AuditLog)
      → IsStage past (λ f. modify (if b then add_audit (l f) else λ s. s) >>= λ _. pure f)
  finish-IsStage true l tx a v st act = record {
    valid = record {
      durable = v.durable;
      current = add_audit-IsValid past (l a) tx.current v.current;
    };
    stored = λ d e. (Outcome-same past tx a v st act).stored d e;
  }
  finish-IsStage false l tx a v st act = Outcome-same past tx a v st act

  stages :
      (old : CoachingAction) (c : Changes)
      → IsStage past (λ a.
        change_assignee text has_mail now ctx tenant c.assignee_user_id a >>= λ b.
        change_title text has_mail now ctx tenant c.title b >>= λ d.
        change_texts text has_mail now ctx tenant c d >>= λ e.
        change_due text has_mail now ctx tenant c.due_at e >>= λ f.
        modify (
          if is_audited text has_mail now ctx tenant c old
          then add_audit (record_audit ctx none "coaching_action.updated" f.id)
          else λ s. s)
        >>= λ _. pure f)
  stages old c =
      IsStage-bind past _ _
        (change_assignee-IsStage past text has_mail now ctx tenant c.assignee_user_id)
        (IsStage-bind past _ _ (change_title-IsStage past text has_mail now ctx tenant c.title) (
          IsStage-bind past _ _ (change_texts-IsStage past text has_mail now ctx tenant c) (
            IsStage-bind past _ _ (change_due-IsStage past text has_mail now ctx tenant c.due_at) (
              finish-IsStage (is_audited text has_mail now ctx tenant c old)
                (λ f. record_audit ctx none "coaching_action.updated" f.id)))))

  module _ (action_id : ℕ) where
    same_id :
        (tx : Tx Store) (a : CoachingAction)
        → visible_action ctx tenant action_id tx.current ≡ some a
        → a.id ≡ action_id
    same_id tx a h = ground (
      arith,
      find-holds (λ x. in_scope ctx tenant tx.current x && (x.id == action_id)) tx.current.actions a
          h,
    )

    row_found :
        (tx : Tx Store) (a : CoachingAction)
        → visible_action ctx tenant action_id tx.current ≡ some a
        → Holds (IsValid past) tx
        → IsStored a tx.current
    row_found tx a h v =
        let found =
          find-key (λ (x : CoachingAction). x.id) action_id (in_scope ctx tenant tx.current)
            tx.current.actions a h (v.current.unique_ids action_id) in
        subst (λ k. find (λ x. x.id == k) tx.current.actions ≡ some a) (sym (same_id tx a h)) found

    update_row-Holds :
        (c : Changes) (tx : Tx Store) (a : CoachingAction)
        → visible_action ctx tenant action_id tx.current ≡ some a
        → Holds (IsValid past) tx
        → Holds (IsValid past) (update_row text has_mail now ctx tenant c a tx).1
    unfolding update_row
    update_row-Holds c tx a h v = elim (Bool-cases (is_active a.status)) [
      | inr e ↦ rw e v
      | inl e ↦ rw e (stages a c tx a v (row_found tx a h v) e).valid
    ]

    -- An update keeps the invariant, whether it succeeds or raises.
    pub update_action-Keeps :
        (c : Changes)
        → Keeps (IsValid past) (update_action text has_mail now ctx tenant action_id c)
    unfolding update_action get_action
    update_action-Keeps c =
        Keeps-query (visible_action ctx tenant action_id) Error.domain_not_found
          (update_row text has_mail now ctx tenant c) (update_row-Holds c)
