-- ===== src/Coaching/Changes.antt =====
-- application/coaching/service.py: `update_action` and `transition`.
use visi_on_route.Prelude.{
  Bool, Option, String, TextMethods, Time, false, if◌then◌else◌, is_empty, is_some, none, not,
  or_else, or_empty, same, some, ℕ, ◌&&◌, ◌||◌,
}
use visi_on_route.Access.Context.{RequestContext}
use visi_on_route.Audit.{record_audit}
use visi_on_route.Tx.{
  Error, Result, ok, err, Action, pure, raise, modify, raise_unless, lift, ◌>>=◌, ◌>>◌,
}
use visi_on_route.Coaching.Status.{
  CoachingStatus, CoachingOutcome, opened, in_progress, completed, canceled, same_status, is_active,
  can_transition,
}
use visi_on_route.Coaching.Store.{CoachingAction, Store}
use visi_on_route.Coaching.Service.{
  Timestamp, get_action, require_assignee, add_audit, save, notify_assignee,
}

-- `changes` of `update_action`: a field is `none` where its key is absent, and `some none` where
-- it is to become null.
pub record Changes : Type 0 where
  pub assignee_user_id : Option (Option ℕ)
  pub title : Option (Option String)
  pub description : Option (Option String)
  pub notes : Option (Option String)
  pub due_at : Option (Option Timestamp)

module _ (text : TextMethods) (has_mail : Bool) (now : Time) (ctx : RequestContext)
    (tenant : ℕ) where
  unfoldable pub set_assignee : CoachingAction → Option ℕ → CoachingAction
  set_assignee a assignee = record a { assignee_user_id = assignee }

  unfoldable pub require_some_assignee : Option ℕ → Action Store (Unit {0})
  require_some_assignee none = pure tt
  require_some_assignee (some user_id) = require_assignee tenant user_id

  unfoldable pub reassign : Option ℕ → CoachingAction → Action Store CoachingAction
  unfolding set_assignee
  reassign assignee a = do
    let b = set_assignee a assignee
    modify (save b)
    modify (
        if is_some assignee && not (same assignee ctx.user_id)
        then notify_assignee has_mail tenant b
        else λ s. s)
    pure b

  unfoldable pub change_assignee : Option (Option ℕ) → CoachingAction → Action Store CoachingAction
  unfolding reassign require_some_assignee
  change_assignee none a = pure a
  change_assignee (some assignee) a = do
    require_some_assignee assignee
    if same assignee a.assignee_user_id then pure a else reassign assignee a

  unfoldable pub change_title :
      Option (Option String) → CoachingAction → Action Store CoachingAction
  change_title none a = pure a
  change_title (some none) a = raise Error.validation_failed
  change_title (some (some title)) a = do
    raise_unless (not (is_empty (text.strip title))) Error.validation_failed
    let b = record a { title = title }
    modify (save b)
    pure b

  unfoldable pub change_texts : Changes → CoachingAction → Action Store CoachingAction
  change_texts c a = do
    let b = record a {
      description = elim c.description [ none ↦ a.description | some d ↦ d ];
      notes = elim c.notes [ none ↦ a.notes | some n ↦ n ];
    }
    modify (save b)
    pure b

  unfoldable pub change_due :
      Option (Option Timestamp) → CoachingAction → Action Store CoachingAction
  change_due none a = pure a
  change_due (some none) a = do let b = record a { due_at = none }; modify (save b); pure b
  change_due (some (some d)) a = do
    raise_unless d.has_zone Error.validation_failed
    let b = record a { due_at = some d.at }
    modify (save b)
    pure b

  -- `if audit:`
  unfoldable pub is_audited : Changes → CoachingAction → Bool
  is_audited c a =
      elim c.assignee_user_id [
        | none ↦ false
        | some assignee ↦ not (same assignee a.assignee_user_id)
      ]
      || is_some c.title
      || is_some c.description
      || is_some c.notes
      || is_some c.due_at

  unfoldable pub update_row : Changes → CoachingAction → Action Store CoachingAction
  update_row c a = do
    raise_unless (is_active a.status) Error.domain_conflict
    b ← change_assignee c.assignee_user_id a
    d ← change_title c.title b
    e ← change_texts c d
    f ← change_due c.due_at e
    modify (
        if is_audited c a
        then add_audit (record_audit ctx none "coaching_action.updated" f.id)
        else λ s. s)
    pure f

  unfoldable pub update_action : ℕ → Changes → Action Store CoachingAction
  update_action action_id c = do a ← get_action ctx tenant action_id; update_row c a

-- The keyword arguments of `transition`.
pub record Details : Type 0 where
  pub outcome : Option CoachingOutcome
  pub outcome_notes : Option String
  pub cancel_reason : Option String

abbrev transition_audit : CoachingStatus → String
transition_audit opened = "coaching_action.open"
transition_audit in_progress = "coaching_action.in_progress"
transition_audit completed = "coaching_action.completed"
transition_audit canceled = "coaching_action.canceled"

-- The branches of `transition` on the target, up to `action.status = target.value`.
unfoldable pub enter :
    TextMethods
    → Time
    → RequestContext
    → Details
    → CoachingStatus
    → CoachingAction
    → Result CoachingAction
enter text now ctx d opened a = ok (record a { status = opened })
enter text now ctx d in_progress a = ok (record a {
  status = in_progress;
  started_at = some now;
  assignee_user_id = or_else a.assignee_user_id ctx.user_id;
})
enter text now ctx d completed a = elim d.outcome [
  | none ↦ err Error.validation_failed
  | some outcome ↦ ok (record a {
    status = completed;
    outcome = some outcome;
    outcome_notes = d.outcome_notes;
    completed_at = some now;
    started_at = or_else a.started_at (some now);
  })
]
enter text now ctx d canceled a =
    let reason = text.strip (or_empty d.cancel_reason) in
    if is_empty (or_empty d.cancel_reason) || is_empty reason
    then err Error.validation_failed
    else ok (record a {
      status = canceled;
      cancel_reason = some (text.prefix 300 reason);
      canceled_at = some now;
    })

unfoldable pub transition_row :
    TextMethods
    → Time
    → RequestContext
    → CoachingStatus
    → Details
    → CoachingAction
    → Action Store CoachingAction
transition_row text now ctx target d a = if same_status a.status target then pure a else do
  raise_unless (can_transition a.status target) Error.domain_conflict
  b ← lift (enter text now ctx d target a)
  modify (save b)
  modify (add_audit (record_audit ctx none (transition_audit target) b.id))
  pure b

unfoldable pub transition :
    TextMethods
    → Time
    → RequestContext
    → ℕ
    → ℕ
    → CoachingStatus
    → Details
    → Action Store CoachingAction
transition text now ctx tenant action_id target d = do
  a ← get_action ctx tenant action_id
  transition_row text now ctx target d a
