-- ===== src/Coaching/Status.antt =====
-- domain/coaching.py: the states of a coaching action and the allowed transitions.
use visi_on_route.Prelude.{
  ℕ, Bool, false, Option, none, some, List, [], ◌∷◌, ◌&&◌, ◌==◌, ltb, any, Time,
}

pub data CoachingStatus : Type 0 where
  opened in_progress completed canceled : CoachingStatus

pub data CoachingOutcome : Type 0 where
  coached no_action_needed escalated driver_unavailable : CoachingOutcome

abbrev pub position : CoachingStatus → ℕ
position opened = 0
position in_progress = 1
position completed = 2
position canceled = 3

-- `a == b`, and `a in statuses`
abbrev pub same_status : CoachingStatus → CoachingStatus → Bool
same_status a b = position a == position b

abbrev pub member : CoachingStatus → List CoachingStatus → Bool
member a = any (same_status a)

-- `ACTIVE_STATUSES`
abbrev pub active_statuses : List CoachingStatus
active_statuses = opened ∷ in_progress ∷ []

abbrev pub is_active : CoachingStatus → Bool
is_active s = member s active_statuses

-- `_TRANSITIONS`
abbrev pub transitions : CoachingStatus → List CoachingStatus
transitions opened = in_progress ∷ completed ∷ canceled ∷ []
transitions in_progress = completed ∷ canceled ∷ []
transitions completed = []
transitions canceled = []

unfoldable pub can_transition : CoachingStatus → CoachingStatus → Bool
can_transition current target = member target (transitions current)

abbrev pub default_due_days : ℕ
default_due_days = 7

unfoldable pub is_overdue : CoachingStatus → Option Time → Time → Bool
is_overdue status due_at now =
    is_active status && elim due_at [ none ↦ false | some due ↦ ltb due now ]
