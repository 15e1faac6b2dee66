-- ===== src/Coaching/Tests.antt =====
-- Runs of the coaching service on a small store.
use visi_on_route.Prelude.{List, [], arith, days, false, none, refl, some, true, ℕ, ◌∷◌, ◌≡◌}
use visi_on_route.Tx.{Tx, Error}
use visi_on_route.Access.Permissions.{RoleKey}
use visi_on_route.Access.Context.{RequestContext}
use visi_on_route.Coaching.Status.{CoachingStatus, CoachingOutcome, can_transition}
use visi_on_route.Coaching.Store.{Store, CoachingAction, SafetyEvent}
use visi_on_route.Coaching.Commands.{Creation, Surroundings, create_action, create_for, own_event}
use visi_on_route.Coaching.Moves.{Answer, transition-Answer}
use visi_on_route.Coaching.Changes.{Details, transition, enter, transition_row}
use visi_on_route.Coaching.Shape.{IsValid}
use visi_on_route.Coaching.Requests.{Request, serve, serve-IsValid, transition_error_writes_nothing}
use visi_on_route.Coaching.Answer.{create_action-answers}
use visi_on_route.Coaching.Service.{in_scope, active_for_event, get_action}

abbrev surroundings : ℕ → Surroundings
surroundings n = record {
  text = record { strip = λ s. s; prefix = λ k s. s };
  has_mail = true;
  now = days n;
  new_id = n;
  others = λ s. s;
}

abbrev manager : RequestContext
manager = record {
  user_id = some 1;
  organization_id = some 1;
  role = some RoleKey.safety_manager;
  is_platform_admin = false;
  user_agent = none;
}

abbrev braking : SafetyEvent
braking = record {
  id = 5;
  organization_id = 1;
  driver_id = none;
  event_type = "harsh_braking";
  review_status = "confirmed";
  reviewer_user_id = none;
  reviewed_at = none;
  reviewer_notes = none;
  root_cause = none;
  resolution = none;
}

abbrev office : Store
office = record {
  actions = [];
  events = braking ∷ [];
  drivers = [];
  members =
      record {
        user_id = 1;
        organization_id = 1;
        role_key = RoleKey.safety_manager;
        membership_active = true;
        user_active = true;
      }
      ∷ [];
  users = 1 ∷ [];
  organizations = 1 ∷ [];
  audits = [];
  messages = [];
}

office-IsValid : IsValid office office
office-IsValid = record {
  unique_ids = λ k. omega arith;
  one_active = λ t e. omega arith;
  history = λ k a h. h.0;
  well_formed = refl;
}

abbrev for_braking : Creation
for_braking = record {
  title = none;
  description = none;
  safety_event_id = some 5;
  driver_id = none;
  assignee_user_id = none;
  due_at = none;
}

abbrev no_details : Details
no_details = record { outcome = none; outcome_notes = none; cancel_reason = none }

-- Two creations for one event, and a start of the action.
abbrev day : List Request
day =
    Request.create manager 1 (surroundings 2) for_braking
    ∷ Request.create manager 1 (surroundings 3) for_braking
    ∷ Request.move manager 1 (surroundings 4) 2 CoachingStatus.in_progress no_details
    ∷ []

serve-IsValid_example : IsValid office (serve day office)
serve-IsValid_example =
    serve-IsValid office day office ((λ s v. v), ((λ s v. v), (tt, tt))) office-IsValid

abbrev coaching : CoachingAction
coaching = record {
  id = 2;
  organization_id = 1;
  safety_event_id = some 5;
  driver_id = none;
  assignee_user_id = none;
  created_by_user_id = some 1;
  title = "Sert fren olayı için sürücü koçluğu";
  description = none;
  status = CoachingStatus.opened;
  due_at = some (days 9);
  notes = none;
  outcome = none;
  outcome_notes = none;
  started_at = none;
  completed_at = none;
  canceled_at = none;
  cancel_reason = none;
}

abbrev open_office : Tx Store
open_office = record {
  durable = record office { actions = coaching ∷ [] };
  current = record office { actions = coaching ∷ [] };
}

create_action-answers_example :
    active_for_event 1 5
      (create_action (surroundings 3) manager 1 for_braking open_office).1.current
    ≡ some coaching
unfolding create_action create_for own_event active_for_event
create_action-answers_example =
    create_action-answers (surroundings 3) manager 1 5 for_braking open_office (coaching, false)
      refl refl

abbrev finished : Details
finished = record no_details { outcome = some CoachingOutcome.coached }

transition-Answer_example :
    Answer
      (surroundings 4).text
      (days 4)
      manager
      finished
      coaching
      CoachingStatus.completed
      (transition
        (surroundings 4).text
        (days 4)
        manager
        1
        2
        CoachingStatus.completed
        finished
        open_office).0
unfolding in_scope
transition-Answer_example =
    transition-Answer (surroundings 4).text (days 4) manager 1 2 CoachingStatus.completed finished
      open_office coaching refl

transition_error_writes_nothing_example :
    (transition
      (surroundings 4).text
      (days 4)
      manager
      1
      2
      CoachingStatus.completed
      no_details
      open_office).1
    ≡ open_office
unfolding in_scope can_transition enter transition transition_row get_action
transition_error_writes_nothing_example =
    transition_error_writes_nothing (surroundings 4).text (days 4) manager 1 2
      CoachingStatus.completed no_details open_office refl Error.validation_failed refl
