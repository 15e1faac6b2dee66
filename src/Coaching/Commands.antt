-- ===== src/Coaching/Commands.antt =====
-- application/coaching/service.py: `create_action`, `update_action` and `transition`.
use visi_on_route.Prelude.{
  Bool, Option, String, TextMethods, Time, any, days, false, find, if◌then◌else◌, is_empty, is_some,
  none, not, or_else, or_empty, same, some, true, ℕ, ◌&&◌, ◌+◌, ◌==◌, ◌||◌, ◌∷◌,
}
use visi_on_route.Access.Permissions.{coaching_manage}
use visi_on_route.Access.Context.{RequestContext, has_permission}
use visi_on_route.Audit.{record_audit}
use visi_on_route.Tx.{
  Error, Action, pure, raise, gets, modify, raise_unless, or_raise, ◌>>=◌, ◌>>◌, ok,
}
use visi_on_route.Coaching.Status.{opened, is_active, default_due_days}
use visi_on_route.Coaching.Store.{CoachingAction, SafetyEvent, Driver, Store}
use visi_on_route.Coaching.Service.{
  Timestamp, is_active_for, active_for_event, require_assignee, add_audit, default_title,
  notify_assignee,
}

-- The keyword arguments of `create_action`.
pub record Creation : Type 0 where
  pub title : Option String
  pub description : Option String
  pub safety_event_id : Option ℕ
  pub driver_id : Option ℕ
  pub assignee_user_id : Option ℕ
  pub due_at : Option Timestamp

-- What the caller's environment supplies: the clock, a fresh identifier, whether mail is
-- configured, and what other transactions commit between the look-up of an active action and the
-- insertion.
pub record Surroundings : Type 0 where
  pub text : TextMethods
  pub has_mail : Bool
  pub now : Time
  pub new_id : ℕ
  pub others : Store → Store

-- `self._db.get(SafetyEvent, id)`, unless it is another tenant's
unfoldable pub own_event : ℕ → ℕ → Store → Option SafetyEvent
own_event tenant event_id s = elim (find (λ (e : SafetyEvent). e.id == event_id) s.events) [
  | none ↦ none
  | some e ↦ if e.organization_id == tenant then some e else none
]

unfoldable pub own_driver : ℕ → ℕ → Store → Option Driver
own_driver tenant driver_id s = elim (find (λ (d : Driver). d.id == driver_id) s.drivers) [
  | none ↦ none
  | some d ↦ if d.organization_id == tenant then some d else none
]

-- The unique indexes of `coaching_actions`: the primary key, and one active action for an event.
unfoldable pub violates_index : CoachingAction → Store → Bool
violates_index a s =
    any (λ b. b.id == a.id) s.actions
    || (is_active a.status && elim a.safety_event_id [
      | none ↦ false
      | some event_id ↦ any (is_active_for a.organization_id event_id) s.actions
    ])

unfoldable pub add_action : CoachingAction → Store → Store
add_action a s = record s { actions = a ∷ s.actions }

-- `except IntegrityError`: a concurrent request created the active action first.
unfoldable pub resolve_conflict : ℕ → Option ℕ → Action Store (CoachingAction × Bool)
resolve_conflict tenant none = raise Error.integrity_error
resolve_conflict tenant (some event_id) = do
  existing ← gets (active_for_event tenant event_id)
  a ← or_raise existing Error.integrity_error
  pure (a, false)

unfoldable pub insert_action :
    Surroundings → RequestContext → ℕ → CoachingAction → Action Store (CoachingAction × Bool)
insert_action env ctx tenant a = do
  taken ← gets (violates_index a)
  if taken then resolve_conflict tenant a.safety_event_id else do
    modify (add_action a)
    modify (add_audit (record_audit ctx none "coaching_action.created" a.id))
    modify (
        if is_some a.assignee_user_id && not (same a.assignee_user_id ctx.user_id)
        then notify_assignee env.has_mail tenant a
        else λ s. s)
    pure (a, true)

-- `title`, or the default one, cut to the column's width
abbrev title_for : TextMethods → Option String → Option SafetyEvent → String
title_for text title event =
    let given = text.strip (or_empty title) in
    text.prefix 200 (if is_empty given then default_title event else given)

unfoldable pub new_action :
    Surroundings → RequestContext → ℕ → Creation → Option SafetyEvent → Option ℕ → CoachingAction
new_action env ctx tenant c event driver_id = record {
  id = env.new_id;
  organization_id = tenant;
  safety_event_id = c.safety_event_id;
  driver_id = driver_id;
  assignee_user_id = c.assignee_user_id;
  created_by_user_id = ctx.user_id;
  title = title_for env.text c.title event;
  description = c.description;
  status = opened;
  due_at = some (elim c.due_at [ none ↦ env.now + days default_due_days | some d ↦ d.at ]);
  notes = none;
  outcome = none;
  outcome_notes = none;
  started_at = none;
  completed_at = none;
  canceled_at = none;
  cancel_reason = none;
}

unfoldable pub check_driver : ℕ → Option ℕ → Action Store (Unit {0})
check_driver tenant none = pure tt
check_driver tenant (some driver_id) = do
  found ← gets (own_driver tenant driver_id)
  raise_unless (is_some found) Error.domain_not_found

unfoldable pub check_assignee : RequestContext → ℕ → Option ℕ → Action Store (Unit {0})
check_assignee ctx tenant none = pure tt
check_assignee ctx tenant (some user_id) = do
  raise_unless (has_permission ctx coaching_manage) Error.validation_failed
  require_assignee tenant user_id

abbrev names_zone : Option Timestamp → Bool
names_zone none = true
names_zone (some d) = d.has_zone

-- What other transactions commit in the meantime stays, whatever becomes of this one.
abbrev pub meanwhile : (Store → Store) → Action Store (Unit {0})
meanwhile f tx = (ok tt, record { durable = f tx.durable; current = f tx.current })

unfoldable pub create_new :
    Surroundings
    → RequestContext
    → ℕ
    → Creation
    → Option SafetyEvent
    → Option ℕ
    → Action Store (CoachingAction × Bool)
create_new env ctx tenant c event driver_id = do
  check_driver tenant driver_id
  check_assignee ctx tenant c.assignee_user_id
  raise_unless (names_zone c.due_at) Error.validation_failed
  meanwhile env.others
  insert_action env ctx tenant (new_action env ctx tenant c event driver_id)

abbrev pub create_or_reuse :
    Surroundings
    → RequestContext
    → ℕ
    → Creation
    → SafetyEvent
    → Option CoachingAction
    → Action Store (CoachingAction × Bool)
create_or_reuse env ctx tenant c event (some existing) = pure (existing, false)
create_or_reuse env ctx tenant c event none =
    create_new env ctx tenant c (some event) (or_else c.driver_id event.driver_id)

abbrev pub create_for :
    Surroundings → RequestContext → ℕ → Creation → Option ℕ → Action Store (CoachingAction × Bool)
create_for env ctx tenant c none = create_new env ctx tenant c none c.driver_id
create_for env ctx tenant c (some event_id) = do
  found ← gets (own_event tenant event_id)
  event ← or_raise found Error.domain_not_found
  existing ← gets (active_for_event tenant event_id)
  create_or_reuse env ctx tenant c event existing

unfoldable pub create_action :
    Surroundings → RequestContext → ℕ → Creation → Action Store (CoachingAction × Bool)
create_action env ctx tenant c = create_for env ctx tenant c c.safety_event_id
