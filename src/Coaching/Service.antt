-- ===== src/Coaching/Service.antt =====
-- application/coaching/service.py: the commands of `CoachingService`, each an action on a session.
-- The clock, fresh identifiers and Python's text methods are arguments; `has_mail` says whether a
-- `MailService` was given.
use Prim.Native.String.{◌++◌ as str_append}
use visi_on_route.Prelude.{
  Bool, Option, String, Time, any, false, find, if◌then◌else◌, none, not, same, some, str_eq, true,
  update_where, ℕ, ◌&&◌, ◌==◌, ◌∷◌,
}
use visi_on_route.Access.Permissions.{RoleKey, role_has, coaching_manage}
use visi_on_route.Access.Context.{RequestContext}
use visi_on_route.Audit.{AuditLog}
use visi_on_route.Tx.{Error, Action, gets, raise_unless, ◌>>=◌, query}
use visi_on_route.Coaching.Status.{is_active}
use visi_on_route.Coaching.Store.{CoachingAction, SafetyEvent, Driver, Member, Store}

-- A `datetime` from the caller: a moment, and whether it names its time zone.
pub record Timestamp : Type 0 where
  pub at : Time
  pub has_zone : Bool

abbrev pub is_driver_role : Option RoleKey → Bool
is_driver_role (some RoleKey.driver) = true
is_driver_role _ = false

-- `_scoped`: the rows that the caller may see.
unfoldable pub in_scope : RequestContext → ℕ → Store → CoachingAction → Bool
in_scope ctx tenant s a =
    (a.organization_id == tenant)
    && (if is_driver_role ctx.role && not ctx.is_platform_admin
        then any (λ (d : Driver). same (some d.id) a.driver_id && same d.user_id ctx.user_id)
            s.drivers
        else true)

abbrev pub visible_action : RequestContext → ℕ → ℕ → Store → Option CoachingAction
visible_action ctx tenant action_id s =
    find (λ a. in_scope ctx tenant s a && (a.id == action_id)) s.actions

unfoldable pub get_action : RequestContext → ℕ → ℕ → Action Store CoachingAction
get_action ctx tenant action_id = query (visible_action ctx tenant action_id) Error.domain_not_found

-- The row that the partial unique index of `coaching_actions` lets exist once.
abbrev pub is_active_for : ℕ → ℕ → CoachingAction → Bool
is_active_for tenant event_id a =
    (a.organization_id == tenant) && same a.safety_event_id (some event_id) && is_active a.status

unfoldable pub active_for_event : ℕ → ℕ → Store → Option CoachingAction
active_for_event tenant event_id s = find (is_active_for tenant event_id) s.actions

-- `any(a.user_id == user_id for a in assignees(tenant_id))`
unfoldable pub is_assignee : ℕ → ℕ → Store → Bool
unfolding role_has
is_assignee tenant user_id s =
    any
      (λ (m : Member).
        (m.organization_id == tenant)
        && m.membership_active
        && m.user_active
        && role_has m.role_key coaching_manage
        && (m.user_id == user_id))
      s.members

unfoldable pub require_assignee : ℕ → ℕ → Action Store (Unit {0})
require_assignee tenant user_id = do
  fine ← gets (is_assignee tenant user_id)
  raise_unless fine Error.validation_failed

abbrev pub add_audit : AuditLog → Store → Store
add_audit entry s = record s { audits = entry ∷ s.audits }

-- The object that a method changed is written back to its row.
abbrev pub save : CoachingAction → Store → Store
save a s = record s { actions = update_where (λ b. b.id == a.id) (λ _. a) s.actions }

-- `EVENT_LABELS_TR[SafetyEventType(event_type)]`, or the event type itself
abbrev pub event_label : String → String
event_label event_type =
    if str_eq event_type "harsh_braking"
    then "Sert fren"
    else if str_eq event_type "harsh_acceleration"
    then "Sert hızlanma"
    else if str_eq event_type "harsh_cornering"
    then "Sert viraj"
    else if str_eq event_type "speeding"
    then "Hız aşımı"
    else if str_eq event_type "gps_anomaly"
    then "GPS anomalisi"
    else event_type

abbrev pub default_title : Option SafetyEvent → String
default_title none = "Sürücü koçluğu"
default_title (some event) = str_append (event_label event.event_type) " olayı için sürücü koçluğu"

unfoldable pub notify_assignee : Bool → ℕ → CoachingAction → Store → Store
notify_assignee has_mail tenant a s = elim a.assignee_user_id [
  | none ↦ s
  | some user_id ↦
      if has_mail && any (λ u. u == user_id) s.users && any (λ o. o == tenant) s.organizations
      then record s {
        messages =
            record { template = "coaching_assigned"; recipient_user_id = user_id; action_id = a.id }
            ∷ s.messages;
      }
      else s
]
