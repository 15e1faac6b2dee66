-- ===== src/Coaching/Store.antt =====
-- The rows that application/coaching/service.py reads and writes, from infrastructure/db/models.
use visi_on_route.Prelude.{ℕ, String, Bool, Option, List, Time}
use visi_on_route.Access.Permissions.{RoleKey}
use visi_on_route.Audit.{AuditLog}
use visi_on_route.Coaching.Status.{CoachingStatus, CoachingOutcome}

pub record CoachingAction : Type 0 where
  pub id : ℕ
  pub organization_id : ℕ
  pub safety_event_id : Option ℕ
  pub driver_id : Option ℕ
  pub assignee_user_id : Option ℕ
  pub created_by_user_id : Option ℕ
  pub title : String
  pub description : Option String
  pub status : CoachingStatus
  pub due_at : Option Time
  pub notes : Option String
  pub outcome : Option CoachingOutcome
  pub outcome_notes : Option String
  pub started_at : Option Time
  pub completed_at : Option Time
  pub canceled_at : Option Time
  pub cancel_reason : Option String

-- The columns of `SafetyEvent` that coaching and its review read or write.
pub record SafetyEvent : Type 0 where
  pub id : ℕ
  pub organization_id : ℕ
  pub driver_id : Option ℕ
  pub event_type : String
  pub review_status : String
  pub reviewer_user_id : Option ℕ
  pub reviewed_at : Option Time
  pub reviewer_notes : Option String
  pub root_cause : Option String
  pub resolution : Option String

pub record Driver : Type 0 where
  pub id : ℕ
  pub organization_id : ℕ
  pub user_id : Option ℕ

-- A membership with the state of its user: the join that `assignees` reads.
pub record Member : Type 0 where
  pub user_id : ℕ
  pub organization_id : ℕ
  pub role_key : RoleKey
  pub membership_active : Bool
  pub user_active : Bool

-- A queued message, by its template, its recipient and the action it is about.
pub record EmailMessage : Type 0 where
  pub template : String
  pub recipient_user_id : ℕ
  pub action_id : ℕ

pub record Store : Type 0 where
  pub actions : List CoachingAction
  pub events : List SafetyEvent
  pub drivers : List Driver
  pub members : List Member
  pub users : List ℕ
  pub organizations : List ℕ
  pub audits : List AuditLog
  pub messages : List EmailMessage
