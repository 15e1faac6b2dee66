-- ===== src/Privacy/Store.antt =====
-- The rows of infrastructure/db/models/privacy.py, and those that requests about drivers touch,
-- without the columns that nothing here reads or writes.
use visi_on_route.Prelude.{Bool, List, Option, String, Time, ℕ, ◌∷◌}
use visi_on_route.Saas.Plans.{Store as SaasStore}
use visi_on_route.Privacy.Retention.{Settings}
use visi_on_route.Audit.{AuditLog}
use visi_on_route.Access.Permissions.{RoleKey}

pub data RequestKind : Type 0 where
  export erasure : RequestKind

pub data SubjectType : Type 0 where
  driver user : SubjectType

pub data RequestStatus : Type 0 where
  pending processing completed failed canceled : RequestStatus

pub record PrivacyRequest : Type 0 where
  pub id : ℕ
  pub organization_id : ℕ
  pub kind : RequestKind
  pub subject_type : SubjectType
  pub subject_id : ℕ
  pub requested_by_user_id : Option ℕ
  pub reason : Option String
  pub status : RequestStatus
  pub attempts : ℕ
  pub next_attempt_at : Time
  pub artifact_key : Option ℕ
  pub artifact_size_bytes : Option ℕ
  pub artifact_expires_at : Option Time
  pub result : List (String × ℕ)
  pub error_code : Option String
  pub completed_at : Option Time
  pub created_at : Time

pub record Driver : Type 0 where
  pub id : ℕ
  pub organization_id : ℕ
  pub full_name : String
  pub external_id : String
  pub phone : Option String
  pub license_number_enc : Option ℕ
  pub user_id : Option ℕ
  pub is_erased : Bool
  pub erased_at : Option Time

pub record TelemetryPoint : Type 0 where
  pub id : ℕ
  pub organization_id : ℕ
  pub driver_id : Option ℕ
  pub occurred_at : Time

-- Coordinates are written and removed, never computed with, so they are numbers.
pub record Trip : Type 0 where
  pub id : ℕ
  pub organization_id : ℕ
  pub driver_id : Option ℕ
  pub last_latitude : Option ℕ
  pub last_longitude : Option ℕ

pub record SafetyEvent : Type 0 where
  pub id : ℕ
  pub organization_id : ℕ
  pub driver_id : Option ℕ
  pub latitude : Option ℕ
  pub longitude : Option ℕ
  pub reviewer_notes : Option String

pub data EvidenceKind : Type 0 where
  telemetry snapshot clip note : EvidenceKind

pub data EvidenceStatus : Type 0 where
  available rejected pending_upload deleted : EvidenceStatus

pub record Evidence : Type 0 where
  pub id : ℕ
  pub organization_id : ℕ
  pub safety_event_id : ℕ
  pub kind : EvidenceKind
  pub status : EvidenceStatus
  pub storage_key : Option ℕ
  pub telemetry_window : Option ℕ
  pub deleted_at : Option Time
  pub created_at : Time

pub record CoachingAction : Type 0 where
  pub id : ℕ
  pub organization_id : ℕ
  pub driver_id : Option ℕ
  pub description : Option String
  pub notes : Option String
  pub outcome_notes : Option String

pub record Member : Type 0 where
  pub organization_id : ℕ
  pub user_id : ℕ
  pub role_key : RoleKey

-- The data that requests are about; the files of the object storage by their keys
pub record Subjects : Type 0 where
  pub drivers : List Driver
  pub members : List Member
  pub points : List TelemetryPoint
  pub trips : List Trip
  pub events : List SafetyEvent
  pub evidence : List Evidence
  pub actions : List CoachingAction
  pub files : List ℕ

-- The settings of an organization: `OrganizationSettings`
pub record OrganizationSettings : Type 0 where
  pub organization_id : ℕ
  pub retention : Settings

pub record Store : Type 0 where
  pub requests : List PrivacyRequest
  pub subjects : Subjects
  pub settings : List OrganizationSettings
  pub saas : SaasStore
  pub audits : List AuditLog

abbrev pub add_audit : AuditLog → Store → Store
add_audit entry s = record s { audits = entry ∷ s.audits }
