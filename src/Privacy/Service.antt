-- ===== src/Privacy/Service.antt =====
-- application/privacy/service.py: requests of data subjects, and the settings of retention. The
-- signed address of a file is made by the object storage, so it is an argument.
use visi_on_route.Prelude.{
  Bool, Option, String, Time, [], any, false, find, if◌then◌else◌, is_empty, is_some, leb, ltb,
  none, not, on_some, same, some, true, update_where, ℕ, ◌&&◌, ◌==◌, ◌||◌, ◌∷◌,
}
use visi_on_route.Tx.{Action, ◌>>=◌, ◌>>◌, gets, query, raise_unless, Error, modify, pure, or_raise}
use visi_on_route.Access.Context.{RequestContext}
use visi_on_route.Access.Permissions.{RoleKey}
use visi_on_route.Audit.{record_audit}
use visi_on_route.Saas.Plans.{get_entitlements}
use visi_on_route.Privacy.Store.{
  Store, PrivacyRequest, RequestKind, SubjectType, RequestStatus, Driver, Member, add_audit,
  OrganizationSettings,
}
use visi_on_route.Privacy.Retention.{
  Settings, Wishes, RetentionPolicy, resolve_retention, are_allowed, merge,
}

-- `ACTIVE_STATUSES`
abbrev pub is_active : RequestStatus → Bool
is_active status = elim status [
  | RequestStatus.pending ↦ true
  | RequestStatus.processing ↦ true
  | _ ↦ false
]

abbrev pub same_kind : RequestKind → RequestKind → Bool
same_kind RequestKind.export RequestKind.export = true
same_kind RequestKind.erasure RequestKind.erasure = true
same_kind _ _ = false

abbrev pub same_type : SubjectType → SubjectType → Bool
same_type SubjectType.driver SubjectType.driver = true
same_type SubjectType.user SubjectType.user = true
same_type _ _ = false

abbrev pub is_erasure : RequestKind → Bool
is_erasure kind = same_kind kind RequestKind.erasure

-- What is asked, of whom, and where
pub record Subject : Type 0 where
  pub organization_id : ℕ
  pub kind : RequestKind
  pub subject_type : SubjectType
  pub subject_id : ℕ

abbrev pub is_about : Subject → PrivacyRequest → Bool
is_about a x =
    (x.organization_id == a.organization_id)
    && (same_kind x.kind a.kind
        && (same_type x.subject_type a.subject_type && (x.subject_id == a.subject_id)))

-- The rows of the partial unique index `uq_privacy_requests_active_subject`
abbrev pub is_active_about : Subject → PrivacyRequest → Bool
is_active_about a x = is_active x.status && is_about a x

abbrev pub subject_of : PrivacyRequest → Subject
subject_of x = record {
  organization_id = x.organization_id;
  kind = x.kind;
  subject_type = x.subject_type;
  subject_id = x.subject_id;
}

abbrev pub own_driver : ℕ → ℕ → Store → Option Driver
own_driver tenant k s = elim (find (λ (d : Driver). d.id == k) s.subjects.drivers) [
  | none ↦ none
  | some d ↦ if d.organization_id == tenant then some d else none
]

abbrev pub member_of : ℕ → ℕ → Store → Option Member
member_of tenant k s =
    find (λ (m : Member). (m.organization_id == tenant) && (m.user_id == k)) s.subjects.members

abbrev pub is_owner : Member → Bool
is_owner m = elim m.role_key [ RoleKey.owner ↦ true | _ ↦ false ]

unfoldable pub check_driver : Subject → Action Store (Unit {0})
check_driver a = do
  d ← query (own_driver a.organization_id a.subject_id) Error.domain_not_found
  raise_unless (not (is_erasure a.kind && is_some d.erased_at)) Error.domain_conflict

unfoldable pub check_user : RequestContext → Subject → Action Store (Unit {0})
check_user ctx a = do
  m ← query (member_of a.organization_id a.subject_id) Error.domain_not_found
  raise_unless (not (is_erasure a.kind && same (some a.subject_id) ctx.user_id))
      Error.domain_conflict
  raise_unless (not (is_erasure a.kind && is_owner m)) Error.domain_conflict

-- `_check_subject`
abbrev pub check_subject : RequestContext → Subject → Action Store (Unit {0})
check_subject ctx a = elim a.subject_type [
  | SubjectType.driver ↦ check_driver a
  | SubjectType.user ↦ check_user ctx a
]

-- What the caller's environment supplies: methods of texts, the clock and a fresh identifier.
pub record Draw : Type 0 where
  pub strip : String → String
  pub length : String → ℕ
  pub now : Time
  pub new_id : ℕ

abbrev pub is_reasoned : Draw → RequestKind → Option String → Bool
is_reasoned d RequestKind.export reason = true
is_reasoned d RequestKind.erasure none = false
is_reasoned d RequestKind.erasure (some r) = leb 10 (d.length (d.strip r))

-- `reason.strip() if reason else None`
abbrev pub kept_reason : Draw → Option String → Option String
kept_reason d none = none
kept_reason d (some r) = if is_empty r then none else some (d.strip r)

abbrev pub new_request : Draw → RequestContext → Subject → Option String → PrivacyRequest
new_request d ctx a reason = record {
  id = d.new_id;
  organization_id = a.organization_id;
  kind = a.kind;
  subject_type = a.subject_type;
  subject_id = a.subject_id;
  requested_by_user_id = ctx.user_id;
  reason = kept_reason d reason;
  status = RequestStatus.pending;
  attempts = 0;
  next_attempt_at = d.now;
  artifact_key = none;
  artifact_size_bytes = none;
  artifact_expires_at = none;
  result = [];
  error_code = none;
  completed_at = none;
  created_at = d.now;
}

-- The unique indexes of `privacy_requests`
abbrev pub is_taken : PrivacyRequest → Store → Bool
is_taken x s =
    any (λ (y : PrivacyRequest). y.id == x.id) s.requests
    || any (is_active_about (subject_of x)) s.requests

abbrev pub put_request : PrivacyRequest → Store → Store
put_request x s = record s { requests = x ∷ s.requests }

abbrev pub requested_action : RequestKind → String
requested_action RequestKind.export = "privacy.export_requested"
requested_action RequestKind.erasure = "privacy.erasure_requested"

unfoldable pub create_request :
    Draw → RequestContext → Subject → Option String → Action Store PrivacyRequest
create_request d ctx a reason = do
  check_subject ctx a
  raise_unless (is_reasoned d a.kind reason) Error.validation_failed
  taken ← gets (is_taken (new_request d ctx a reason))
  raise_unless (not taken) Error.domain_conflict
  modify (put_request (new_request d ctx a reason))
  modify (add_audit (record_audit ctx none (requested_action a.kind) d.new_id))
  pure (new_request d ctx a reason)

abbrev pub request_by_id : ℕ → Store → Option PrivacyRequest
request_by_id k s = find (λ (x : PrivacyRequest). x.id == k) s.requests

-- `_load`
abbrev pub own_request : ℕ → ℕ → Store → Option PrivacyRequest
own_request tenant k s = elim (request_by_id k s) [
  | none ↦ none
  | some x ↦ if x.organization_id == tenant then some x else none
]

abbrev pub is_pending : PrivacyRequest → Bool
is_pending x = elim x.status [ RequestStatus.pending ↦ true | _ ↦ false ]

abbrev pub change_request : ℕ → (PrivacyRequest → PrivacyRequest) → Store → Store
change_request k f s = record s {
  requests = update_where (λ (x : PrivacyRequest). x.id == k) f s.requests;
}

abbrev pub cancel_at : Time → PrivacyRequest → PrivacyRequest
cancel_at now x = record x { status = RequestStatus.canceled; completed_at = some now }

unfoldable pub cancel : RequestContext → Time → ℕ → ℕ → Action Store PrivacyRequest
cancel ctx now tenant k = do
  x ← query (own_request tenant k) Error.domain_not_found
  raise_unless (is_pending x) Error.domain_conflict
  modify (change_request k (cancel_at now))
  modify (add_audit (record_audit ctx none "privacy.request_canceled" k))
  pure (cancel_at now x)

-- The file that may be downloaded now
abbrev pub open_artifact : Time → PrivacyRequest → Option ℕ
open_artifact now x = elim x.kind [
  | RequestKind.erasure ↦ none
  | RequestKind.export ↦ elim x.status [
    | RequestStatus.completed ↦ elim x.artifact_expires_at [
      | none ↦ none
      | some t ↦ if ltb now t then x.artifact_key else none
    ]
    | _ ↦ none
  ]
]

abbrev pub concerns : Option ℕ → PrivacyRequest → Bool
concerns none x = true
concerns (some user_id) x = same_type x.subject_type SubjectType.user && (x.subject_id == user_id)

unfoldable pub export_download_url :
    (ℕ → Option String) → RequestContext → Time → ℕ → ℕ → Option ℕ → Action Store String
export_download_url presign ctx now tenant k subject_user_id = do
  x ← query (own_request tenant k) Error.domain_not_found
  raise_unless (concerns subject_user_id x) Error.domain_not_found
  key ← or_raise (open_artifact now x) Error.domain_conflict
  url ← or_raise (presign key) Error.service_not_configured
  modify (add_audit (record_audit ctx none "privacy.export_downloaded" k))
  pure url

abbrev pub settings_of : ℕ → Store → Option Settings
settings_of tenant s =
    on_some (λ (x : OrganizationSettings). x.retention)
      (find (λ (x : OrganizationSettings). x.organization_id == tenant) s.settings)

-- `dict(org_settings.retention) if org_settings else {}`
abbrev pub settings_or_none : Option Settings → Settings
settings_or_none none = []
settings_or_none (some xs) = xs

-- `get_retention`, without the copy of the stored settings that it shows
unfoldable pub get_retention : Time → ℕ → Action Store RetentionPolicy
get_retention now tenant = do
  e ← query (λ s. get_entitlements now tenant s.saas) Error.runtime_error
  gets (λ s. resolve_retention e.retention_days (settings_or_none (settings_of tenant s)))

abbrev pub keep_settings : ℕ → Settings → Store → Store
keep_settings tenant xs s = record s {
  settings =
      update_where (λ (x : OrganizationSettings). x.organization_id == tenant)
        (λ x. record x { retention = xs }) s.settings;
}

unfoldable pub update_retention : RequestContext → Time → ℕ → Wishes → Action Store RetentionPolicy
update_retention ctx now tenant wishes = do
  e ← query (λ s. get_entitlements now tenant s.saas) Error.runtime_error
  raise_unless (are_allowed e.retention_days wishes) Error.validation_failed
  stored ← query (settings_of tenant) Error.domain_not_found
  modify (keep_settings tenant (merge wishes stored))
  modify (add_audit (record_audit ctx none "organization.retention_updated" tenant))
  get_retention now tenant
