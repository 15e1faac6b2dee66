-- ===== src/Privacy/Processor.antt =====
-- application/privacy/processor.py: the worker's side of data-subject requests. The files of an
-- export and the erasure of a user's account are made by arguments, which answer as `_export` and
-- `_erase_user` do; the erasure of a driver is `erase_driver`.
use visi_on_route.Privacy.Erasing.{Artifact, Outcome, Worker, erase_driver, remove_file}
use visi_on_route.Prelude.{
  Bool, List, Option, String, Time, [], any, count, days, false, if◌then◌else◌, leb, length, ltb,
  map, minutes, none, select, some, take, true, update_where, ℕ, ◌&&◌, ◌+◌, ◌==◌, ◌||◌, ◌∷◌,
}
use visi_on_route.Tx.{Result, ok, err, Error}
use visi_on_route.Access.Context.{RequestContext}
use visi_on_route.Audit.{record_audit}
use visi_on_route.Privacy.Store.{
  Store, Subjects, PrivacyRequest, RequestKind, SubjectType, RequestStatus, add_audit,
}
use visi_on_route.Privacy.Retention.{retry_delay}
use visi_on_route.Privacy.Service.{
  is_active, request_by_id, change_request, is_active_about, subject_of,
}

abbrev pub erase : Worker → Time → PrivacyRequest → Subjects → Outcome
erase w now x s = elim x.subject_type [
  | SubjectType.driver ↦ erase_driver w now x.organization_id x.subject_id s
  | SubjectType.user ↦ w.erase_user now x s
]

abbrev pub perform : Worker → Time → PrivacyRequest → Subjects → Outcome
perform w now x s = elim x.kind [
  | RequestKind.export ↦ w.export now x s
  | RequestKind.erasure ↦ erase w now x s
]

abbrev pub is_due : Time → PrivacyRequest → Bool
is_due now x = is_active x.status && leb x.next_attempt_at now

-- `order_by(created_at)`
abbrev pub insert_by_age : PrivacyRequest → List PrivacyRequest → List PrivacyRequest
insert_by_age x [] = x ∷ []
insert_by_age x (y ∷ ys) =
    let rest = insert_by_age x ys in if leb x.created_at y.created_at then x ∷ y ∷ ys else y ∷ rest

abbrev pub by_age : List PrivacyRequest → List PrivacyRequest
by_age [] = []
by_age (x ∷ xs) = insert_by_age x (by_age xs)

-- `PROCESSING_LEASE`
abbrev pub processing_lease : Time
processing_lease = minutes 15

abbrev pub lease : Time → PrivacyRequest → PrivacyRequest
lease now x = record x {
  status = RequestStatus.processing;
  attempts = x.attempts + 1;
  next_attempt_at = now + processing_lease;
}

abbrev pub claimed_ids : ℕ → Time → Store → List ℕ
claimed_ids limit now s =
    map (λ (x : PrivacyRequest). x.id) (take limit (by_age (select (is_due now) s.requests)))

abbrev pub is_among : List ℕ → ℕ → Bool
is_among ks k = any (λ j. j == k) ks

-- `_claim`: the rows to process, and the store with their leases
unfoldable pub claim : ℕ → Time → Store → List ℕ × Store
claim limit now s =
    let ks = claimed_ids limit now s in
    (
      ks,
      record s {
        requests = update_where (λ x. is_due now x && is_among ks x.id) (lease now) s.requests;
      },
    )

-- `_system_context`
abbrev pub system_context : ℕ → RequestContext
system_context org = record {
  user_id = none;
  organization_id = some org;
  role = none;
  is_platform_admin = false;
  user_agent = none;
}

abbrev pub completed_action : RequestKind → String
completed_action RequestKind.export = "privacy.export_completed"
completed_action RequestKind.erasure = "privacy.erasure_completed"

abbrev pub failed_action : RequestKind → String
failed_action RequestKind.export = "privacy.export_failed"
failed_action RequestKind.erasure = "privacy.erasure_failed"

-- The end of `_export`: the archive may be fetched for seven days.
abbrev pub with_artifact : Time → Option Artifact → PrivacyRequest → PrivacyRequest
with_artifact now none x = x
with_artifact now (some a) x = record x {
  artifact_key = some a.key;
  artifact_size_bytes = some a.size_bytes;
  artifact_expires_at = some (now + days 7);
}

abbrev pub completed_row :
    Time → Option Artifact → List (String × ℕ) → PrivacyRequest → PrivacyRequest
completed_row now a counts x = record (with_artifact now a x) {
  status = RequestStatus.completed;
  result = counts;
  error_code = none;
  completed_at = some now;
}

-- `MAX_ATTEMPTS`
abbrev pub max_attempts : ℕ
max_attempts = 5

abbrev pub is_last : Bool → PrivacyRequest → Bool
is_last permanent x = permanent || leb max_attempts x.attempts

abbrev pub failed_row : Time → Bool → String → PrivacyRequest → PrivacyRequest
failed_row now permanent code x =
    if is_last permanent x
    then record x { status = RequestStatus.failed; error_code = some code; completed_at = some now }
    else record x {
      status = RequestStatus.pending;
      error_code = some code;
      next_attempt_at = now + retry_delay x.attempts;
    }

-- The row breaks the unique index of active requests.
abbrev pub has_twin : PrivacyRequest → Store → Bool
has_twin x s = ltb 1 (count (is_active_about (subject_of x)) s.requests)

abbrev pub failed_store : Time → Bool → String → PrivacyRequest → Store → Store
failed_store now permanent code x s =
    let s' = change_request x.id (failed_row now permanent code) s in
    if is_last permanent x
    then add_audit
        (record_audit (system_context x.organization_id) none (failed_action x.kind) x.id) s'
    else s'

-- `_record_failure`, on the row as it is by then: it may have been changed since the work began. A
-- row that becomes active again is refused by the index where another request took its place.
unfoldable pub record_failure : Time → Bool → String → ℕ → Store → Result (Unit {0}) × Store
record_failure now permanent code k s = elim (request_by_id k s) [
  | none ↦ (ok tt, s)
  | some x ↦
      if has_twin x (failed_store now permanent code x s)
      then (err Error.integrity_error, s)
      else (ok tt, failed_store now permanent code x s)
]

-- The removal of an archive that was stored before the failure; a refusal is only logged.
abbrev pub clean_up : Worker → PrivacyRequest → List ℕ → List ℕ
clean_up w x files = elim x.kind [
  | RequestKind.erasure ↦ files
  | RequestKind.export ↦
      (let key = w.object_key x.organization_id x.id in
        if w.deletes key then remove_file key files else files)
]

abbrev pub keep_files : List ℕ → Store → Store
keep_files files s = record s { subjects = record s.subjects { files = files } }

-- How the work on a request ends: its own transaction writes the row, or the failure is recorded
-- in another one.
abbrev pub conclude : Worker → Time → PrivacyRequest → Outcome → Store → Result (Unit {0}) × Store
conclude w now x (Outcome.done subjects a counts) s = (
  ok tt,
  add_audit (record_audit (system_context x.organization_id) none (completed_action x.kind) x.id)
      (change_request x.id (completed_row now a counts) (record s { subjects = subjects })),
)
conclude w now x (Outcome.failed files permanent code) s =
    record_failure now permanent code x.id (keep_files (clean_up w x files) s)

abbrev pub is_processing : PrivacyRequest → Bool
is_processing x = elim x.status [ RequestStatus.processing ↦ true | _ ↦ false ]

-- The row that `_process` reads first, where it goes on
unfoldable pub started_row : ℕ → Store → Option PrivacyRequest
started_row k s = elim (request_by_id k s) [
  | none ↦ none
  | some x ↦ if is_processing x then some x else none
]

-- `_process`, where nothing else happens in the meantime
unfoldable pub process : Worker → Time → ℕ → Store → Result (Unit {0}) × Store
process w now k s = elim (started_row k s) [
  | none ↦ (ok tt, s)
  | some x ↦ conclude w now x (perform w now x s.subjects) s
]

abbrev pub process_each : Worker → Time → List ℕ → Store → Result (Unit {0}) × Store
process_each w now [] s = (ok tt, s)
process_each w now (k ∷ ks) s =
    let (r, s') = process w now k s in
    elim r [ err e ↦ (err e, s') | ok u ↦ process_each w now ks s' ]

-- `process_due`, with the number of requests that it handled
unfoldable pub process_due : Worker → ℕ → Time → Store → Result ℕ × Store
process_due w limit now s =
    let (ks, s') = claim limit now s in
    let (r, s'') = process_each w now ks s' in
    elim r [ err e ↦ (err e, s'') | ok u ↦ (ok (length ks), s'') ]
