-- ===== src/Privacy/Erasing.antt =====
-- application/privacy/processor.py: what the worker works with, and the erasure of a driver,
-- `_erase_driver`.
use visi_on_route.Prelude.{
  Bool, List, Option, String, Time, [], any, count, false, find, if◌then◌else◌, is_none, is_some,
  none, not, same, select, some, str_eq, true, update_where, ℕ, ◌&&◌, ◌==◌, ◌∷◌,
}
use visi_on_route.Privacy.Store.{
  Evidence, PrivacyRequest, Subjects, TelemetryPoint, Trip, CoachingAction, Driver, EvidenceStatus,
  SafetyEvent,
}

pub record Artifact : Type 0 where
  pub key : ℕ
  pub size_bytes : ℕ

-- What the work on a request comes to: the data it leaves, an archive and its counts, or a failure
-- with the files that are left, whether it is permanent, and its code. The data are rolled back.
pub data Outcome : Type 0 where
  done : Subjects → Option Artifact → List (String × ℕ) → Outcome
  failed : List ℕ → Bool → String → Outcome

-- The object storage, the keys and texts of identifiers, and the work that is an argument.
pub record Worker : Type 0 where
  pub deletes : ℕ → Bool
  pub object_key : ℕ → ℕ → ℕ
  pub pseudonym : ℕ → String × String
  pub export : Time → PrivacyRequest → Subjects → Outcome
  pub erase_user : Time → PrivacyRequest → Subjects → Outcome

abbrev pub remove_file : ℕ → List ℕ → List ℕ
remove_file k files = select (λ f. not (f == k)) files

abbrev pub is_of : ℕ → ℕ → ℕ → Option ℕ → Bool
is_of org driver_id row_org row_driver = (row_org == org) && same row_driver (some driver_id)

abbrev pub is_evidence_of : ℕ → ℕ → List SafetyEvent → Evidence → Bool
is_evidence_of org driver_id events e =
    (e.organization_id == org)
    && any (λ (v : SafetyEvent). (v.id == e.safety_event_id) && same v.driver_id (some driver_id))
        events

-- The files that the loop over the evidence deletes, until the storage refuses one
abbrev pub delete_files : (ℕ → Bool) → List Evidence → List ℕ → Bool × List ℕ
delete_files deletes [] files = (true, files)
delete_files deletes (e ∷ es) files =
    let rest = delete_files deletes es in
    elim e.storage_key [
      | none ↦ rest files
      | some k ↦ if deletes k then rest (remove_file k files) else (false, files)
    ]

abbrev pub erased_driver : Worker → Time → Driver → Driver
erased_driver w now d = record d {
  full_name = (w.pseudonym d.id).0;
  external_id = (w.pseudonym d.id).1;
  phone = none;
  license_number_enc = none;
  user_id = none;
  is_erased = true;
  erased_at = some now;
}

abbrev pub delete_evidence : Time → Evidence → Evidence
delete_evidence now e = record e {
  storage_key = none;
  telemetry_window = none;
  status = EvidenceStatus.deleted;
  deleted_at = some now;
}

abbrev pub is_point_of : ℕ → ℕ → TelemetryPoint → Bool
is_point_of org k p = is_of org k p.organization_id p.driver_id

abbrev pub is_trip_of : ℕ → ℕ → Trip → Bool
is_trip_of org k t = is_of org k t.organization_id t.driver_id

abbrev pub is_event_of : ℕ → ℕ → SafetyEvent → Bool
is_event_of org k e = is_of org k e.organization_id e.driver_id

abbrev pub is_action_of : ℕ → ℕ → CoachingAction → Bool
is_action_of org k a = is_of org k a.organization_id a.driver_id

abbrev pub hide_trip : Trip → Trip
hide_trip t = record t { last_latitude = none; last_longitude = none }

abbrev pub hide_event : SafetyEvent → SafetyEvent
hide_event e = record e { latitude = none; longitude = none; reviewer_notes = none }

abbrev pub hide_action : CoachingAction → CoachingAction
hide_action a = record a { description = none; notes = none; outcome_notes = none }

-- The data after the erasure of a driver, with the files that are left
unfoldable pub without_driver : Worker → Time → ℕ → ℕ → List ℕ → Subjects → Subjects
without_driver w now org k files s = record s {
  drivers = update_where (λ (d : Driver). d.id == k) (erased_driver w now) s.drivers;
  points = select (λ p. not (is_point_of org k p)) s.points;
  trips = update_where (is_trip_of org k) hide_trip s.trips;
  evidence = update_where (is_evidence_of org k s.events) (delete_evidence now) s.evidence;
  events = update_where (is_event_of org k) hide_event s.events;
  actions = update_where (is_action_of org k) hide_action s.actions;
  files = files;
}

abbrev pub driver_counts : ℕ → ℕ → Subjects → List (String × ℕ)
driver_counts org k s =
    ("telemetry_points_deleted", count (is_point_of org k) s.points)
    ∷ ("trips_pseudonymized", count (is_trip_of org k) s.trips)
    ∷ ("safety_events_pseudonymized", count (is_event_of org k) s.events)
    ∷ (
      "evidence_media_deleted",
      count (λ e. is_evidence_of org k s.events e && is_some e.storage_key) s.evidence,
    )
    ∷ ("coaching_actions_redacted", count (is_action_of org k) s.actions)
    ∷ []

abbrev pub own_subject : ℕ → ℕ → Subjects → Option Driver
own_subject org k s = elim (find (λ (d : Driver). d.id == k) s.drivers) [
  | none ↦ none
  | some d ↦ if d.organization_id == org then some d else none
]

-- Another driver of the organization has the pseudonym's external identifier, against the unique
-- index `uq_drivers_org_external`.
abbrev pub is_pseudonym_taken : Worker → ℕ → ℕ → Subjects → Bool
is_pseudonym_taken w org k s =
    any
      (λ (d : Driver).
        (d.organization_id == org) && (not (d.id == k) && str_eq d.external_id (w.pseudonym k).1))
      s.drivers

-- `_erase_driver`. The new name is written before the first deletion, so that a refusal of the
-- database leaves the files.
unfoldable pub erase_driver : Worker → Time → ℕ → ℕ → Subjects → Outcome
erase_driver w now org k s =
    if is_none (own_subject org k s)
    then Outcome.failed s.files true "SUBJECT_NOT_FOUND"
    else if is_pseudonym_taken w org k s
    then Outcome.failed s.files false "IntegrityError"
    else let (gone, files) =
        delete_files w.deletes (select (is_evidence_of org k s.events) s.evidence) s.files in
      if gone
      then Outcome.done (without_driver w now org k files s) none (driver_counts org k s)
      else Outcome.failed files false "StorageError"
