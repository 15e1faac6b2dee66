-- ===== src/Privacy/Tests.antt =====
-- Runs of the privacy services on a small store.
use visi_on_route.Prelude.{
  List, String, [], arith, days, false, hours, none, refl, some, true, ℕ, ◌+◌, ◌∷◌, ◌≡◌,
}
use visi_on_route.Tx.{request, ok}
use visi_on_route.Access.Context.{RequestContext}
use visi_on_route.Access.Permissions.{RoleKey}
use visi_on_route.Saas.Plans.{Plan, SubscriptionStatus, Entitlements, get_entitlements}
use visi_on_route.Privacy.Store.{
  Store, Subjects, PrivacyRequest, RequestKind, SubjectType, RequestStatus, Driver, EvidenceKind,
  EvidenceStatus,
}
use visi_on_route.Privacy.Retention.{Setting, Wishes, are_allowed, resolve_retention}
use visi_on_route.Privacy.Service.{Draw, Subject, update_retention, get_retention, request_by_id}
use visi_on_route.Privacy.Singles.{IsValid}
use visi_on_route.Privacy.Erasing.{Worker, Outcome, erase_driver}
use visi_on_route.Privacy.Erasure.{IsForgotten, erase_driver-forgets}
use visi_on_route.Privacy.Histories.{take_steps-ended}
use visi_on_route.Privacy.Runs.{Step, System, take_steps}
use visi_on_route.Privacy.Retained.{IsWithin, update_retention-granted, resolve_retention-IsWithin}
use visi_on_route.Privacy.Purged.{IsPurged, purge_points-IsPurged}
use visi_on_route.Privacy.Purge.{purge_points}

abbrev manager : RequestContext
manager = record {
  user_id = some 3;
  organization_id = some 7;
  role = some RoleKey.owner;
  is_platform_admin = false;
  user_agent = none;
}

abbrev mehmet : Driver
mehmet = record {
  id = 5;
  organization_id = 7;
  full_name = "Mehmet";
  external_id = "D-5";
  phone = some "0555";
  license_number_enc = some 12;
  user_id = none;
  is_erased = false;
  erased_at = none;
}

abbrev subjects : Subjects
subjects = record {
  drivers = mehmet ∷ [];
  members = record { organization_id = 7; user_id = 3; role_key = RoleKey.owner } ∷ [];
  points =
      record { id = 1; organization_id = 7; driver_id = some 5; occurred_at = days 1 }
      ∷ record { id = 2; organization_id = 7; driver_id = none; occurred_at = days 9 }
      ∷ [];
  trips =
      record {
        id = 1;
        organization_id = 7;
        driver_id = some 5;
        last_latitude = some 41;
        last_longitude = some 29;
      }
      ∷ [];
  events =
      record {
        id = 1;
        organization_id = 7;
        driver_id = some 5;
        latitude = some 41;
        longitude = none;
        reviewer_notes = some "fast";
      }
      ∷ [];
  evidence =
      record {
        id = 1;
        organization_id = 7;
        safety_event_id = 1;
        kind = EvidenceKind.clip;
        status = EvidenceStatus.available;
        storage_key = some 90;
        telemetry_window = none;
        deleted_at = none;
        created_at = days 1;
      }
      ∷ [];
  actions = [];
  files = 90 ∷ 91 ∷ [];
}

abbrev basic : Plan
basic = record {
  key = "baslangic";
  vehicle_limit = some 10;
  user_limit = some 3;
  retention_days = 90;
}

abbrev store : Store
store = record {
  requests = [];
  subjects = subjects;
  settings =
      record { organization_id = 7; retention = ("telemetry_days", Setting.whole 60) ∷ [] } ∷ [];
  saas = record { plans = basic ∷ []; subscriptions = []; fleets = []; vehicles = []; audits = [] };
  audits = [];
}

abbrev worker : Worker
worker = record {
  deletes = λ f. true;
  object_key = λ org k. k + 500;
  pseudonym = λ k. ("Silinmiş sürücü 5", "silindi-5");
  export = λ now x s. Outcome.failed s.files false "StorageError";
  erase_user = λ now x s. Outcome.failed s.files true "SUBJECT_NOT_FOUND";
}

abbrev good_worker : Worker
good_worker = record worker {
  export = λ now x s. Outcome.done s (some (record { key = 501; size_bytes = 10 })) [];
}

abbrev draw : ℕ → Draw
draw n = record { strip = λ s. s; length = λ s. 12; now = hours n; new_id = n }

abbrev erasure_of_mehmet : Subject
erasure_of_mehmet = record {
  organization_id = 7;
  kind = RequestKind.erasure;
  subject_type = SubjectType.driver;
  subject_id = 5;
}

abbrev export_of_mehmet : Subject
export_of_mehmet = record erasure_of_mehmet { kind = RequestKind.export }

-- An export that two workers have in hand, since the first took longer than its lease: it fails
-- after the second has completed it. Then an erasure is asked for and withdrawn.
abbrev week : List Step
week =
    Step.asked (draw 1) manager export_of_mehmet none
    ∷ Step.claimed 5 (hours 2)
    ∷ Step.started 1
    ∷ Step.claimed 5 (hours 3)
    ∷ Step.started 1
    ∷ Step.concluded good_worker (hours 3) 0
    ∷ Step.concluded worker (hours 4) 0
    ∷ Step.asked (draw 4) manager erasure_of_mehmet (some "left the company")
    ∷ Step.canceled manager (hours 6) 7 4
    ∷ []

abbrev system : System
system = record { store = store; runs = [] }

-- A request that was withdrawn
abbrev old_request : PrivacyRequest
old_request = record {
  id = 2;
  organization_id = 7;
  kind = RequestKind.export;
  subject_type = SubjectType.driver;
  subject_id = 5;
  requested_by_user_id = some 3;
  reason = none;
  status = RequestStatus.canceled;
  attempts = 0;
  next_attempt_at = hours 1;
  artifact_key = none;
  artifact_size_bytes = none;
  artifact_expires_at = none;
  result = [];
  error_code = none;
  completed_at = some (hours 1);
  created_at = hours 1;
}

abbrev with_old : System
with_old = record { store = record store { requests = old_request ∷ [] }; runs = [] }

with_old-IsValid : IsValid with_old.store.requests
with_old-IsValid = record { unique_ids = λ k. ground arith; single = λ a. ground arith }

take_steps-ended_example : request_by_id 2 (take_steps week with_old).store ≡ some old_request
take_steps-ended_example =
    take_steps-ended 2 old_request refl week with_old with_old-IsValid refl refl

abbrev wishes : Wishes
wishes = ("evidence_media_days", some (Setting.whole 45)) ∷ ("telemetry_days", none) ∷ []

abbrev basic_rights : Entitlements
basic_rights = record {
  plan_key = "baslangic";
  status = SubscriptionStatus.trial;
  vehicle_limit = some 10;
  user_limit = some 3;
  retention_days = 90;
  trial_ends_at = none;
  trial_days_left = none;
  growth_blocked = false;
}

update_retention-granted_example :
    ((request (update_retention manager (days 9) 7 wishes) store).0
      ≡ ok (record { telemetry_days = 90; evidence_media_days = 45 }))
    × (request
          (get_retention (days 9) 7)
          (request (update_retention manager (days 9) 7 wishes) store).1
        ≡ (
          ok (record { telemetry_days = 90; evidence_media_days = 45 }),
          (request (update_retention manager (days 9) 7 wishes) store).1,
        ))
unfolding get_entitlements are_allowed
update_retention-granted_example =
    update_retention-granted manager (days 9) 7 wishes store basic_rights
      (("telemetry_days", Setting.whole 60) ∷ [])
      (record { plan = refl; stored = refl; allowed = refl })

resolve_retention-IsWithin_example :
    IsWithin 90 (resolve_retention 90 (("telemetry_days", Setting.whole 5) ∷ [])).telemetry_days
    × IsWithin 90
        (resolve_retention 90 (("telemetry_days", Setting.whole 5) ∷ [])).evidence_media_days
resolve_retention-IsWithin_example =
    resolve_retention-IsWithin 90 (("telemetry_days", Setting.whole 5) ∷ []) (omega arith)

erase_driver-forgets_example :
    (after : Subjects) × (counts : List (String × ℕ)) × ((erase_driver worker (hours 3) 7 5 subjects
        ≡ Outcome.done after none counts)
      × IsForgotten worker 7 5 subjects after)
erase_driver-forgets_example =
    erase_driver-forgets worker (hours 3) 7 5 subjects
      (record { known = refl; fresh = refl; deletes = λ f. refl })

purge_points-IsPurged_example :
    IsPurged 7 (days 8) subjects.points (purge_points 7 (days 8) subjects.points)
purge_points-IsPurged_example = purge_points-IsPurged 7 (days 8) subjects.points
