-- ===== src/Privacy/Purge.antt =====
-- The retention part of application/privacy/processor.py: `_purge_organization`, and the archives
-- of `purge_expired`. Where the object storage refuses to delete, the call raises.
use visi_on_route.Prelude.{
  Bool, List, Option, Time, [], count, days, false, if◌then◌else◌, length, ltb, map, min, none,
  on_some, select, some, suc, take, true, update_where, zero, ℕ, ◌&&◌, ◌+◌, ◌-◌, ◌==◌, ◌∷◌,
}
use visi_on_route.Audit.{record_audit}
use visi_on_route.Saas.Plans.{get_entitlements}
use visi_on_route.Privacy.Retention.{RetentionPolicy, resolve_retention}
use visi_on_route.Privacy.Store.{
  Store, TelemetryPoint, Evidence, EvidenceKind, EvidenceStatus, add_audit,
}
use visi_on_route.Privacy.Service.{settings_of, settings_or_none}
use visi_on_route.Privacy.Erasing.{Worker, delete_files}
use visi_on_route.Privacy.Processor.{is_among, system_context}

-- `delete … where … in (select … limit n)`: the first `n` rows that pass the test
abbrev pub drop_some : (TelemetryPoint → Bool) → ℕ → List TelemetryPoint → List TelemetryPoint
drop_some p n [] = []
drop_some p n (x ∷ xs) =
    let hit = p x && ltb 0 n in
    let rest = drop_some p (if hit then n - 1 else n) xs in if hit then rest else x ∷ rest

-- The loop over batches: how many rows were deleted, and those that are left
abbrev pub purge_batches :
    (TelemetryPoint → Bool) → ℕ → ℕ → List TelemetryPoint → ℕ × List TelemetryPoint
purge_batches p size zero xs = (0, xs)
purge_batches p size (suc n) xs =
    let deleted = min size (count p xs) in
    let left = drop_some p size xs in
    let (more, last) = purge_batches p size n left in
    if ltb deleted size then (deleted, left) else (deleted + more, last)

-- `_TELEMETRY_PURGE_BATCH` and `_TELEMETRY_PURGE_MAX_BATCHES`
abbrev pub batch_size : ℕ
batch_size = 5000

abbrev pub max_batches : ℕ
max_batches = 40

abbrev pub is_old_point : ℕ → Time → TelemetryPoint → Bool
is_old_point org cutoff x = (x.organization_id == org) && ltb x.occurred_at cutoff

unfoldable pub purge_points : ℕ → Time → List TelemetryPoint → ℕ × List TelemetryPoint
purge_points org cutoff xs = purge_batches (is_old_point org cutoff) batch_size max_batches xs

abbrev pub is_stored : EvidenceStatus → Bool
is_stored status = elim status [ EvidenceStatus.deleted ↦ false | _ ↦ true ]

abbrev pub is_media : EvidenceKind → Bool
is_media kind = elim kind [ EvidenceKind.snapshot ↦ true | EvidenceKind.clip ↦ true | _ ↦ false ]

abbrev pub is_old_media : ℕ → Time → Evidence → Bool
is_old_media org cutoff e =
    (e.organization_id == org)
    && (is_stored e.status && (is_media e.kind && ltb e.created_at cutoff))

-- `_EVIDENCE_PURGE_BATCH`
abbrev pub media_batch : ℕ
media_batch = 500

-- The telemetry window of an event is kept.
abbrev pub purge_evidence : Time → Evidence → Evidence
purge_evidence now e = record e {
  storage_key = none;
  status = EvidenceStatus.deleted;
  deleted_at = some now;
}

abbrev pub with_audit : Bool → ℕ → Store → Store
with_audit b org s =
    if b
    then add_audit (record_audit (system_context org) none "retention.evidence_media_purged" org) s
    else s

-- The media of an organization: their number, or nothing where the storage refused one
unfoldable pub purge_media : Worker → Time → Time → ℕ → Store → Option ℕ × Store
purge_media w now cutoff org s =
    let rows = take media_batch (select (is_old_media org cutoff) s.subjects.evidence) in
    let ids = map (λ (e : Evidence). e.id) rows in
    let (gone, files) = delete_files w.deletes rows s.subjects.files in
    if gone
    then (
      some (length rows),
      with_audit (ltb 0 (length rows)) org (record s {
        subjects = record s.subjects {
          files = files;
          evidence =
              update_where (λ e. is_old_media org cutoff e && is_among ids e.id)
                (purge_evidence now) s.subjects.evidence;
        };
      }),
    )
    else (none, record s { subjects = record s.subjects { files = files } })

abbrev pub keep_points : List TelemetryPoint → Store → Store
keep_points xs s = record s { subjects = record s.subjects { points = xs } }

abbrev pub purge_under : Worker → Time → ℕ → RetentionPolicy → Store → Option (ℕ × ℕ) × Store
purge_under w now org policy s =
    let (telemetry, points) =
      purge_points org (now - days policy.telemetry_days) s.subjects.points in
    let (media, s') =
      purge_media w now (now - days policy.evidence_media_days) org (keep_points points s) in
    (on_some (λ (n : ℕ). (telemetry, n)) media, s')

-- `_purge_organization`; nothing where it raises
unfoldable pub purge_organization : Worker → Time → ℕ → Store → Option (ℕ × ℕ) × Store
purge_organization w now org s = elim (get_entitlements now org s.saas) [
  | none ↦ (none, s)
  | some e ↦
      purge_under w now org
        (resolve_retention e.retention_days (settings_or_none (settings_of org s))) s
]
