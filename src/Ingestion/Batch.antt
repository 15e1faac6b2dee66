-- ===== src/Ingestion/Batch.antt =====
-- application/ingestion/service.py: one event and a batch of them.
use visi_on_route.Prelude.{
  Bool, List, Option, String, TextMethods, Time, [], any, count, false, if◌then◌else◌, inl, inr,
  is_empty, none, not, some, str_eq, true, ℕ, ◌&&◌, ◌+◌, ◌==◌, ◌∷◌, ◌⊎◌,
}
use visi_on_route.Ingestion.Defs.{
  Store, Verdict, Contract, DataSource, EventEnvelope, EventType, IngestOutcome, PayloadProblem,
  RejectionReason, Vehicle, is_schema_supported, check_timestamp, store_accepted, store_quarantine,
}

-- What a batch is received with.
pub record Intake (Raw : Type 0) : Type 0 where
  pub contract : Contract Raw
  pub text : TextMethods
  pub tenant_id : ℕ
  pub data_source : DataSource

module _ {Raw : Type 0} (k : Intake Raw) where
  -- `external_id`, before the envelope is known
  abbrev pub raw_event_id : Raw → String
  raw_event_id raw =
      let written = k.contract.event_id_text raw in
      if is_empty written then "(bilinmiyor)" else written

  abbrev pub quarantine_raw :
      ℕ → Raw → RejectionReason → String → Store Raw → IngestOutcome × Store Raw
  quarantine_raw id raw reason detail =
      store_quarantine k.text id k.tenant_id k.data_source raw (raw_event_id raw) none reason detail

  abbrev pub quarantine :
      ℕ → EventEnvelope → RejectionReason → String → Store Raw → IngestOutcome × Store Raw
  quarantine id e reason detail =
      store_quarantine k.text id k.tenant_id k.data_source (k.contract.model_dump e) e.event_id
        (some e) reason detail

  -- `_known_vehicle_ids`
  abbrev pub is_known_vehicle : List Vehicle → String → Bool
  is_known_vehicle vehicles external_id =
      any (λ (v : Vehicle). (v.organization_id == k.tenant_id) && str_eq v.external_id external_id)
        vehicles

  -- Steps 5 and 6: the vehicle, then the natural key.
  unfoldable pub ingest_checked :
      ℕ → EventEnvelope → List Vehicle → Store Raw → IngestOutcome × Store Raw
  ingest_checked id e vehicles s =
      if is_known_vehicle vehicles e.vehicle_external_id
      then store_accepted id k.tenant_id k.data_source e (k.contract.model_dump e) s
      else quarantine id e RejectionReason.unknown_vehicle e.vehicle_external_id s

  -- Step 4: the timestamp.
  unfoldable pub ingest_timed :
      ℕ
      → EventEnvelope
      → Option RejectionReason
      → List Vehicle
      → Store Raw
      → IngestOutcome × Store Raw
  ingest_timed id e none vehicles s = ingest_checked id e vehicles s
  ingest_timed id e (some reason) vehicles s =
      quarantine id e reason (k.contract.time_text e.occurred_at) s

  abbrev pub is_position : EventType → Bool
  is_position EventType.telemetry_position = true
  is_position _ = false

  abbrev pub payload_reason : PayloadProblem → RejectionReason
  payload_reason p =
      if p.names_coordinate
      then RejectionReason.coordinates_out_of_range
      else RejectionReason.invalid_payload

  -- Step 3: the payload of a position, which is read from the raw event.
  abbrev pub payload_problem : Raw → EventEnvelope → Option PayloadProblem
  payload_problem raw e = if is_position e.event_type then k.contract.validate_payload raw else none

  unfoldable pub ingest_valid :
      ℕ
      → EventEnvelope
      → Option PayloadProblem
      → Time
      → List Vehicle
      → Store Raw
      → IngestOutcome × Store Raw
  ingest_valid id e none now vehicles s =
      ingest_timed id e (check_timestamp e.occurred_at now) vehicles s
  ingest_valid id e (some p) now vehicles s = quarantine id e (payload_reason p) p.summary s

  -- Step 2: the structure of the envelope.
  unfoldable pub ingest_parsed :
      ℕ → Raw → String ⊎ EventEnvelope → Time → List Vehicle → Store Raw → IngestOutcome × Store Raw
  ingest_parsed id raw (inl problem) now vehicles s =
      quarantine_raw id raw RejectionReason.invalid_payload problem s
  ingest_parsed id raw (inr e) now vehicles s =
      ingest_valid id e (payload_problem raw e) now vehicles s

  -- `schema_version and not is_schema_supported(schema_version)`
  abbrev pub is_unsupported : Raw → Bool
  is_unsupported raw =
      let version = k.contract.schema_version_text raw in
      not (is_empty version) && not (is_schema_supported version)

  -- `_ingest_one`
  unfoldable pub ingest_one : ℕ → Raw → Time → List Vehicle → Store Raw → IngestOutcome × Store Raw
  ingest_one id raw now vehicles s =
      if is_unsupported raw
      then quarantine_raw id raw RejectionReason.schema_version_unsupported
          (k.contract.describe_version raw) s
      else ingest_parsed id raw (k.contract.validate_envelope raw) now vehicles s

  -- The loop of `ingest_batch`; each event comes with the identifier that is drawn for it.
  abbrev pub ingest_all :
      List (ℕ × Raw) → Time → List Vehicle → Store Raw → List IngestOutcome × Store Raw
  ingest_all [] now vehicles s = ([], s)
  ingest_all ((id, raw) ∷ events) now vehicles s =
      let (outcome, s') = ingest_one id raw now vehicles s in
      let (outcomes, s'') = ingest_all events now vehicles s' in (outcome ∷ outcomes, s'')

abbrev pub is_accepted : IngestOutcome → Bool
is_accepted o = elim o.status [ Verdict.accepted ↦ true | _ ↦ false ]

abbrev pub is_duplicate : IngestOutcome → Bool
is_duplicate o = elim o.status [ Verdict.duplicate ↦ true | _ ↦ false ]

abbrev pub is_quarantined : IngestOutcome → Bool
is_quarantined o = elim o.status [ Verdict.quarantined ↦ true | _ ↦ false ]

pub record BatchResult : Type 0 where
  pub accepted : ℕ
  pub duplicates : ℕ
  pub quarantined : ℕ
  pub outcomes : List IngestOutcome

-- The counters of the batch.
abbrev pub tally : List IngestOutcome → BatchResult
tally outcomes = record {
  accepted = count is_accepted outcomes;
  duplicates = count is_duplicate outcomes;
  quarantined = count is_quarantined outcomes;
  outcomes = outcomes;
}

-- The counters of the source.
unfoldable pub record_health : BatchResult → Time → DataSource → DataSource
record_health r now source = record source {
  accepted_count = source.accepted_count + r.accepted;
  rejected_count = source.rejected_count + r.quarantined;
  duplicate_count = source.duplicate_count + r.duplicates;
  last_event_at = some now;
  last_success_at = if r.accepted == 0 then source.last_success_at else some now;
}

unfoldable pub ingest_batch :
    {Raw : Type 0}
    → Intake Raw
    → List (ℕ × Raw)
    → Time
    → Store Raw
    → BatchResult × DataSource × Store Raw
ingest_batch k events now s =
    let (outcomes, s') = ingest_all k events now s.vehicles s in
    (tally outcomes, record_health (tally outcomes) now k.data_source, s')
