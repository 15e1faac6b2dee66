-- ===== src/Ingestion/Defs.antt =====
-- domain/ingestion.py, application/ingestion/service.py and the rows of
-- infrastructure/db/models/ingestion.py. The validation of an event by the contract's models is
-- a library's, so a contract is an argument.
use visi_on_route.Prelude.{
  Bool, List, Option, String, TextMethods, Time, any, days, if◌then◌else◌, ltb, minutes, none,
  on_some, some, str_eq, ℕ, ◌&&◌, ◌+◌, ◌==◌, ◌∷◌, ◌⊎◌,
}

pub data RejectionReason : Type 0 where
  schema_version_unsupported invalid_payload timestamp_in_future : RejectionReason
  timestamp_too_old unknown_vehicle coordinates_out_of_range : RejectionReason

pub data EventType : Type 0 where
  telemetry_position trip_start trip_end device_status provider_event : EventType

-- `EventEnvelope`, as far as the service reads it
pub record EventEnvelope : Type 0 where
  pub source : String
  pub event_id : String
  pub event_type : EventType
  pub occurred_at : Time
  pub vehicle_external_id : String

-- What the validation of a payload reports: whether its text names a coordinate, and its summary.
pub record PayloadProblem : Type 0 where
  pub names_coordinate : Bool
  pub summary : String

-- The library's reading of a raw event.
pub record Contract (Raw : Type 0) : Type 0 where
  -- `str(raw.get("event_id", ""))` and `str(raw.get("schema_version", ""))`
  pub event_id_text : Raw → String
  pub schema_version_text : Raw → String
  -- `f"schema_version={schema_version}"`
  pub describe_version : Raw → String
  -- `EventEnvelope.model_validate`: the summary of its errors, or the envelope
  pub validate_envelope : Raw → String ⊎ EventEnvelope
  -- `TelemetryPayload.model_validate`
  pub validate_payload : Raw → Option PayloadProblem
  -- `envelope.model_dump(mode="json")`
  pub model_dump : EventEnvelope → Raw
  -- `str(envelope.occurred_at)`
  pub time_text : Time → String

pub data IngestStatus : Type 0 where
  accepted processing processed quarantined dead_letter : IngestStatus

pub record IngestEvent (Raw : Type 0) : Type 0 where
  pub id : ℕ
  pub organization_id : ℕ
  pub data_source_id : ℕ
  pub source : String
  pub external_event_id : String
  pub event_type : Option EventType
  pub vehicle_external_id : Option String
  pub occurred_at : Option Time
  pub envelope : Raw
  pub status : IngestStatus
  pub rejection_reason : Option RejectionReason
  pub detail : Option String

pub record DataSource : Type 0 where
  pub id : ℕ
  pub source_key : String
  pub accepted_count : ℕ
  pub rejected_count : ℕ
  pub duplicate_count : ℕ
  pub last_event_at : Option Time
  pub last_success_at : Option Time

pub record Vehicle : Type 0 where
  pub organization_id : ℕ
  pub external_id : String

-- The message that an accepted event publishes.
pub record OutboxMessage : Type 0 where
  pub aggregate_id : ℕ
  pub organization_id : ℕ
  pub event_type : EventType

pub record Store (Raw : Type 0) : Type 0 where
  pub events : List (IngestEvent Raw)
  pub outbox : List OutboxMessage
  pub vehicles : List Vehicle

pub data Verdict : Type 0 where
  accepted duplicate quarantined : Verdict

pub record IngestOutcome : Type 0 where
  pub event_id : String
  pub status : Verdict
  pub rejection_reason : Option RejectionReason
  pub detail : Option String

-- `check_timestamp`: five minutes of clock skew, three days of age. `occurred_at < now - age` is
-- written with a sum, since a moment is not negative.
unfoldable pub check_timestamp : Time → Time → Option RejectionReason
check_timestamp occurred_at now =
    if ltb (now + minutes 5) occurred_at
    then some RejectionReason.timestamp_in_future
    else if ltb (occurred_at + days 3) now
    then some RejectionReason.timestamp_too_old
    else none

abbrev pub is_schema_supported : String → Bool
is_schema_supported version = str_eq version "1.0"

-- What a quarantined row keeps of its envelope, where there is one.
abbrev pub source_of : DataSource → Option EventEnvelope → String
source_of source none = source.source_key
source_of source (some e) = e.source

module _ {Raw : Type 0} where
  -- The natural key of the unique constraint `uq_ingest_events_dedup`.
  abbrev pub has_key : ℕ → String → String → IngestEvent Raw → Bool
  has_key organization_id source event_id x =
      (x.organization_id == organization_id)
      && str_eq x.source source
      && str_eq x.external_event_id event_id

  abbrev pub is_known : ℕ → String → String → Store Raw → Bool
  is_known organization_id source event_id s =
      any (has_key organization_id source event_id) s.events

  -- `on_conflict_do_nothing`
  unfoldable pub insert_event : IngestEvent Raw → Store Raw → Store Raw
  insert_event x s =
      if is_known x.organization_id x.source x.external_event_id s
      then s
      else record s { events = x ∷ s.events }

  abbrev pub publish_event : OutboxMessage → Store Raw → Store Raw
  publish_event m s = record s { outbox = m ∷ s.outbox }

  abbrev pub accepted_event : ℕ → ℕ → DataSource → EventEnvelope → Raw → IngestEvent Raw
  accepted_event id tenant_id source e raw = record {
    id = id;
    organization_id = tenant_id;
    data_source_id = source.id;
    source = e.source;
    external_event_id = e.event_id;
    event_type = some e.event_type;
    vehicle_external_id = some e.vehicle_external_id;
    occurred_at = some e.occurred_at;
    envelope = raw;
    status = IngestStatus.accepted;
    rejection_reason = none;
    detail = none;
  }

  -- `_store_accepted`
  unfoldable pub store_accepted :
      ℕ → ℕ → DataSource → EventEnvelope → Raw → Store Raw → IngestOutcome × Store Raw
  store_accepted id tenant_id source e raw s =
      if is_known tenant_id e.source e.event_id s
      then (
        record {
          event_id = e.event_id;
          status = Verdict.duplicate;
          rejection_reason = none;
          detail = none;
        },
        s,
      )
      else (
        record {
          event_id = e.event_id;
          status = Verdict.accepted;
          rejection_reason = none;
          detail = none;
        },
        publish_event
            (record { aggregate_id = id; organization_id = tenant_id; event_type = e.event_type })
            (insert_event (accepted_event id tenant_id source e raw) s),
      )

  abbrev pub quarantined_event :
      TextMethods
      → ℕ
      → ℕ
      → DataSource
      → Raw
      → String
      → Option EventEnvelope
      → RejectionReason
      → String
      → IngestEvent Raw
  quarantined_event text id tenant_id source raw external_id e reason detail = record {
    id = id;
    organization_id = tenant_id;
    data_source_id = source.id;
    source = source_of source e;
    external_event_id = external_id;
    event_type = on_some (λ (v : EventEnvelope). v.event_type) e;
    vehicle_external_id = on_some (λ (v : EventEnvelope). v.vehicle_external_id) e;
    occurred_at = on_some (λ (v : EventEnvelope). v.occurred_at) e;
    envelope = raw;
    status = IngestStatus.quarantined;
    rejection_reason = some reason;
    detail = some (text.prefix 2000 detail);
  }

  -- `_store_quarantine`
  unfoldable pub store_quarantine :
      TextMethods
      → ℕ
      → ℕ
      → DataSource
      → Raw
      → String
      → Option EventEnvelope
      → RejectionReason
      → String
      → Store Raw
      → IngestOutcome × Store Raw
  store_quarantine text id tenant_id source raw external_id e reason detail s = (
    record {
      event_id = external_id;
      status = Verdict.quarantined;
      rejection_reason = some reason;
      detail = some detail;
    },
    insert_event (quarantined_event text id tenant_id source raw external_id e reason detail) s,
  )
