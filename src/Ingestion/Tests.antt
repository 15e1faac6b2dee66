-- ===== src/Ingestion/Tests.antt =====
-- Runs of the ingestion of events. A raw event is its number: 0 fails validation, the others are
-- events under their number.
use visi_on_route.Prelude.{
  List, [], arith, count, days, if◌then◌else◌, inl, inr, length, none, refl, ℕ, ◌+◌, ◌==◌, ◌∷◌, ◌≡◌,
}
use visi_on_route.Ingestion.Defs.{
  Store, EventEnvelope, EventType, Contract, check_timestamp, store_accepted, store_quarantine,
  insert_event,
}
use visi_on_route.Ingestion.Batch.{
  Intake, ingest_batch, ingest_one, ingest_parsed, ingest_valid, ingest_timed, ingest_checked,
}
use visi_on_route.Ingestion.Dedup.{IsDeduplicated, is_accepted_row}
use visi_on_route.Ingestion.Laws.{
  ingest_batch-IsDeduplicated, ingest_batch-accounts, ingest_batch-replay,
}

abbrev envelope : ℕ → EventEnvelope
envelope n = record {
  source = "telematics";
  event_id = if n == 1 then "first" else "second";
  event_type = EventType.trip_start;
  occurred_at = days 10;
  vehicle_external_id = if n == 3 then "34 XYZ 99" else "34 ABC 01";
}

abbrev contract : Contract ℕ
contract = record {
  event_id_text = λ n. if n == 0 then "" else "first";
  schema_version_text = λ n. "1.0";
  describe_version = λ n. "";
  validate_envelope = λ n. if n == 0 then inl "event_id: missing" else inr (envelope n);
  validate_payload = λ n. none;
  model_dump = λ e. 0;
  time_text = λ t. "";
}

abbrev intake : Intake ℕ
intake = record {
  contract = contract;
  text = record { strip = λ s. s; prefix = λ n s. s };
  tenant_id = 1;
  data_source = record {
    id = 1;
    source_key = "telematics";
    accepted_count = 0;
    rejected_count = 0;
    duplicate_count = 0;
    last_event_at = none;
    last_success_at = none;
  };
}

abbrev inbox : Store ℕ
inbox = record {
  events = [];
  outbox = [];
  vehicles = record { organization_id = 1; external_id = "34 ABC 01" } ∷ [];
}

-- An event, the same event, one that fails validation, and one of an unknown vehicle.
abbrev batch : List (ℕ × ℕ)
batch = (1, 1) ∷ (2, 1) ∷ (3, 0) ∷ (4, 3) ∷ []

batch_runs : (ingest_batch intake batch (days 10) inbox).0.accepted ≡ 1
unfolding ingest_batch ingest_one ingest_parsed ingest_valid ingest_timed ingest_checked
    check_timestamp store_accepted store_quarantine insert_event
batch_runs = refl

ingest_batch-IsDeduplicated_example : IsDeduplicated (ingest_batch intake batch (days 10) inbox).2
ingest_batch-IsDeduplicated_example =
    ingest_batch-IsDeduplicated intake batch (days 10) inbox (λ o a b. omega arith)

ingest_batch-accounts_example :
    let (r, source, s') = ingest_batch intake batch (days 10) inbox in
    (r.accepted + r.duplicates + r.quarantined ≡ 4)
    × ((source.accepted_count + source.duplicate_count + source.rejected_count ≡ 0 + 0 + 0 + 4)
        × ((length s'.outbox ≡ r.accepted + 0)
            × (count is_accepted_row s'.events ≡ r.accepted + 0)))
ingest_batch-accounts_example = ingest_batch-accounts intake batch (days 10) inbox

ingest_batch-replay_example :
    let s' = (ingest_batch intake batch (days 10) inbox).2 in
    let again = ingest_batch intake batch (days 11) (record s' { vehicles = [] }) in
    (again.0.accepted ≡ 0) × (length again.2.outbox ≡ length s'.outbox)
ingest_batch-replay_example = ingest_batch-replay intake batch (days 10) (days 11) [] inbox
