-- ===== src/Ingestion/Steps.antt =====
-- Every path of `ingest_one` ends in one of its two writes.
use visi_on_route.Prelude.{
  Bool-cases, List, Option, String, Time, arith, count, false, inl, inr, length, none, one_if, refl,
  some, true, ℕ, ◌+◌, ◌≡◌, ◌⊎◌,
}
use visi_on_route.Ingestion.Defs.{
  Store, IngestOutcome, store_accepted, store_quarantine, EventEnvelope, is_known, RejectionReason,
  PayloadProblem, Vehicle, check_timestamp, IngestEvent, accepted_event, quarantined_event,
}
use visi_on_route.Ingestion.Batch.{
  Intake, is_accepted, ingest_one, ingest_parsed, ingest_timed, ingest_valid, ingest_checked,
  is_duplicate, is_known_vehicle, is_quarantined, is_unsupported, raw_event_id, payload_problem,
  payload_reason, quarantine, quarantine_raw,
}
use visi_on_route.Ingestion.Dedup.{
  IsDeduplicated, is_accepted_row, insert_event-IsDeduplicated, insert_event-keeps_known,
  insert_event-outbox, insert_event-accepted, insert_event-other,
}

module _ {Raw : Type 0} (k : Intake Raw) (id : ℕ) (s : Store Raw)
    (Q : IngestOutcome × Store Raw → Type 0) (e : EventEnvelope)
    (accept : Q (store_accepted id k.tenant_id k.data_source e (k.contract.model_dump e) s))
    (refuse : (reason : RejectionReason) (detail : String)
      → Q (quarantine k id e reason detail s)) where
  timed-ends :
      (late : Option RejectionReason) (vehicles : List Vehicle)
      → Q (ingest_timed k id e late vehicles s)
  unfolding ingest_timed ingest_checked
  timed-ends none vehicles = elim (Bool-cases (is_known_vehicle k vehicles e.vehicle_external_id)) [
    | inl h ↦ rw h accept
    | inr h ↦ rw h (refuse RejectionReason.unknown_vehicle e.vehicle_external_id)
  ]
  timed-ends (some reason) vehicles = refuse reason (k.contract.time_text e.occurred_at)

  pub valid-ends :
      (o : Option PayloadProblem) (now : Time) (vehicles : List Vehicle)
      → Q (ingest_valid k id e o now vehicles s)
  unfolding ingest_valid
  valid-ends none now vehicles = timed-ends (check_timestamp e.occurred_at now) vehicles
  valid-ends (some p) now vehicles = refuse (payload_reason k p) p.summary

module _ {Raw : Type 0} (k : Intake Raw) (id : ℕ) (s : Store Raw)
    (Q : IngestOutcome × Store Raw → Type 0) (raw : Raw) (now : Time) (vehicles : List Vehicle)
    (refuse : (reason : RejectionReason) (detail : String)
      → is_unsupported k raw ≡ true
      → Q (quarantine_raw k id raw reason detail s))
    (parsed : (v : String ⊎ EventEnvelope)
      → is_unsupported k raw ≡ false
      → k.contract.validate_envelope raw ≡ v
      → Q (ingest_parsed k id raw v now vehicles s)) where
  pub ingest_one-ends : Q (ingest_one k id raw now vehicles s)
  unfolding ingest_one
  ingest_one-ends = elim (Bool-cases (is_unsupported k raw)) [
    | inl h ↦
        rw h (refuse RejectionReason.schema_version_unsupported (k.contract.describe_version raw) h)
    | inr h ↦ rw h (parsed (k.contract.validate_envelope raw) h refl)
  ]

-- What one event does to the inbox.
pub record IsStep {Raw : Type 0} (s : Store Raw) (r : IngestOutcome × Store Raw) : Type 0 where
  pub deduplicated : IsDeduplicated s → IsDeduplicated r.1
  pub grows : (o : ℕ) (a b : String) → is_known o a b s ≡ true → is_known o a b r.1 ≡ true
  pub published : length r.1.outbox ≡ one_if (is_accepted r.0) + length s.outbox
  pub stored :
      count is_accepted_row r.1.events ≡ one_if (is_accepted r.0) + count is_accepted_row s.events
  pub counted :
      one_if (is_accepted r.0) + one_if (is_duplicate r.0) + one_if (is_quarantined r.0) ≡ 1

module _ {Raw : Type 0} (k : Intake Raw) (id : ℕ) (s : Store Raw) where
  accept-IsStep :
      (e : EventEnvelope)
      → IsStep s (store_accepted id k.tenant_id k.data_source e (k.contract.model_dump e) s)
  unfolding store_accepted
  accept-IsStep e = elim (Bool-cases (is_known k.tenant_id e.source e.event_id s)) [
    | inl h ↦ rw h (record {
      deduplicated = λ u. u;
      grows = λ o a b g. g;
      published = omega arith;
      stored = omega arith;
      counted = refl;
    })
    | inr h ↦ rw h (record {
      deduplicated = insert_event-IsDeduplicated row s;
      grows = insert_event-keeps_known row s;
      published = ground (arith, insert_event-outbox row s);
      stored = insert_event-accepted row s h;
      counted = refl;
    })
  ]
    where
      row : IngestEvent Raw
      row = accepted_event id k.tenant_id k.data_source e (k.contract.model_dump e)

  refuse-IsStep :
      (raw : Raw) (external_id : String) (o : Option EventEnvelope) (reason : RejectionReason)
      (detail : String)
      → IsStep s
          (store_quarantine k.text id k.tenant_id k.data_source raw external_id o reason detail s)
  unfolding store_quarantine
  refuse-IsStep raw external_id o reason detail = record {
    deduplicated = insert_event-IsDeduplicated row s;
    grows = insert_event-keeps_known row s;
    published = ground (arith, insert_event-outbox row s);
    stored = omega (arith, insert_event-other row s refl);
    counted = refl;
  }
    where
      row : IngestEvent Raw
      row = quarantined_event k.text id k.tenant_id k.data_source raw external_id o reason detail

  parsed-IsStep :
      (raw : Raw) (v : String ⊎ EventEnvelope) (now : Time) (vehicles : List Vehicle)
      → IsStep s (ingest_parsed k id raw v now vehicles s)
  unfolding ingest_parsed
  parsed-IsStep raw (inl problem) now vehicles =
      refuse-IsStep raw (raw_event_id k raw) none RejectionReason.invalid_payload problem
  parsed-IsStep raw (inr e) now vehicles =
      valid-ends k id s (IsStep s) e (accept-IsStep e)
        (λ reason detail. refuse-IsStep (k.contract.model_dump e) e.event_id (some e) reason detail)
        (payload_problem k raw e) now vehicles

  pub ingest_one-IsStep :
      (raw : Raw) (now : Time) (vehicles : List Vehicle)
      → IsStep s (ingest_one k id raw now vehicles s)
  ingest_one-IsStep raw now vehicles =
      ingest_one-ends k id s (IsStep s) raw now vehicles
        (λ reason detail h. refuse-IsStep raw (raw_event_id k raw) none reason detail)
        (λ v h e. parsed-IsStep raw v now vehicles)
