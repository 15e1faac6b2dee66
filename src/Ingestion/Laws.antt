-- ===== src/Ingestion/Laws.antt =====
-- What a batch guarantees.
use visi_on_route.Prelude.{List, Time, arith, count, length, ℕ, ◌+◌, ◌∙◌, ◌≡◌}
use visi_on_route.Ingestion.Defs.{Store, Vehicle}
use visi_on_route.Ingestion.Batch.{Intake, ingest_batch, record_health, ingest_all, is_accepted}
use visi_on_route.Ingestion.Dedup.{IsDeduplicated, is_accepted_row}
use visi_on_route.Ingestion.Replay.{
  ingest_all-IsDeduplicated, ingest_all-counted, ingest_all-published, ingest_all-stored,
}
use visi_on_route.Ingestion.Again.{settled_refused, AreSettled-grows, all_settled}

-- A batch leaves at most one row for each organization, source and event identifier, if the inbox
-- had at most one before.
pub ingest_batch-IsDeduplicated :
    {Raw : Type 0} (k : Intake Raw) (events : List (ℕ × Raw)) (now : Time) (s : Store Raw)
    → IsDeduplicated s
    → IsDeduplicated (ingest_batch k events now s).2
unfolding ingest_batch
ingest_batch-IsDeduplicated k events now s u = ingest_all-IsDeduplicated k now s.vehicles events s u

-- A batch accounts for each of its events exactly once, in its answer and in the counters of the
-- data source; and it writes one accepted row and publishes one message for each event that it
-- accepts, and no other.
pub ingest_batch-accounts :
    {Raw : Type 0} (k : Intake Raw) (events : List (ℕ × Raw)) (now : Time) (s : Store Raw)
    → (let (r, source, s') = ingest_batch k events now s in
        (r.accepted + r.duplicates + r.quarantined ≡ length events)
        × ((source.accepted_count + source.duplicate_count + source.rejected_count
              ≡ k.data_source.accepted_count
                + k.data_source.duplicate_count
                + k.data_source.rejected_count
                + length events)
            × ((length s'.outbox ≡ r.accepted + length s.outbox)
                × (count is_accepted_row s'.events ≡ r.accepted + count is_accepted_row s.events))))
unfolding ingest_batch record_health
ingest_batch-accounts k events now s = (
  ingest_all-counted k now s.vehicles events s,
  (
    omega (arith, ingest_all-counted k now s.vehicles events s),
    (ingest_all-published k now s.vehicles events s, ingest_all-stored k now s.vehicles events s),
  ),
)

-- Sending a batch again accepts no event and publishes no message, at whatever later or earlier moment
-- and whichever vehicles have become known since.
pub ingest_batch-replay :
    {Raw : Type 0} (k : Intake Raw) (events : List (ℕ × Raw)) (now later : Time)
    (vehicles : List Vehicle) (s : Store Raw)
    → (let s' = (ingest_batch k events now s).2 in
        let again = ingest_batch k events later (record s' { vehicles = vehicles }) in
        (again.0.accepted ≡ 0) × (length again.2.outbox ≡ length s'.outbox))
unfolding ingest_batch
ingest_batch-replay {Raw} k events now later vehicles s =
    (refused, ingest_all-published k later vehicles events after ∙ ground (arith, refused))
  where
    s' : Store Raw
    s' = (ingest_all k events now s.vehicles s).1

    after : Store Raw
    after = record s' { vehicles = vehicles }

    refused : count is_accepted (ingest_all k events later vehicles after).0 ≡ 0
    refused =
        settled_refused k events later vehicles after (
          AreSettled-grows k events s' after (λ o a b h. h) (all_settled k events now s.vehicles s))
