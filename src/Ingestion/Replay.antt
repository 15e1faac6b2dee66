-- ===== src/Ingestion/Replay.antt =====
-- A batch of events, and the same batch once more.
use visi_on_route.Prelude.{
  List, String, Time, [], arith, count, length, refl, true, ℕ, ◌+◌, ◌∷◌, ◌≡◌,
}
use visi_on_route.Ingestion.Defs.{Store, Vehicle, is_known}
use visi_on_route.Ingestion.Batch.{
  Intake, ingest_all, ingest_one, is_accepted, is_duplicate, is_quarantined,
}
use visi_on_route.Ingestion.Dedup.{IsDeduplicated, is_accepted_row}
use visi_on_route.Ingestion.Steps.{ingest_one-IsStep}

module _ {Raw : Type 0} (k : Intake Raw) (now : Time) (vehicles : List Vehicle) where
  pub ingest_all-IsDeduplicated :
      (events : List (ℕ × Raw)) (s : Store Raw)
      → IsDeduplicated s
      → IsDeduplicated (ingest_all k events now vehicles s).1
  ingest_all-IsDeduplicated [] s u = u
  ingest_all-IsDeduplicated ((id, raw) ∷ events) s u =
      ingest_all-IsDeduplicated events (ingest_one k id raw now vehicles s).1
        ((ingest_one-IsStep k id s raw now vehicles).deduplicated u)

  pub ingest_all-grows :
      (events : List (ℕ × Raw)) (s : Store Raw) (o : ℕ) (a b : String)
      → is_known o a b s ≡ true
      → is_known o a b (ingest_all k events now vehicles s).1 ≡ true
  ingest_all-grows [] s o a b h = h
  ingest_all-grows ((id, raw) ∷ events) s o a b h =
      ingest_all-grows events (ingest_one k id raw now vehicles s).1 o a b
        ((ingest_one-IsStep k id s raw now vehicles).grows o a b h)

  pub ingest_all-published :
      (events : List (ℕ × Raw)) (s : Store Raw)
      → length (ingest_all k events now vehicles s).1.outbox
        ≡ count is_accepted (ingest_all k events now vehicles s).0 + length s.outbox
  ingest_all-published [] s = omega arith
  ingest_all-published ((id, raw) ∷ events) s = omega (
    arith,
    ingest_all-published events (ingest_one k id raw now vehicles s).1,
    (ingest_one-IsStep k id s raw now vehicles).published,
  )

  pub ingest_all-stored :
      (events : List (ℕ × Raw)) (s : Store Raw)
      → count is_accepted_row (ingest_all k events now vehicles s).1.events
        ≡ count is_accepted (ingest_all k events now vehicles s).0 + count is_accepted_row s.events
  ingest_all-stored [] s = omega arith
  ingest_all-stored ((id, raw) ∷ events) s = omega (
    arith,
    ingest_all-stored events (ingest_one k id raw now vehicles s).1,
    (ingest_one-IsStep k id s raw now vehicles).stored,
  )

  pub ingest_all-counted :
      (events : List (ℕ × Raw)) (s : Store Raw)
      → (let outcomes = (ingest_all k events now vehicles s).0 in
          count is_accepted outcomes + count is_duplicate outcomes + count is_quarantined outcomes)
        ≡ length events
  ingest_all-counted [] s = refl
  ingest_all-counted ((id, raw) ∷ events) s = omega (
    arith,
    ingest_all-counted events (ingest_one k id raw now vehicles s).1,
    (ingest_one-IsStep k id s raw now vehicles).counted,
  )
