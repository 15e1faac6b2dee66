-- ===== src/Ingestion/Again.antt =====
-- The same batch once more.
use visi_on_route.Prelude.{
  Bool-cases, List, String, Time, [], arith, count, false, inl, inr, refl, some, subst, sym, true,
  ℕ, ◌∷◌, ◌≡◌, ◌⊎◌,
}
use visi_on_route.Ingestion.Defs.{
  Store, EventEnvelope, Vehicle, is_known, store_accepted, store_quarantine, RejectionReason,
  accepted_event, quarantined_event,
}
use visi_on_route.Ingestion.Batch.{
  Intake, ingest_parsed, is_unsupported, ingest_one, payload_problem, quarantine, ingest_all,
  is_accepted,
}
use visi_on_route.Ingestion.Steps.{valid-ends, ingest_one-ends, ingest_one-IsStep}
use visi_on_route.Ingestion.Dedup.{insert_event-known}
use visi_on_route.Ingestion.Replay.{ingest_all-grows}

store_accepted-known :
    {Raw : Type 0} (k : Intake Raw) (id : ℕ) (e : EventEnvelope) (s : Store Raw)
    → is_known k.tenant_id e.source e.event_id s ≡ true
    → is_accepted (store_accepted id k.tenant_id k.data_source e (k.contract.model_dump e) s).0
      ≡ false
unfolding store_accepted
store_accepted-known k id e s h = rw h refl

module _ {Raw : Type 0} (k : Intake Raw) where
  -- The natural key of the event is in the inbox, if the event has one.
  abbrev pub HasRow : String ⊎ EventEnvelope → Store Raw → Type 0
  HasRow (inl problem) s = Unit {0}
  HasRow (inr e) s = is_known k.tenant_id e.source e.event_id s ≡ true

  abbrev pub IsSettled : Raw → Store Raw → Type 0
  IsSettled raw s = is_unsupported k raw ≡ false → HasRow (k.contract.validate_envelope raw) s

  abbrev pub AreSettled : List (ℕ × Raw) → Store Raw → Type 0
  AreSettled [] s = Unit {0}
  AreSettled ((id, raw) ∷ events) s = IsSettled raw s × AreSettled events s

  HasRow-grows :
      (v : String ⊎ EventEnvelope) (s s' : Store Raw)
      → ((o : ℕ) (a b : String) → is_known o a b s ≡ true → is_known o a b s' ≡ true)
      → HasRow v s
      → HasRow v s'
  HasRow-grows (inl problem) s s' g h = tt
  HasRow-grows (inr e) s s' g h = g k.tenant_id e.source e.event_id h

  pub AreSettled-grows :
      (events : List (ℕ × Raw)) (s s' : Store Raw)
      → ((o : ℕ) (a b : String) → is_known o a b s ≡ true → is_known o a b s' ≡ true)
      → AreSettled events s
      → AreSettled events s'
  AreSettled-grows [] s s' g h = tt
  AreSettled-grows ((id, raw) ∷ events) s s' g h = (
    λ u. HasRow-grows (k.contract.validate_envelope raw) s s' g (h.0 u),
    AreSettled-grows events s s' g h.1,
  )

  -- An event with a natural key is in the inbox afterwards.
  accept-known :
      (id : ℕ) (e : EventEnvelope) (s : Store Raw)
      → HasRow (inr e) (store_accepted id k.tenant_id k.data_source e (k.contract.model_dump e) s).1
  unfolding store_accepted
  accept-known id e s = elim (Bool-cases (is_known k.tenant_id e.source e.event_id s)) [
    | inl h ↦ rw h h
    | inr h ↦ rw h (
        insert_event-known (accepted_event id k.tenant_id k.data_source e (k.contract.model_dump e))
          s)
  ]

  refuse-known :
      (id : ℕ) (e : EventEnvelope) (s : Store Raw) (reason : RejectionReason) (detail : String)
      → HasRow (inr e) (quarantine k id e reason detail s).1
  unfolding store_quarantine
  refuse-known id e s reason detail =
      insert_event-known
        (quarantined_event k.text id k.tenant_id k.data_source (k.contract.model_dump e) e.event_id
          (some e) reason detail)
        s

  parsed-settles :
      (id : ℕ) (raw : Raw) (v : String ⊎ EventEnvelope) (now : Time) (vehicles : List Vehicle)
      (s : Store Raw)
      → HasRow v (ingest_parsed k id raw v now vehicles s).1
  unfolding ingest_parsed
  parsed-settles id raw (inl problem) now vehicles s = tt
  parsed-settles id raw (inr e) now vehicles s =
      valid-ends k id s (λ r. HasRow (inr e) r.1) e (accept-known id e s) (refuse-known id e s)
        (payload_problem k raw e) now vehicles

  ingest_one-settles :
      (id : ℕ) (raw : Raw) (now : Time) (vehicles : List Vehicle) (s : Store Raw)
      → IsSettled raw (ingest_one k id raw now vehicles s).1
  ingest_one-settles id raw now vehicles s =
      ingest_one-ends k id s (λ r. IsSettled raw r.1) raw now vehicles
        (λ reason detail u w. absurd (cc (u, w)))
        (λ v h e u.
          subst (λ w. HasRow w (ingest_parsed k id raw v now vehicles s).1) (sym e)
            (parsed-settles id raw v now vehicles s))

  -- An event whose natural key is in the inbox is not accepted.
  parsed-refused :
      (id : ℕ) (raw : Raw) (v : String ⊎ EventEnvelope) (now : Time) (vehicles : List Vehicle)
      (s : Store Raw)
      → HasRow v s
      → is_accepted (ingest_parsed k id raw v now vehicles s).0 ≡ false
  unfolding ingest_parsed store_quarantine
  parsed-refused id raw (inl problem) now vehicles s h = refl
  parsed-refused id raw (inr e) now vehicles s h =
      valid-ends k id s (λ r. is_accepted r.0 ≡ false) e known_refused (λ reason detail. refl)
        (payload_problem k raw e) now vehicles
    where
      known_refused :
          is_accepted (store_accepted id k.tenant_id k.data_source e (k.contract.model_dump e) s).0
          ≡ false
      known_refused = store_accepted-known k id e s h

  ingest_one-refused :
      (id : ℕ) (raw : Raw) (now : Time) (vehicles : List Vehicle) (s : Store Raw)
      → IsSettled raw s
      → is_accepted (ingest_one k id raw now vehicles s).0 ≡ false
  unfolding store_quarantine
  ingest_one-refused id raw now vehicles s h =
      ingest_one-ends k id s (λ r. is_accepted r.0 ≡ false) raw now vehicles
        (λ reason detail u. refl)
        (λ v u e. parsed-refused id raw v now vehicles s (subst (λ w. HasRow w s) e (h u)))

  pub settled_refused :
      (events : List (ℕ × Raw)) (now : Time) (vehicles : List Vehicle) (s : Store Raw)
      → AreSettled events s
      → count is_accepted (ingest_all k events now vehicles s).0 ≡ 0
  settled_refused [] now vehicles s h = refl
  settled_refused ((id, raw) ∷ events) now vehicles s h = ground (
    arith,
    ingest_one-refused id raw now vehicles s h.0,
    settled_refused events now vehicles (ingest_one k id raw now vehicles s).1 (
        AreSettled-grows events s (ingest_one k id raw now vehicles s).1
          (ingest_one-IsStep k id s raw now vehicles).grows h.1),
  )

  pub all_settled :
      (events : List (ℕ × Raw)) (now : Time) (vehicles : List Vehicle) (s : Store Raw)
      → AreSettled events (ingest_all k events now vehicles s).1
  all_settled [] now vehicles s = tt
  all_settled ((id, raw) ∷ events) now vehicles s = (
    (λ u.
        HasRow-grows (k.contract.validate_envelope raw) s' (ingest_all k events now vehicles s').1
          (ingest_all-grows k now vehicles events s') (ingest_one-settles id raw now vehicles s u)),
    all_settled events now vehicles s',
  )
    where
      s' : Store Raw
      s' = (ingest_one k id raw now vehicles s).1
