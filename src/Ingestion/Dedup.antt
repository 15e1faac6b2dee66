-- ===== src/Ingestion/Dedup.antt =====
-- Deduplication: the inbox has one row for each natural key, and grows only.
use visi_on_route.Prelude.{
  Bool, String, any-false, arith, count, false, one_if, subst, true, ℕ, ◌+◌, ◌≡◌, ◌≤◌,
}
use visi_on_route.Ingestion.Defs.{IngestStatus, Store, IngestEvent, has_key, insert_event, is_known}
use text.Mathlib.TextEquality.{eq_iff}
use text.Mathlib.TextPositions.{eq_refl}

module _ {Raw : Type 0} where
  abbrev pub is_accepted_row : IngestEvent Raw → Bool
  is_accepted_row x = elim x.status [ IngestStatus.accepted ↦ true | _ ↦ false ]

  -- One row for each organization, source and event identifier.
  abbrev pub IsDeduplicated : Store Raw → Type 0
  IsDeduplicated s =
      (organization_id : ℕ) (source event_id : String)
      → count (has_key organization_id source event_id) s.events ≤ 1

  same_key :
      (o : ℕ) (a b : String) (x : IngestEvent Raw)
      → has_key o a b x ≡ true
      → (x.organization_id ≡ o) × ((x.source ≡ a) × (x.external_event_id ≡ b))
  same_key o a b x h = (
    ground arith,
    ((eq_iff x.source a).0 (ground arith), (eq_iff x.external_event_id b).0 (ground arith)),
  )

  own_key : (x : IngestEvent Raw) → has_key x.organization_id x.source x.external_event_id x ≡ true
  own_key x = ground (arith, eq_refl x.source, eq_refl x.external_event_id)

  key_free :
      (o : ℕ) (a b : String) (x : IngestEvent Raw) (s : Store Raw)
      → is_known x.organization_id x.source x.external_event_id s ≡ false
      → has_key o a b x ≡ true
      → count (has_key o a b) s.events ≡ 0
  key_free o a b x s free h =
      subst (λ n. count (has_key n a b) s.events ≡ 0) same.0
        (subst (λ t. count (has_key x.organization_id t b) s.events ≡ 0) same.1.0
          (subst (λ t. count (has_key x.organization_id x.source t) s.events ≡ 0) same.1.1
            (any-false (has_key x.organization_id x.source x.external_event_id) s.events free)))
    where
      same : (x.organization_id ≡ o) × ((x.source ≡ a) × (x.external_event_id ≡ b))
      same = same_key o a b x h

  pub insert_event-IsDeduplicated :
      (x : IngestEvent Raw) (s : Store Raw) → IsDeduplicated s → IsDeduplicated (insert_event x s)
  unfolding insert_event
  insert_event-IsDeduplicated x s u o a b = ground (arith, u o a b, key_free o a b x s)

  -- What is stored stays known, and what is inserted is known.
  pub insert_event-keeps_known :
      (x : IngestEvent Raw) (s : Store Raw) (o : ℕ) (a b : String)
      → is_known o a b s ≡ true
      → is_known o a b (insert_event x s) ≡ true
  unfolding insert_event
  insert_event-keeps_known x s o a b h = ground arith

  pub insert_event-known :
      (x : IngestEvent Raw) (s : Store Raw)
      → is_known x.organization_id x.source x.external_event_id (insert_event x s) ≡ true
  unfolding insert_event
  insert_event-known x s = ground (arith, own_key x)

  pub insert_event-outbox :
      (x : IngestEvent Raw) (s : Store Raw) → (insert_event x s).outbox ≡ s.outbox
  unfolding insert_event
  insert_event-outbox x s = ground arith

  -- A new row is counted by its status, and a known one changes nothing.
  pub insert_event-accepted :
      (x : IngestEvent Raw) (s : Store Raw)
      → is_known x.organization_id x.source x.external_event_id s ≡ false
      → count is_accepted_row (insert_event x s).events
        ≡ one_if (is_accepted_row x) + count is_accepted_row s.events
  unfolding insert_event
  insert_event-accepted x s h = ground arith

  pub insert_event-other :
      (x : IngestEvent Raw) (s : Store Raw)
      → is_accepted_row x ≡ false
      → count is_accepted_row (insert_event x s).events ≡ count is_accepted_row s.events
  unfolding insert_event
  insert_event-other x s h = ground arith
