-- ===== src/Safety/Engine.antt =====
-- application/safety/engine.py: what becomes of the hits of a point. The lock that serializes the
-- writers of a vehicle and a type is the order of the calls. An event keeps what the rules and the
-- deduplication decide; a row of evidence or of the outbox, the event that it belongs to.
use visi_on_route.Prelude.{
  Bool, List, Option, Time, [], any, false, find, if◌then◌else◌, leb, none, not, seconds, select,
  some, true, update_where, ℕ, ◌&&◌, ◌+◌, ◌-◌, ◌==◌, ◌∷◌,
}
use visi_on_route.Tx.{Action, ◌>>=◌, ◌>>◌, gets, raise_unless, Error, modify, pure, or_raise}
use visi_on_route.Safety.Rules.{
  Numbers, SafetyEventType, Severity, Thresholds, TelemetrySample, RuleHit, evaluate_point,
}

pub record SafetyEvent (F : Type 0) : Type 0 where
  pub id : ℕ
  pub organization_id : ℕ
  pub vehicle_id : ℕ
  pub driver_id : Option ℕ
  pub trip_id : Option ℕ
  pub event_type : SafetyEventType
  pub severity : Severity
  pub confidence : F
  pub occurred_at : Time
  pub measured_value : F
  pub threshold : F
  pub data_quality : F
  pub needs_review : Bool
  pub occurrence_count : ℕ

pub record PointContext : Type 0 where
  pub organization_id : ℕ
  pub vehicle_id : ℕ
  pub driver_id : Option ℕ
  pub trip_id : Option ℕ
  pub occurred_at : Time

pub record Store (F : Type 0) : Type 0 where
  pub events : List (SafetyEvent F)
  pub evidence : List ℕ
  pub outbox : List ℕ

abbrev pub same_type : SafetyEventType → SafetyEventType → Bool
same_type SafetyEventType.harsh_braking SafetyEventType.harsh_braking = true
same_type SafetyEventType.harsh_acceleration SafetyEventType.harsh_acceleration = true
same_type SafetyEventType.harsh_cornering SafetyEventType.harsh_cornering = true
same_type SafetyEventType.speeding SafetyEventType.speeding = true
same_type SafetyEventType.gps_anomaly SafetyEventType.gps_anomaly = true
same_type _ _ = false

-- `_DEDUP_WINDOW`
abbrev pub dedup_window : Time
dedup_window = seconds 30

module _ {F : Type 0} where
  -- The window of an instant; subtraction on ℕ stops at 0, before which there is no moment
  abbrev pub is_near : ℕ → ℕ → SafetyEventType → Time → SafetyEvent F → Bool
  is_near org vehicle kind at x =
      (x.organization_id == org)
      && ((x.vehicle_id == vehicle)
          && (same_type x.event_type kind
              && (leb (at - dedup_window) x.occurred_at && leb x.occurred_at (at + dedup_window))))

  -- `order_by(occurred_at)`, `limit(1)`
  abbrev pub earlier : SafetyEvent F → Option (SafetyEvent F) → SafetyEvent F
  earlier x none = x
  earlier x (some y) = if leb x.occurred_at y.occurred_at then x else y

  abbrev pub earliest : List (SafetyEvent F) → Option (SafetyEvent F)
  earliest [] = none
  earliest (x ∷ xs) = some (earlier x (earliest xs))

  abbrev pub existing_event : PointContext → SafetyEventType → Store F → Option (SafetyEvent F)
  existing_event ctx kind s =
      earliest (select (is_near ctx.organization_id ctx.vehicle_id kind ctx.occurred_at) s.events)

  abbrev pub count_again : SafetyEvent F → SafetyEvent F
  count_again x = record x { occurrence_count = x.occurrence_count + 1 }

  abbrev pub bump : ℕ → Store F → Store F
  bump k s = record s {
    events = update_where (λ (x : SafetyEvent F). x.id == k) count_again s.events;
  }

  abbrev pub new_event : PointContext → RuleHit F → TelemetrySample F → ℕ → SafetyEvent F
  new_event ctx hit sample new_id = record {
    id = new_id;
    organization_id = ctx.organization_id;
    vehicle_id = ctx.vehicle_id;
    driver_id = ctx.driver_id;
    trip_id = ctx.trip_id;
    event_type = hit.event_type;
    severity = hit.severity;
    confidence = hit.confidence;
    occurred_at = ctx.occurred_at;
    measured_value = hit.measured_value;
    threshold = hit.threshold;
    data_quality = sample.quality;
    needs_review = hit.needs_review;
    occurrence_count = 1;
  }

  -- The row that has the dedup key of a new event: its vehicle, type and millisecond
  abbrev pub clashing : (Time → ℕ) → SafetyEvent F → Store F → Option (SafetyEvent F)
  clashing milliseconds n s =
      find
        (λ (x : SafetyEvent F).
          (x.organization_id == n.organization_id)
          && ((x.vehicle_id == n.vehicle_id)
              && (same_type x.event_type n.event_type
                  && (milliseconds x.occurred_at == milliseconds n.occurred_at))))
        s.events

  -- The event, its evidence, and its notification
  abbrev pub add_event : SafetyEvent F → Store F → Store F
  add_event n s = record {
    events = n ∷ s.events;
    evidence = n.id ∷ s.evidence;
    outbox = n.id ∷ s.outbox;
  }

  abbrev pub is_taken : SafetyEvent F → Store F → Bool
  is_taken n s = any (λ (x : SafetyEvent F). x.id == n.id) s.events

  abbrev pub count_on : ℕ → Action (Store F) ℕ
  count_on k = modify (bump k) >> pure k

  unfoldable pub insert_event : SafetyEvent F → Action (Store F) ℕ
  insert_event n = do
    taken ← gets (is_taken n)
    raise_unless (not taken) Error.integrity_error
    modify (add_event n)
    pure n.id

  -- `on_conflict_do_update`
  abbrev pub upsert : SafetyEvent F → Option (SafetyEvent F) → Action (Store F) ℕ
  upsert n (some x) = count_on x.id
  upsert n none = insert_event n

  abbrev pub place : (Time → ℕ) → SafetyEvent F → Option (SafetyEvent F) → Action (Store F) ℕ
  place milliseconds n (some x) = count_on x.id
  place milliseconds n none = gets (clashing milliseconds n) >>= upsert n

  -- `_persist`
  unfoldable pub persist :
      (Time → ℕ) → PointContext → RuleHit F → TelemetrySample F → ℕ → Action (Store F) ℕ
  persist milliseconds ctx hit sample new_id =
      gets (existing_event ctx hit.event_type)
      >>= place milliseconds (new_event ctx hit sample new_id)

  abbrev pub persist_each :
      (Time → ℕ)
      → PointContext
      → TelemetrySample F
      → (SafetyEventType → ℕ)
      → List (RuleHit F)
      → Action (Store F) (List ℕ)
  persist_each milliseconds ctx sample new_ids [] = pure []
  persist_each milliseconds ctx sample new_ids (hit ∷ hits) =
      persist milliseconds ctx hit sample (new_ids hit.event_type) >>= λ k.
      persist_each milliseconds ctx sample new_ids hits >>= λ ks. pure (k ∷ ks)

  -- `evaluate`
  unfoldable pub evaluate :
      Numbers F
      → (Time → ℕ)
      → PointContext
      → TelemetrySample F
      → Thresholds F
      → (SafetyEventType → ℕ)
      → Action (Store F) (List ℕ)
  evaluate num milliseconds ctx sample thresholds new_ids =
      or_raise (evaluate_point num sample thresholds) Error.zero_division
      >>= persist_each milliseconds ctx sample new_ids
