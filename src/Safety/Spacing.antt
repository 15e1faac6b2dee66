-- ===== src/Safety/Spacing.antt =====
-- Events of one kind keep their distance, and have one piece of evidence each.
use visi_on_route.Prelude.{
  Bool, Bool-cases, List, Option, Time, [], any, ap, arith, false, if◌then◌else◌, inl, inr, leb,
  map, none, refl, seconds, select, some, sym, update_where, ℕ, ◌&&◌, ◌+◌, ◌-◌, ◌==◌, ◌∙◌, ◌∷◌, ◌≡◌,
}
use visi_on_route.Tx.{
  Tx, Keeps, Holds, Keeps-modify, Keeps-bind, modify, pure, Keeps-pure, ◌>>=◌, request,
  request-Keeps, or_raise, Error, Keeps-or_raise,
}
use visi_on_route.Safety.Rules.{
  SafetyEventType, TelemetrySample, RuleHit, Numbers, Thresholds, evaluate_point,
}
use visi_on_route.Safety.Engine.{
  Store, SafetyEvent, PointContext, is_near, existing_event, earliest, bump, count_again, new_event,
  clashing, add_event, insert_event, upsert, place, persist, persist_each, count_on, is_taken,
  evaluate, same_type,
}

window_start : (a b : Time) → leb (a - seconds 30) b ≡ leb a (b + seconds 30)
window_start a b = elim (Bool-cases (leb a (b + seconds 30))) [
  | inl e ↦ ground (arith, e)
  | inr e ↦ ground (arith, e)
]

module _ {F : Type 0} where
  -- The same type, vehicle and organization, and at most 30 seconds between them
  abbrev pub near : SafetyEvent F → SafetyEvent F → Bool
  near x y =
      (y.organization_id == x.organization_id)
      && ((y.vehicle_id == x.vehicle_id)
          && (same_type y.event_type x.event_type
              && (leb x.occurred_at (y.occurred_at + seconds 30)
                  && leb y.occurred_at (x.occurred_at + seconds 30))))

  -- No two events of a type, of one vehicle, lie within 30 seconds of each other.
  abbrev pub HasSpacing : List (SafetyEvent F) → Type 0
  HasSpacing [] = Unit {0}
  HasSpacing (x ∷ xs) = (any (near x) xs ≡ false) × HasSpacing xs

  -- Events keep their distance, and each has one piece of evidence and one notification.
  pub record IsValid (s : Store F) : Type 0 where
    pub spacing : HasSpacing s.events
    pub evidence : s.evidence ≡ map (λ (x : SafetyEvent F). x.id) s.events
    pub outbox : s.outbox ≡ map (λ (x : SafetyEvent F). x.id) s.events

  any-bumped :
      (k : ℕ) (x : SafetyEvent F) (xs : List (SafetyEvent F))
      → any (near x) (update_where (λ (y : SafetyEvent F). y.id == k) count_again xs)
        ≡ any (near x) xs
  any-bumped k x [] = refl
  any-bumped k x (y ∷ ys) = ground (arith, any-bumped k x ys)

  near-bumped :
      (k : ℕ) (x : SafetyEvent F) (xs : List (SafetyEvent F))
      → any (near (if x.id == k then count_again x else x)) xs ≡ any (near x) xs
  near-bumped k x xs = elim (Bool-cases (x.id == k)) [ inl e ↦ rw e refl | inr e ↦ rw e refl ]

  bumped-HasSpacing :
      (k : ℕ) (xs : List (SafetyEvent F))
      → HasSpacing xs
      → HasSpacing (update_where (λ (y : SafetyEvent F). y.id == k) count_again xs)
  bumped-HasSpacing k [] h = tt
  bumped-HasSpacing k (x ∷ xs) h = (
    near-bumped k x (update_where (λ (y : SafetyEvent F). y.id == k) count_again xs)
        ∙ any-bumped k x xs
        ∙ h.0,
    bumped-HasSpacing k xs h.1,
  )

  ids-bumped :
      (k : ℕ) (xs : List (SafetyEvent F))
      → map
          (λ (x : SafetyEvent F). x.id)
          (update_where (λ (y : SafetyEvent F). y.id == k) count_again xs)
        ≡ map (λ (x : SafetyEvent F). x.id) xs
  ids-bumped k [] = refl
  ids-bumped k (x ∷ xs) = elim (Bool-cases (x.id == k)) [
    | inl e ↦ rw e (ap (λ ys. x.id ∷ ys) (ids-bumped k xs))
    | inr e ↦ rw e (ap (λ ys. x.id ∷ ys) (ids-bumped k xs))
  ]

  bump-IsValid : (k : ℕ) (s : Store F) → IsValid s → IsValid (bump k s)
  bump-IsValid k s v = record {
    spacing = bumped-HasSpacing k s.events v.spacing;
    evidence = v.evidence ∙ sym (ids-bumped k s.events);
    outbox = v.outbox ∙ sym (ids-bumped k s.events);
  }

  -- No event in the window
  none_near :
      (p : SafetyEvent F → Bool) (xs : List (SafetyEvent F))
      → earliest (select p xs) ≡ none
      → any p xs ≡ false
  none_near p [] h = refl
  none_near p (x ∷ xs) h = elim (Bool-cases (p x)) [
    | inr e ↦ ground (arith, e, none_near p xs, h)
    | inl e ↦ ground (arith, e, h)
  ]

  -- The query of `_persist` finds the events that are near the new one.
  found_near :
      (n : SafetyEvent F) (xs : List (SafetyEvent F))
      → any (is_near n.organization_id n.vehicle_id n.event_type n.occurred_at) xs ≡ any (near n) xs
  found_near n [] = refl
  found_near n (x ∷ xs) = ground (arith, found_near n xs, window_start n.occurred_at x.occurred_at)

  add-IsValid :
      (n : SafetyEvent F) (s : Store F)
      → any (near n) s.events ≡ false
      → IsValid s
      → IsValid (add_event n s)
  add-IsValid n s apart v = record {
    spacing = (apart, v.spacing);
    evidence = ap (λ ks. n.id ∷ ks) v.evidence;
    outbox = ap (λ ks. n.id ∷ ks) v.outbox;
  }

  count_on-Keeps : (k : ℕ) → Keeps IsValid (count_on {F = F} k)
  count_on-Keeps k =
      Keeps-bind (modify (bump k)) (λ _. pure k) (Keeps-modify (bump k) (bump-IsValid k))
        (λ _. Keeps-pure k)

  insert-Holds :
      (n : SafetyEvent F) (tx : Tx (Store F))
      → any (near n) tx.current.events ≡ false
      → Holds IsValid tx
      → Holds IsValid (insert_event n tx).1
  unfolding insert_event
  insert-Holds n tx apart h = elim (Bool-cases (is_taken n tx.current)) [
    | inl e ↦ rw e h
    | inr e ↦
        rw e (record { durable = h.durable; current = add-IsValid n tx.current apart h.current })
  ]

  upsert-Holds :
      (n : SafetyEvent F) (o : Option (SafetyEvent F)) (tx : Tx (Store F))
      → any (near n) tx.current.events ≡ false
      → Holds IsValid tx
      → Holds IsValid (upsert n o tx).1
  upsert-Holds n none tx apart h = insert-Holds n tx apart h
  upsert-Holds n (some x) tx apart h = (count_on-Keeps x.id).at tx h

  place-Holds :
      (milliseconds : Time → ℕ) (n : SafetyEvent F) (o : Option (SafetyEvent F)) (tx : Tx (Store F))
      → (o ≡ none → any (near n) tx.current.events ≡ false)
      → Holds IsValid tx
      → Holds IsValid (place milliseconds n o tx).1
  place-Holds milliseconds n none tx apart h =
      upsert-Holds n (clashing milliseconds n tx.current) tx (apart refl) h
  place-Holds milliseconds n (some x) tx apart h = (count_on-Keeps x.id).at tx h

  module _ (milliseconds : Time → ℕ) (ctx : PointContext) (sample : TelemetrySample F) where
    persist-Keeps :
        (hit : RuleHit F) (new_id : ℕ) → Keeps IsValid (persist milliseconds ctx hit sample new_id)
    unfolding persist
    persist-Keeps hit new_id = record {
      at = λ tx h.
          place-Holds milliseconds (new_event ctx hit sample new_id)
            (existing_event ctx hit.event_type tx.current) tx
            (λ e.
              sym (found_near (new_event ctx hit sample new_id) tx.current.events)
              ∙ none_near
                  (is_near ctx.organization_id ctx.vehicle_id hit.event_type ctx.occurred_at)
                  tx.current.events e)
            h;
    }

    persist_each-Keeps :
        (new_ids : SafetyEventType → ℕ) (hits : List (RuleHit F))
        → Keeps IsValid (persist_each milliseconds ctx sample new_ids hits)
    persist_each-Keeps new_ids [] = Keeps-pure []
    persist_each-Keeps new_ids (hit ∷ hits) =
        Keeps-bind (persist milliseconds ctx hit sample (new_ids hit.event_type))
          (λ k. persist_each milliseconds ctx sample new_ids hits >>= λ ks. pure (k ∷ ks))
          (persist-Keeps hit (new_ids hit.event_type))
          (λ k.
            Keeps-bind (persist_each milliseconds ctx sample new_ids hits) (λ ks. pure (k ∷ ks))
              (persist_each-Keeps new_ids hits) (λ ks. Keeps-pure (k ∷ ks)))

-- One point of telemetry, with the identifiers drawn for its events
pub record Point (F : Type 0) : Type 0 where
  pub context : PointContext
  pub sample : TelemetrySample F
  pub thresholds : Thresholds F
  pub new_ids : SafetyEventType → ℕ

module _ {F : Type 0} (num : Numbers F) (milliseconds : Time → ℕ) where
  abbrev pub evaluate_all : List (Point F) → Store F → Store F
  evaluate_all [] s = s
  evaluate_all (p ∷ ps) s =
      evaluate_all ps
        (request (evaluate num milliseconds p.context p.sample p.thresholds p.new_ids) s).1

  evaluate-Keeps :
      (p : Point F)
      → Keeps IsValid (evaluate num milliseconds p.context p.sample p.thresholds p.new_ids)
  unfolding evaluate
  evaluate-Keeps p =
      Keeps-bind (or_raise (evaluate_point num p.sample p.thresholds) Error.zero_division)
        (persist_each milliseconds p.context p.sample p.new_ids)
        (Keeps-or_raise (evaluate_point num p.sample p.thresholds) Error.zero_division)
        (persist_each-Keeps milliseconds p.context p.sample p.new_ids)

  -- Whatever points are evaluated, in whatever order they arrive and with whatever thresholds, two
  -- safety events of one type and one vehicle of an organization are more than 30 seconds apart, and
  -- each event has exactly one piece of evidence and one notification, if this held before.
  pub evaluate_all-IsValid :
      (ps : List (Point F)) (s : Store F) → IsValid s → IsValid (evaluate_all ps s)
  evaluate_all-IsValid [] s v = v
  evaluate_all-IsValid (p ∷ ps) s v =
      evaluate_all-IsValid ps
        (request (evaluate num milliseconds p.context p.sample p.thresholds p.new_ids) s).1
        (request-Keeps {P = IsValid}
          (evaluate num milliseconds p.context p.sample p.thresholds p.new_ids) s (evaluate-Keeps p)
          v)
