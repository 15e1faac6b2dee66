-- ===== src/Safety/Tests.antt =====
-- Runs of the safety engine on a few points.
use visi_on_route.Prelude.{
  [], arith, count, if◌then◌else◌, leb, length, ltb, max, min, minutes, none, refl, seconds, some,
  ℕ, ◌*◌, ◌+◌, ◌-◌, ◌/◌, ◌==◌, ◌^◌, ◌∷◌, ◌≡◌, ◌≤◌,
}
use visi_on_route.Tx.{request}
use visi_on_route.Safety.Rules.{
  Numbers, SafetyEventType, Thresholds, TelemetrySample, RuleHit, evaluate_point,
  default_thresholds, hits_of,
}
use visi_on_route.Safety.Engine.{Store, same_type, evaluate, persist, insert_event}
use visi_on_route.Safety.Spacing.{Point, IsValid, evaluate_all, evaluate_all-IsValid}
use visi_on_route.Safety.Counting.{IsCountedIn, evaluate-IsCountedIn}
use visi_on_route.Safety.Kinds.{evaluate_point-kinds}

-- Thousandths, counted from -1000
abbrev thousandths : Numbers ℕ
thousandths = record {
  decimal = λ n k. 1000000 + (n * 1000) / 10 ^ k;
  le = λ a b. leb a b;
  lt = λ a b. ltb a b;
  neg = λ a. 2000000 - a;
  abs = λ a. max a (2000000 - a);
  div =
      λ a b. if b == 1000000 then none else some (1000000 + ((a - 1000000) * 1000) / (b - 1000000));
  least = λ a b. min a b;
  most = λ a b. max a b;
  round = λ a k. a;
}

-- A hard brake at 140 km/h
abbrev brake : TelemetrySample ℕ
brake = record {
  speed_kph = some 1140000;
  acceleration_ms2 = some 992000;
  lateral_acceleration_ms2 = none;
  quality = 1001000;
}

abbrev limits : Thresholds ℕ
limits = default_thresholds thousandths

abbrev point : ℕ → Point ℕ
point n = record {
  context = record {
    organization_id = 1;
    vehicle_id = 2;
    driver_id = none;
    trip_id = none;
    occurred_at = minutes 10 + seconds (20 * n);
  };
  sample = brake;
  thresholds = limits;
  new_ids = λ k. if same_type k SafetyEventType.speeding then 10 + n else 20 + n;
}

abbrev nothing : Store ℕ
nothing = record { events = []; evidence = []; outbox = [] }

nothing-IsValid : IsValid nothing
nothing-IsValid = record { spacing = tt; evidence = refl; outbox = refl }

evaluate_all-IsValid_example :
    IsValid (evaluate_all thousandths (λ t. t / 1000) (point 1 ∷ point 2 ∷ point 4 ∷ []) nothing)
evaluate_all-IsValid_example =
    evaluate_all-IsValid thousandths (λ t. t / 1000) (point 1 ∷ point 2 ∷ point 4 ∷ []) nothing
      nothing-IsValid

evaluate-IsCountedIn_example :
    IsCountedIn thousandths
      (λ t. t / 1000)
      (point 1)
      nothing
      (length (hits_of (evaluate_point thousandths brake limits)))
      (request
        (evaluate thousandths (λ t. t / 1000) (point 1).context brake limits (point 1).new_ids)
        nothing).1
unfolding evaluate evaluate_point persist insert_event
evaluate-IsCountedIn_example =
    evaluate-IsCountedIn thousandths (λ t. t / 1000) (point 1) nothing (21 ∷ 11 ∷ [])
      (λ k. omega arith) refl

evaluate_point-kinds_example :
    (count
        (λ (h : RuleHit ℕ). same_type h.event_type SafetyEventType.speeding)
        (hits_of (evaluate_point thousandths brake limits))
      ≤ 1)
    × (count
          (λ (h : RuleHit ℕ). same_type h.event_type SafetyEventType.gps_anomaly)
          (hits_of (evaluate_point thousandths brake limits))
        ≡ 0)
evaluate_point-kinds_example =
    evaluate_point-kinds thousandths brake limits SafetyEventType.speeding
