-- ===== src/Safety/Kinds.antt =====
-- The hits of one point are of different kinds.
use visi_on_route.Prelude.{arith, count, ◌≡◌, ◌≤◌}
use visi_on_route.Safety.Rules.{
  Numbers, SafetyEventType, Thresholds, TelemetrySample, RuleHit, evaluate_point, hits_of,
}
use visi_on_route.Safety.Engine.{same_type}

module _ {F : Type 0} (num : Numbers F) (sample : TelemetrySample F) (t : Thresholds F) where
  -- One point of telemetry gives at most one hit of each type, whatever its numbers and thresholds
  -- are, and never a GPS anomaly; one whose evaluation raises gives none.
  pub evaluate_point-kinds :
      (k : SafetyEventType)
      → (count (λ (h : RuleHit F). same_type h.event_type k) (hits_of (evaluate_point num sample t))
          ≤ 1)
        × (count
              (λ (h : RuleHit F). same_type h.event_type SafetyEventType.gps_anomaly)
              (hits_of (evaluate_point num sample t))
            ≡ 0)
  unfolding evaluate_point
  evaluate_point-kinds SafetyEventType.harsh_braking = (ground arith, ground arith)
  evaluate_point-kinds SafetyEventType.harsh_acceleration = (ground arith, ground arith)
  evaluate_point-kinds SafetyEventType.harsh_cornering = (ground arith, ground arith)
  evaluate_point-kinds SafetyEventType.speeding = (ground arith, ground arith)
  evaluate_point-kinds SafetyEventType.gps_anomaly = (ground arith, ground arith)
