-- ===== src/Safety/Rules.antt =====
-- domain/safety.py, for any numbers: Python's floating-point arithmetic is an argument. The Turkish
-- explanation of a hit is not kept.
use visi_on_route.Prelude.{Bool, List, Option, [], if◌then◌else◌, none, on_some, some, ℕ, ◌++◌, ◌∷◌}

-- The arithmetic that the rules use; `decimal n k` is n / 10^k.
pub record Numbers (F : Type 0) : Type 0 where
  pub decimal : ℕ → ℕ → F
  pub le : F → F → Bool
  pub lt : F → F → Bool
  pub neg : F → F
  pub abs : F → F
  -- Nothing where Python raises `ZeroDivisionError`
  pub div : F → F → Option F
  pub least : F → F → F
  pub most : F → F → F
  pub round : F → ℕ → F

pub data SafetyEventType : Type 0 where
  harsh_braking harsh_acceleration harsh_cornering speeding gps_anomaly : SafetyEventType

pub data Severity : Type 0 where
  low medium high critical : Severity

pub record Thresholds (F : Type 0) : Type 0 where
  pub harsh_braking_ms2 : F
  pub harsh_acceleration_ms2 : F
  pub harsh_cornering_ms2 : F
  pub speeding_kph : F
  pub sustained_speeding_kph : F

pub record TelemetrySample (F : Type 0) : Type 0 where
  pub speed_kph : Option F
  pub acceleration_ms2 : Option F
  pub lateral_acceleration_ms2 : Option F
  pub quality : F

pub record RuleHit (F : Type 0) : Type 0 where
  pub event_type : SafetyEventType
  pub severity : Severity
  pub confidence : F
  pub measured_value : F
  pub threshold : F
  pub needs_review : Bool
  pub ratio : Option F

module _ {F : Type 0} (num : Numbers F) where
  abbrev pub default_thresholds : Thresholds F
  default_thresholds = record {
    harsh_braking_ms2 = num.decimal 35 1;
    harsh_acceleration_ms2 = num.decimal 30 1;
    harsh_cornering_ms2 = num.decimal 40 1;
    speeding_kph = num.decimal 1200 1;
    sustained_speeding_kph = num.decimal 1300 1;
  }

  -- `_magnitude_severity`
  abbrev pub magnitude_severity : F → Severity
  magnitude_severity ratio =
      if num.le (num.decimal 20 1) ratio
      then Severity.critical
      else if num.le (num.decimal 16 1) ratio
      then Severity.high
      else if num.le (num.decimal 125 2) ratio
      then Severity.medium
      else Severity.low

  -- `_confidence`
  abbrev pub confidence : F → F
  confidence quality =
      num.round (num.most (num.decimal 3 1) (num.least (num.decimal 10 1) quality)) 3

  -- The hit of a rule on the size of a value, beyond its threshold, under their ratio
  abbrev pub magnitude_hit : SafetyEventType → TelemetrySample F → F → F → F → RuleHit F
  magnitude_hit kind sample threshold magnitude ratio = record {
    event_type = kind;
    severity = magnitude_severity ratio;
    confidence = confidence sample.quality;
    measured_value = num.round magnitude 2;
    threshold = threshold;
    needs_review = num.lt sample.quality (num.decimal 6 1);
    ratio = none;
  }

  -- What a rule appends, by the ratio of its value and its threshold; nothing where that raises
  abbrev pub append_hit : (F → RuleHit F) → Option F → Option (List (RuleHit F))
  append_hit hit ratio = on_some (λ r. hit r ∷ []) ratio

  abbrev pub braking_hits : TelemetrySample F → Thresholds F → Option F → Option (List (RuleHit F))
  braking_hits sample t none = some []
  braking_hits sample t (some a) =
      if num.le a (num.neg t.harsh_braking_ms2)
      then append_hit
          (magnitude_hit SafetyEventType.harsh_braking sample t.harsh_braking_ms2 (num.abs a))
          (num.div (num.abs a) t.harsh_braking_ms2)
      else some []

  abbrev pub acceleration_hits :
      TelemetrySample F → Thresholds F → Option F → Option (List (RuleHit F))
  acceleration_hits sample t none = some []
  acceleration_hits sample t (some a) =
      if num.le t.harsh_acceleration_ms2 a
      then append_hit
          (magnitude_hit SafetyEventType.harsh_acceleration sample t.harsh_acceleration_ms2 a)
          (num.div a t.harsh_acceleration_ms2)
      else some []

  abbrev pub cornering_hits :
      TelemetrySample F → Thresholds F → Option F → Option (List (RuleHit F))
  cornering_hits sample t none = some []
  cornering_hits sample t (some a) =
      if num.le t.harsh_cornering_ms2 (num.abs a)
      then append_hit
          (magnitude_hit SafetyEventType.harsh_cornering sample t.harsh_cornering_ms2 (num.abs a))
          (num.div (num.abs a) t.harsh_cornering_ms2)
      else some []

  abbrev pub speeding_hit : TelemetrySample F → Thresholds F → F → F → RuleHit F
  speeding_hit sample t speed ratio = record {
    event_type = SafetyEventType.speeding;
    severity = if num.le t.sustained_speeding_kph speed then Severity.high else Severity.medium;
    confidence = confidence sample.quality;
    measured_value = num.round speed 1;
    threshold = t.speeding_kph;
    needs_review = num.lt sample.quality (num.decimal 6 1);
    ratio = some (num.round ratio 2);
  }

  abbrev pub speeding_hits : TelemetrySample F → Thresholds F → Option F → Option (List (RuleHit F))
  speeding_hits sample t none = some []
  speeding_hits sample t (some speed) =
      if num.lt t.speeding_kph speed
      then append_hit (speeding_hit sample t speed) (num.div speed t.speeding_kph)
      else some []

  abbrev pub then_hits :
      Option (List (RuleHit F)) → Option (List (RuleHit F)) → Option (List (RuleHit F))
  then_hits none more = none
  then_hits (some hits) more = on_some (λ rest. hits ++ rest) more

  -- Nothing where a division by a threshold of zero raises
  unfoldable pub evaluate_point : TelemetrySample F → Thresholds F → Option (List (RuleHit F))
  evaluate_point sample t = then_hits (braking_hits sample t sample.acceleration_ms2) (
      then_hits (acceleration_hits sample t sample.acceleration_ms2) (
        then_hits (cornering_hits sample t sample.lateral_acceleration_ms2)
          (speeding_hits sample t sample.speed_kph)))

-- The hits of an evaluation, none where it raised
abbrev pub hits_of : {F : Type 0} → Option (List (RuleHit F)) → List (RuleHit F)
hits_of none = []
hits_of (some hits) = hits
