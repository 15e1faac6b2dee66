-- ===== src/Privacy/Purged.antt =====
-- What the purge of telemetry deletes.
use visi_on_route.Prelude.{
  Bool, Bool-cases, List, Time, [], arith, count, inl, inr, ltb, min, not, refl, select, suc, zero,
  ℕ, ◌&&◌, ◌*◌, ◌+◌, ◌-◌, ◌∷◌, ◌≡◌,
}
use visi_on_route.Privacy.Store.{TelemetryPoint}
use visi_on_route.Privacy.Purge.{
  drop_some, purge_batches, is_old_point, purge_points, batch_size, max_batches,
}

mul-suc : (a n : ℕ) → a * suc n ≡ a + a * n
mul-suc a n = omega arith

module _ (p : TelemetryPoint → Bool) where
  abbrev keep : List TelemetryPoint → List TelemetryPoint
  keep xs = select (λ x. not (p x)) xs

  drop-count : (n : ℕ) (xs : List TelemetryPoint) → count p (drop_some p n xs) ≡ count p xs - n
  drop-count n [] = omega arith
  drop-count n (x ∷ xs) = elim (Bool-cases (p x && ltb 0 n)) [
    | inl e ↦ ground (arith, e, drop-count (n - 1) xs)
    | inr e ↦ ground (arith, e, drop-count n xs)
  ]

  drop-keep : (n : ℕ) (xs : List TelemetryPoint) → keep (drop_some p n xs) ≡ keep xs
  drop-keep n [] = refl
  drop-keep n (x ∷ xs) = elim (Bool-cases (p x && ltb 0 n)) [
    | inl e ↦ ground (arith, e, drop-keep (n - 1) xs)
    | inr e ↦ ground (arith, e, drop-keep n xs)
  ]

  batches-count :
      (size n : ℕ) (xs : List TelemetryPoint)
      → count p (purge_batches p size n xs).1 ≡ count p xs - size * n
  batches-count size zero xs = omega arith
  batches-count size (suc n) xs =
      ground (arith, mul-suc size n, drop-count size xs, batches-count size n (drop_some p size xs))

  batches-keep :
      (size n : ℕ) (xs : List TelemetryPoint) → keep (purge_batches p size n xs).1 ≡ keep xs
  batches-keep size zero xs = refl
  batches-keep size (suc n) xs =
      ground (arith, batches-keep size n (drop_some p size xs), drop-keep size xs)

  batches-number :
      (size n : ℕ) (xs : List TelemetryPoint)
      → (purge_batches p size n xs).0 ≡ min (size * n) (count p xs)
  batches-number size zero xs = omega arith
  batches-number size (suc n) xs =
      ground
        (arith, mul-suc size n, drop-count size xs, batches-number size n (drop_some p size xs))

-- What the purge of an organization's telemetry comes to.
pub record IsPurged (org : ℕ) (cutoff : Time) (xs : List TelemetryPoint)
    (result : ℕ × List TelemetryPoint) : Type 0 where
  pub number : result.0 ≡ min 200000 (count (is_old_point org cutoff) xs)
  pub left : count (is_old_point org cutoff) result.1 ≡ count (is_old_point org cutoff) xs - 200000
  pub others :
      select (λ x. not (is_old_point org cutoff x)) result.1
      ≡ select (λ x. not (is_old_point org cutoff x)) xs

-- One purge deletes up to 200,000 rows of telemetry of an organization that are older than the
-- cutoff and answers how many, so that none is left where there were no more than that; it deletes
-- nothing else, and leaves the order of the rest.
pub purge_points-IsPurged :
    (org : ℕ) (cutoff : Time) (xs : List TelemetryPoint)
    → IsPurged org cutoff xs (purge_points org cutoff xs)
unfolding purge_points
purge_points-IsPurged org cutoff xs = record {
  number = batches-number (is_old_point org cutoff) batch_size max_batches xs;
  left = batches-count (is_old_point org cutoff) batch_size max_batches xs;
  others = batches-keep (is_old_point org cutoff) batch_size max_batches xs;
}
