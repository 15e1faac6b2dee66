-- ===== src/Privacy/Evolution.antt =====
-- What may become of a request at each step of the installation, and what a change of the table
-- does to its rows.
use visi_on_route.Prelude.{
  ==_iff, Bool, Bool-cases, List, Option, Time, any, any-false, arith, count, false, find,
  find-counts, find-updated, if◌then◌else◌, inl, inr, minutes, none, on_some, some, subst, true,
  update_where, ℕ, ◌+◌, ◌==◌, ◌∷◌, ◌≡◌, ◌≤◌, ◌⊎◌,
}
use visi_on_route.Privacy.Store.{PrivacyRequest, RequestStatus}
use visi_on_route.Privacy.Service.{is_active}
use visi_on_route.Privacy.Runs.{Step, System, run_at}

-- A worker has the request for fifteen minutes, and one attempt more is counted.
pub record IsLeased (now : Time) (x y : PrivacyRequest) : Type 0 where
  pub active : is_active x.status ≡ true
  pub due : x.next_attempt_at ≤ now
  pub status : y.status ≡ RequestStatus.processing
  pub attempts : y.attempts ≡ x.attempts + 1
  pub again : y.next_attempt_at ≡ now + minutes 15

-- A request that waits is withdrawn.
pub record IsWithdrawn (x y : PrivacyRequest) : Type 0 where
  pub waiting : x.status ≡ RequestStatus.pending
  pub status : y.status ≡ RequestStatus.canceled
  pub attempts : y.attempts ≡ x.attempts

-- The work ended: the request is completed, or has failed for good, or waits for another of its
-- five attempts.
pub data Ending (now : Time) (x y : PrivacyRequest) : Type 0 where
  finished : y.status ≡ RequestStatus.completed → y.completed_at ≡ some now → Ending now x y
  given_up : y.status ≡ RequestStatus.failed → y.completed_at ≡ some now → Ending now x y
  put_back : y.status ≡ RequestStatus.pending → x.attempts + 1 ≤ 5 → Ending now x y

pub record IsConcluded (now : Time) (x y : PrivacyRequest) : Type 0 where
  pub attempts : y.attempts ≡ x.attempts
  pub ending : Ending now x y

-- The work that ends is on the request `k`.
abbrev pub IsRun : System → ℕ → ℕ → Type 0
IsRun s n k = on_some (λ (x : PrivacyRequest). x.id) (run_at n s.runs) ≡ some k

-- What a step may make of the request `k`. The end of work on it may find it in any status.
unfoldable pub Allowed : System → Step → ℕ → PrivacyRequest → PrivacyRequest → Type 0
Allowed s (Step.asked d ctx a reason) k x y = y ≡ x
Allowed s (Step.canceled ctx now tenant j) k x y = (y ≡ x) ⊎ ((j ≡ k) × IsWithdrawn x y)
Allowed s (Step.claimed limit now) k x y = (y ≡ x) ⊎ IsLeased now x y
Allowed s (Step.started j) k x y = y ≡ x
Allowed s (Step.concluded w now n) k x y = (y ≡ x) ⊎ (IsRun s n k × IsConcluded now x y)

abbrev pub row_of : ℕ → List PrivacyRequest → Option PrivacyRequest
row_of k xs = find (λ (z : PrivacyRequest). z.id == k) xs

-- Every request of the first table is in the second, changed as `R` says, and those that are new
-- wait for their first attempt.
pub record Evolves (R : ℕ → PrivacyRequest → PrivacyRequest → Type 0) (xs ys : List PrivacyRequest)
    : Type 0 where
  pub kept :
      (k : ℕ) (x : PrivacyRequest)
      → row_of k xs ≡ some x
      → (y : PrivacyRequest) × (row_of k ys ≡ some y) × R k x y
  pub fresh :
      (k : ℕ) (y : PrivacyRequest)
      → row_of k xs ≡ none
      → row_of k ys ≡ some y
      → (y.status ≡ RequestStatus.pending) × (y.attempts ≡ 0)

module _ (R : ℕ → PrivacyRequest → PrivacyRequest → Type 0) where
  pub Evolves-refl :
      (xs : List PrivacyRequest) → ((k : ℕ) (x : PrivacyRequest) → R k x x) → Evolves R xs xs
  Evolves-refl xs r = record {
    kept = λ k x h. (x, h, r k x);
    fresh = λ k y absent h. absurd (cc (absent, h));
  }

  -- A new row under a fresh identifier.
  pub Evolves-new :
      (n : PrivacyRequest) (xs : List PrivacyRequest)
      → any (λ (z : PrivacyRequest). z.id == n.id) xs ≡ false
      → n.status ≡ RequestStatus.pending
      → n.attempts ≡ 0
      → ((k : ℕ) (x : PrivacyRequest) → R k x x)
      → Evolves R xs (n ∷ xs)
  Evolves-new n xs free pending untried r = record {
    kept = λ k x h. (x, still k x h, r k x);
    fresh = λ k y absent h. elim (Bool-cases (n.id == k)) [
      | inl e ↦ (ground (arith, pending, h), ground (arith, untried, h))
      | inr e ↦ absurd (ground (arith, absent, h))
    ];
  }
    where
      missing : (k : ℕ) → n.id ≡ k → count (λ (z : PrivacyRequest). z.id == k) xs ≡ 0
      missing k e =
          subst (λ j. count (λ (z : PrivacyRequest). z.id == j) xs ≡ 0) e
            (any-false (λ (z : PrivacyRequest). z.id == n.id) xs free)

      still : (k : ℕ) (x : PrivacyRequest) → row_of k xs ≡ some x → row_of k (n ∷ xs) ≡ some x
      still k x h = elim (Bool-cases (n.id == k)) [
        | inl e ↦ ground (
          arith,
          missing k ((==_iff n.id k).0 e),
          find-counts (λ (z : PrivacyRequest). z.id == k) xs x h,
        )
        | inr e ↦ ground (arith, h)
      ]

  module _ (q : PrivacyRequest → Bool) (f : PrivacyRequest → PrivacyRequest)
      (same_id : (x : PrivacyRequest) → (f x).id ≡ x.id) where
    -- A change of rows, each as `R` says.
    pub Evolves-update :
        (xs : List PrivacyRequest)
        → ((k : ℕ) (x : PrivacyRequest) → row_of k xs ≡ some x → R k x (if q x then f x else x))
        → Evolves R xs (update_where q f xs)
    Evolves-update xs moves = record {
      kept = λ k x h. (
        (if q x then f x else x),
        ground (arith, h, find-updated (λ (z : PrivacyRequest). z.id) k q f xs same_id),
        moves k x h,
      );
      fresh = λ k y absent h.
          absurd (
            ground
              (arith, absent, h, find-updated (λ (z : PrivacyRequest). z.id) k q f xs same_id));
    }
