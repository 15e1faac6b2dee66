-- ===== src/Safety/Counting.antt =====
-- Every hit is counted once.
use visi_on_route.Prelude.{
  ==_iff, Bool, Bool-cases, List, Option, Option-cases, Time, [], any-false, arith, count,
  count-unseen, false, found-counts, inl, inr, length, none, refl, select, some, subst, sym,
  update_where, ℕ, ◌&&◌, ◌+◌, ◌==◌, ◌∷◌, ◌≡◌, ◌≤◌,
}
use visi_on_route.Tx.{Tx, Result, ok, Error, err, Result-cases, request}
use visi_on_route.Safety.Engine.{
  Store, SafetyEvent, earliest, count_again, count_on, PointContext, insert_event, is_taken, place,
  upsert, add_event, clashing, persist, same_type, new_event, persist_each, existing_event, is_near,
  evaluate,
}
use visi_on_route.Safety.Spacing.{Point}
use visi_on_route.Safety.Rules.{
  TelemetrySample, SafetyEventType, RuleHit, Numbers, evaluate_point, hits_of,
}

module _ {F : Type 0} where
  abbrev pub total : List (SafetyEvent F) → ℕ
  total [] = 0
  total (x ∷ xs) = x.occurrence_count + total xs

  -- Identifiers are unique.
  abbrev pub HasUniqueIds : Store F → Type 0
  HasUniqueIds s = (k : ℕ) → count (λ (x : SafetyEvent F). x.id == k) s.events ≤ 1

  total-bumped :
      (k : ℕ) (xs : List (SafetyEvent F))
      → total (update_where (λ (x : SafetyEvent F). x.id == k) count_again xs)
        ≡ total xs + count (λ (x : SafetyEvent F). x.id == k) xs
  total-bumped k [] = refl
  total-bumped k (x ∷ xs) = ground (arith, total-bumped k xs)

  earliest-counts :
      (p : SafetyEvent F → Bool) (xs : List (SafetyEvent F)) (x : SafetyEvent F)
      → earliest (select p xs) ≡ some x
      → 1 ≤ count (λ (y : SafetyEvent F). y.id == x.id) xs
  earliest-counts p [] x h = absurd (cc h)
  earliest-counts p (y ∷ ys) x h = elim (Bool-cases (p y)) [
    | inr e ↦ ground (arith, e, h, earliest-counts p ys x)
    | inl e ↦ elim (Option-cases (earliest (select p ys))) [
      | inl q ↦ ground (arith, e, h, q)
      | inr (z, q) ↦ ground (arith, e, h, q, earliest-counts p ys z q, earliest-counts p ys x)
    ]
  ]

  -- What a persisted hit comes to: one more occurrence, and identifiers stay unique.
  pub record IsCounted (s : Store F) (n : ℕ) (tx : Tx (Store F)) : Type 0 where
    pub total : total tx.current.events ≡ total s.events + n
    pub unique : HasUniqueIds tx.current

  bump-IsCounted :
      (k : ℕ) (tx : Tx (Store F))
      → 1 ≤ count (λ (y : SafetyEvent F). y.id == k) tx.current.events
      → HasUniqueIds tx.current
      → IsCounted tx.current 1 (count_on k tx).1
  bump-IsCounted k tx there u = record {
    total = omega (arith, total-bumped k tx.current.events, there, u k);
    unique = λ j.
        subst (λ m. m ≤ 1)
          (sym (
            count-unseen (λ (x : SafetyEvent F). x.id == j) (λ x. x.id == k) count_again
              tx.current.events (λ x e. refl)))
          (u j);
  }

  added-HasUniqueIds :
      (n : SafetyEvent F) (s : Store F)
      → is_taken n s ≡ false
      → HasUniqueIds s
      → HasUniqueIds (add_event n s)
  added-HasUniqueIds n s free u k = elim (Bool-cases (n.id == k)) [
    | inr e ↦ ground (arith, e, u k)
    | inl e ↦ ground (
      arith,
      e,
      subst (λ j. count (λ (x : SafetyEvent F). x.id == j) s.events ≡ 0) ((==_iff n.id k).0 e)
          (any-false (λ (x : SafetyEvent F). x.id == n.id) s.events free),
    )
  ]

  -- How an action that persists a hit ends
  abbrev Counts : ℕ → Tx (Store F) → Result ℕ × Tx (Store F) → Type 0
  Counts n tx r = (k : ℕ) → r.0 ≡ ok k → IsCounted tx.current n r.1

  insert-Counts :
      (n : SafetyEvent F) (tx : Tx (Store F))
      → n.occurrence_count ≡ 1
      → HasUniqueIds tx.current
      → Counts 1 tx (insert_event n tx)
  unfolding insert_event
  insert-Counts n tx one u k = elim (Bool-cases (is_taken n tx.current)) [
    | inl e ↦ rw e (λ h. absurd (cc h))
    | inr e ↦
        rw e
          (λ h. record { total = omega (arith, one); unique = added-HasUniqueIds n tx.current e u })
  ]

  upsert-Counts :
      (n : SafetyEvent F) (o : Option (SafetyEvent F)) (tx : Tx (Store F))
      → ((x : SafetyEvent F)
          → o ≡ some x
          → 1 ≤ count (λ (y : SafetyEvent F). y.id == x.id) tx.current.events)
      → n.occurrence_count ≡ 1
      → HasUniqueIds tx.current
      → Counts 1 tx (upsert n o tx)
  upsert-Counts n none tx there one u = insert-Counts n tx one u
  upsert-Counts n (some x) tx there one u = λ k h. bump-IsCounted x.id tx (there x refl) u

  place-Counts :
      (milliseconds : Time → ℕ) (n : SafetyEvent F) (o : Option (SafetyEvent F)) (tx : Tx (Store F))
      → ((x : SafetyEvent F)
          → o ≡ some x
          → 1 ≤ count (λ (y : SafetyEvent F). y.id == x.id) tx.current.events)
      → n.occurrence_count ≡ 1
      → HasUniqueIds tx.current
      → Counts 1 tx (place milliseconds n o tx)
  place-Counts milliseconds n none tx there one u =
      upsert-Counts n (clashing milliseconds n tx.current) tx
        (λ x h.
          found-counts (λ (y : SafetyEvent F). y.id)
            (λ (y : SafetyEvent F).
              (y.organization_id == n.organization_id)
              && ((y.vehicle_id == n.vehicle_id)
                  && (same_type y.event_type n.event_type
                      && (milliseconds y.occurred_at == milliseconds n.occurred_at))))
            x tx.current.events h)
        one u
  place-Counts milliseconds n (some x) tx there one u =
      λ k h. bump-IsCounted x.id tx (there x refl) u

  module _ (milliseconds : Time → ℕ) (ctx : PointContext) (sample : TelemetrySample F) where
    persist-Counts :
        (hit : RuleHit F) (new_id : ℕ) (tx : Tx (Store F))
        → HasUniqueIds tx.current
        → Counts 1 tx (persist milliseconds ctx hit sample new_id tx)
    unfolding persist
    persist-Counts hit new_id tx u =
        place-Counts milliseconds (new_event ctx hit sample new_id)
          (existing_event ctx hit.event_type tx.current) tx
          (λ x h.
            earliest-counts
              (is_near ctx.organization_id ctx.vehicle_id hit.event_type ctx.occurred_at)
              tx.current.events x h)
          refl u

    persist_each-IsCounted :
        (new_ids : SafetyEventType → ℕ) (hits : List (RuleHit F)) (ks : List ℕ) (tx : Tx (Store F))
        → HasUniqueIds tx.current
        → (persist_each milliseconds ctx sample new_ids hits tx).0 ≡ ok ks
        → IsCounted tx.current
            (length hits)
            (persist_each milliseconds ctx sample new_ids hits tx).1
    persist_each-IsCounted new_ids [] ks tx u h = record { total = omega arith; unique = u }
    persist_each-IsCounted new_ids (hit ∷ hits) ks tx u h = elim (Result-cases first.0) [
      | inr (e, r) ↦ absurd (cc (h, stopped e r))
      | inl (k, r) ↦ elim (Result-cases (rest first.1).0) [
        | inr (e, q) ↦ absurd (cc (h, stopped_later k e r q))
        | inl (js, q) ↦
            (let c = persist-Counts hit (new_ids hit.event_type) tx u k r in
              subst (IsCounted tx.current (length (hit ∷ hits))) (sym (goes_on k r))
                (both c (persist_each-IsCounted new_ids hits js first.1 c.unique q)))
      ]
    ]
      where
        first : Result ℕ × Tx (Store F)
        first = persist milliseconds ctx hit sample (new_ids hit.event_type) tx

        rest : Tx (Store F) → Result (List ℕ) × Tx (Store F)
        rest = persist_each milliseconds ctx sample new_ids hits

        stopped :
            (e : Error)
            → first.0 ≡ err e
            → (persist_each milliseconds ctx sample new_ids (hit ∷ hits) tx).0 ≡ err e
        stopped e r = ground (arith, r)

        stopped_later :
            (k : ℕ) (e : Error)
            → first.0 ≡ ok k
            → (rest first.1).0 ≡ err e
            → (persist_each milliseconds ctx sample new_ids (hit ∷ hits) tx).0 ≡ err e
        stopped_later k e r q = ground (arith, r, q)

        goes_on :
            (k : ℕ)
            → first.0 ≡ ok k
            → (persist_each milliseconds ctx sample new_ids (hit ∷ hits) tx).1 ≡ (rest first.1).1
        goes_on k r = ground (arith, r)

        both :
            IsCounted tx.current 1 first.1
            → IsCounted first.1.current (length hits) (rest first.1).1
            → IsCounted tx.current (length (hit ∷ hits)) (rest first.1).1
        both c e = record { total = omega (arith, c.total, e.total); unique = e.unique }

  module _ (num : Numbers F) (milliseconds : Time → ℕ) (p : Point F) (s : Store F) where
    abbrev run : Result (List ℕ) × Tx (Store F)
    run =
        persist_each milliseconds p.context p.sample p.new_ids
          (hits_of (evaluate_point num p.sample p.thresholds)) (record { durable = s; current = s })

    failed :
        (e : Error)
        → run.0 ≡ err e
        → (request (evaluate num milliseconds p.context p.sample p.thresholds p.new_ids) s).0
          ≡ err e
    unfolding evaluate
    failed e q = ground (arith, q)

    finished :
        (ks : List ℕ)
        → run.0 ≡ ok ks
        → (request (evaluate num milliseconds p.context p.sample p.thresholds p.new_ids) s).1
          ≡ run.1.current
    unfolding evaluate
    finished ks q = ground (arith, q)

    -- What an evaluation leaves, counted
    pub record IsCountedIn (n : ℕ) (after : Store F) : Type 0 where
      pub occurrences : total after.events ≡ total s.events + n
      pub unique_ids : HasUniqueIds after

    -- An evaluation of a point that succeeds raises the number of counted occurrences by the number
    -- of its hits: each hit is counted exactly once, as a new event or as a further occurrence of
    -- one that there was, if identifiers were unique; and they stay unique.
    pub evaluate-IsCountedIn :
        (ks : List ℕ)
        → HasUniqueIds s
        → (request (evaluate num milliseconds p.context p.sample p.thresholds p.new_ids) s).0
          ≡ ok ks
        → IsCountedIn
            (length (hits_of (evaluate_point num p.sample p.thresholds)))
            (request (evaluate num milliseconds p.context p.sample p.thresholds p.new_ids) s).1
    evaluate-IsCountedIn ks u h = elim (Result-cases run.0) [
      | inr (e, q) ↦ absurd (cc (h, failed e q))
      | inl (js, q) ↦
          (let c =
              persist_each-IsCounted milliseconds p.context p.sample p.new_ids
                (hits_of (evaluate_point num p.sample p.thresholds)) js
                (record { durable = s; current = s }) u q in
            subst (IsCountedIn (length (hits_of (evaluate_point num p.sample p.thresholds))))
              (sym (finished js q)) (record { occurrences = c.total; unique_ids = c.unique }))
    ]
