-- ===== src/Privacy/Histories.antt =====
-- Histories of requests, whatever the workers do in the meantime.
use visi_on_route.Prelude.{
  ==_iff, Bool, Bool-cases, List, Option-cases, [], any, arith, false, find-holds, inl, inr,
  on_some, refl, some, subst, suc, sym, zero, ℕ, ◌==◌, ◌∙◌, ◌∷◌, ◌≡◌,
}
use visi_on_route.Privacy.Service.{is_active, request_by_id}
use visi_on_route.Privacy.Runs.{Step, System, take_step, run_at, without_run, take_steps, start_run}
use visi_on_route.Privacy.Evolution.{Allowed}
use visi_on_route.Privacy.Singles.{IsValid}
use visi_on_route.Privacy.Lifecycle.{
  Advances, Advances-refl, create-Advances, cancel-Advances, claim-Advances, end-Advances,
}
use visi_on_route.Privacy.Store.{PrivacyRequest, Store}
use visi_on_route.Privacy.Processor.{started_row}

-- At each step of a history, the table stays valid and its rows change as that step allows.
abbrev pub AllAdvance : List Step → System → Type 0
AllAdvance [] s = Unit {0}
AllAdvance (x ∷ xs) s =
    Advances (Allowed s x) s.store.requests (take_step x s).store.requests
    × AllAdvance xs (take_step x s)

take_step-Advances :
    (x : Step) (s : System)
    → IsValid s.store.requests
    → Advances (Allowed s x) s.store.requests (take_step x s).store.requests
unfolding take_step Allowed
take_step-Advances (Step.asked d ctx a reason) s v =
    create-Advances (Allowed s (Step.asked d ctx a reason)) (λ k x. refl) d ctx a reason s.store v
take_step-Advances (Step.canceled ctx now tenant k) s v = cancel-Advances ctx now tenant k s v
take_step-Advances (Step.claimed limit now) s v = claim-Advances limit now s v
take_step-Advances (Step.started k) s v =
    Advances-refl (Allowed s (Step.started k)) (λ j x. refl) s.store.requests v
take_step-Advances (Step.concluded w now n) s v = end-Advances w now n s (run_at n s.runs) refl v

-- A worker is at work on the request.
abbrev pub has_run : ℕ → System → Bool
has_run k s = any (λ (x : PrivacyRequest). x.id == k) s.runs

run_at-none :
    (k n : ℕ) (xs : List PrivacyRequest)
    → any (λ (x : PrivacyRequest). x.id == k) xs ≡ false
    → on_some (λ (x : PrivacyRequest). x.id) (run_at n xs) ≡ some k
    → ⊥
run_at-none k n [] h e = cc e
run_at-none k zero (x ∷ xs) h e = ground (arith, h, e)
run_at-none k (suc n) (x ∷ xs) h e = run_at-none k n xs (ground (arith, h)) e

without_run-none :
    (k n : ℕ) (xs : List PrivacyRequest)
    → any (λ (x : PrivacyRequest). x.id == k) xs ≡ false
    → any (λ (x : PrivacyRequest). x.id == k) (without_run n xs) ≡ false
without_run-none k n [] h = refl
without_run-none k zero (x ∷ xs) h = ground (arith, h)
without_run-none k (suc n) (x ∷ xs) h =
    ground (arith, h, without_run-none k n xs (ground (arith, h)))

module _ (k : ℕ) (x : PrivacyRequest) (ended : is_active x.status ≡ false) where
  unstarted :
      (j : ℕ) (s : Store) (runs : List PrivacyRequest)
      → request_by_id k s ≡ some x
      → any (λ (z : PrivacyRequest). z.id == k) runs ≡ false
      → any (λ (z : PrivacyRequest). z.id == k) (start_run (started_row j s) runs) ≡ false
  unfolding started_row
  unstarted j s runs h none_left = elim (Option-cases (request_by_id j s)) [
    | inl q ↦ ground (arith, q, none_left)
    | inr (z, q) ↦ elim (Bool-cases (z.id == k)) [
      | inr e ↦ ground (arith, q, e, none_left)
      | inl e ↦ ground (
        arith,
        q,
        none_left,
        ended,
        h,
        subst (λ i. request_by_id i s ≡ some z)
            (sym ((==_iff z.id j).0 (find-holds (λ (y : PrivacyRequest). y.id == j) s.requests z q))
              ∙ (==_iff z.id k).0 e)
            q,
      )
    ]
  ]

  abbrev IsOver : System → Type 0
  IsOver s = (request_by_id k s.store ≡ some x) × (has_run k s ≡ false)

  still_idle : (y : Step) (s : System) → IsOver s → has_run k (take_step y s) ≡ false
  unfolding take_step
  still_idle (Step.asked d ctx a reason) s o = o.1
  still_idle (Step.canceled ctx now tenant j) s o = o.1
  still_idle (Step.claimed limit now) s o = o.1
  still_idle (Step.started j) s o = unstarted j s.store s.runs o.0 o.1
  still_idle (Step.concluded w now n) s o = without_run-none k n s.runs o.1

  same_row : (y : Step) (s : System) (z : PrivacyRequest) → IsOver s → Allowed s y k x z → z ≡ x
  unfolding Allowed
  same_row (Step.asked d ctx a reason) s z o m = m
  same_row (Step.canceled ctx now tenant j) s z o (inl e) = e
  same_row (Step.canceled ctx now tenant j) s z o (inr (e, m)) =
      absurd (ground (arith, m.waiting, ended))
  same_row (Step.claimed limit now) s z o (inl e) = e
  same_row (Step.claimed limit now) s z o (inr m) = absurd (ground (arith, m.active, ended))
  same_row (Step.started j) s z o m = m
  same_row (Step.concluded w now n) s z o (inl e) = e
  same_row (Step.concluded w now n) s z o (inr (e, m)) = absurd (run_at-none k n s.runs o.1 e)

  take_step-IsOver :
      (y : Step) (s : System) → IsValid s.store.requests → IsOver s → IsOver (take_step y s)
  take_step-IsOver y s v o =
      let (z, found, m) = (take_step-Advances y s v).evolves.kept k x o.0 in
      (
        subst (λ r. request_by_id k (take_step y s).store ≡ some r) (same_row y s z o m) found,
        still_idle y s o,
      )

  -- A request that is completed, failed or canceled, and that no worker is still at work on, stays
  -- as it is in every column, whatever is asked, canceled, claimed, taken up and ended afterwards.
  pub take_steps-ended :
      (ys : List Step) (s : System)
      → IsValid s.store.requests
      → request_by_id k s.store ≡ some x
      → has_run k s ≡ false
      → request_by_id k (take_steps ys s).store ≡ some x
  take_steps-ended [] s v h idle = h
  take_steps-ended (y ∷ ys) s v h idle =
      let after = take_step-IsOver y s v (h, idle) in
      take_steps-ended ys (take_step y s) (take_step-Advances y s v).valid after.0 after.1
