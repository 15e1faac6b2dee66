-- ===== src/Privacy/Lifecycle.antt =====
-- Each step of the installation keeps the table of requests valid, and makes of each request what
-- the step allows.
use visi_on_route.Prelude.{
  ==_iff, Bool, Bool-cases, List, Option, String, Time, arith, count, false, find-holds,
  if◌then◌else◌, inl, inr, none, refl, same, some, subst, sym, true, ℕ, ◌&&◌, ◌==◌, ◌∙◌, ◌≡◌, ◌≤◌,
  ◌⊎◌,
}
use visi_on_route.Tx.{request}
use visi_on_route.Access.Context.{RequestContext}
use visi_on_route.Privacy.Store.{Store, PrivacyRequest, RequestStatus}
use visi_on_route.Privacy.Service.{
  Subject, Draw, create_request, request_by_id, change_request, new_request, cancel, own_request,
  is_pending, cancel_at, is_active_about, subject_of,
}
use visi_on_route.Privacy.Evolution.{
  Evolves, Evolves-refl, Evolves-new, Evolves-update, Allowed, IsConcluded, IsLeased,
}
use visi_on_route.Privacy.Effects.{
  create-either, cancel-either, IsEnding, completed-IsEnding, failed-IsEnding,
  record_failure-either, failed_store-rows,
}
use visi_on_route.Privacy.Singles.{
  IsValid, new-IsValid, claim-IsValid, ended-IsValid, untwinned-IsValid,
}
use visi_on_route.Privacy.Erasing.{Worker, Outcome, Artifact}
use visi_on_route.Privacy.Processor.{
  claim, lease, is_due, is_among, claimed_ids, conclude, keep_files, record_failure, clean_up,
  completed_row, perform, failed_row,
}
use visi_on_route.Privacy.Runs.{Step, System, run_at, end_run}

-- What happens to a table: it stays valid, and its requests change as `R` says.
pub record Advances (R : ℕ → PrivacyRequest → PrivacyRequest → Type 0) (xs ys : List PrivacyRequest)
    : Type 0 where
  pub valid : IsValid ys
  pub evolves : Evolves R xs ys

module _ (R : ℕ → PrivacyRequest → PrivacyRequest → Type 0)
    (same : (k : ℕ) (x : PrivacyRequest) → R k x x) where
  pub Advances-refl : (xs : List PrivacyRequest) → IsValid xs → Advances R xs xs
  Advances-refl xs v = record { valid = v; evolves = Evolves-refl R xs same }

  pub create-Advances :
      (d : Draw) (ctx : RequestContext) (a : Subject) (reason : Option String) (s : Store)
      → IsValid s.requests
      → Advances R s.requests (request (create_request d ctx a reason) s).1.requests
  create-Advances d ctx a reason s v =
      create-either d ctx a reason s (Advances R s.requests) (Advances-refl s.requests v) (λ free.
        record {
          valid = new-IsValid (new_request d ctx a reason) s free v;
          evolves =
              Evolves-new R (new_request d ctx a reason) s.requests (ground (arith, free)) refl refl
                same;
        })

  -- A change of the row under one identifier
  pub change-Evolves :
      (j : ℕ) (f : PrivacyRequest → PrivacyRequest) (s : Store)
      → ((z : PrivacyRequest) → (f z).id ≡ z.id)
      → ((z : PrivacyRequest) → request_by_id j s ≡ some z → R j z (f z))
      → Evolves R s.requests (change_request j f s).requests
  change-Evolves j f s same_id moves =
      Evolves-update R (λ z. z.id == j) f same_id s.requests
        (λ k z h. elim (Bool-cases (z.id == j)) [
          | inr e ↦ subst (λ b. R k z (if b then f z else z)) (sym e) (same k z)
          | inl e ↦
              subst (λ b. R k z (if b then f z else z)) (sym e)
                (subst (λ i. request_by_id i s ≡ some z → R i z (f z)) (here k z h e) (moves z) h)
        ])
    where
      here : (k : ℕ) (z : PrivacyRequest) → request_by_id k s ≡ some z → (z.id == j) ≡ true → j ≡ k
      here k z h e =
          sym ((==_iff z.id j).0 e)
          ∙ (==_iff z.id k).0 (find-holds (λ (y : PrivacyRequest). y.id == k) s.requests z h)

pub cancel-Advances :
    (ctx : RequestContext) (now : Time) (tenant k : ℕ) (s : System)
    → IsValid s.store.requests
    → Advances
        (Allowed s (Step.canceled ctx now tenant k))
        s.store.requests
        (request (cancel ctx now tenant k) s.store).1.requests
unfolding Allowed
cancel-Advances ctx now tenant k s v =
    cancel-either ctx now tenant k s.store (Advances R s.store.requests)
      (Advances-refl R (λ j x. inl refl) s.store.requests v)
      (λ x h p. record {
        valid = canceled x (own_row x h) p;
        evolves =
            change-Evolves R (λ j y. inl refl) k (cancel_at now) s.store (λ z. refl)
              (λ z hz. inr (
                refl,
                record { waiting = waits x z (own_row x h) hz p; status = refl; attempts = refl },
              ));
      })
  where
    R : ℕ → PrivacyRequest → PrivacyRequest → Type 0
    R = Allowed s (Step.canceled ctx now tenant k)

    own_row :
        (x : PrivacyRequest)
        → own_request tenant k s.store ≡ some x
        → request_by_id k s.store ≡ some x
    own_row x h = ground (arith, h)

    waits :
        (x z : PrivacyRequest)
        → request_by_id k s.store ≡ some x
        → request_by_id k s.store ≡ some z
        → is_pending x ≡ true
        → z.status ≡ RequestStatus.pending
    waits x z h hz p = ground (arith, h, hz, p)

    canceled :
        (x : PrivacyRequest)
        → request_by_id k s.store ≡ some x
        → is_pending x ≡ true
        → IsValid (change_request k (cancel_at now) s.store).requests
    canceled x h p = ended-IsValid k (cancel_at now) s.store (λ z. refl) (λ z. refl) v

lease-Allowed :
    (now : Time) (b : Bool) (x : PrivacyRequest)
    → (b ≡ true → is_due now x ≡ true)
    → ((if b then lease now x else x) ≡ x) ⊎ IsLeased now x (if b then lease now x else x)
lease-Allowed now false x h = inl refl
lease-Allowed now true x h = inr (record {
  active = ground (arith, h);
  due = ground (arith, h);
  status = refl;
  attempts = refl;
  again = refl;
})

pub claim-Advances :
    (limit : ℕ) (now : Time) (s : System)
    → IsValid s.store.requests
    → Advances
        (Allowed s (Step.claimed limit now))
        s.store.requests
        (claim limit now s.store).1.requests
unfolding claim Allowed
claim-Advances limit now s v = record {
  valid = claim-IsValid limit now s.store v;
  evolves =
      Evolves-update (Allowed s (Step.claimed limit now))
        (λ z. is_due now z && is_among (claimed_ids limit now s.store) z.id) (lease now) (λ z. refl)
        s.store.requests
        (λ k x h.
          lease-Allowed now (is_due now x && is_among (claimed_ids limit now s.store) x.id) x
            (λ e. ground (arith, e)));
}

module _ (R : ℕ → PrivacyRequest → PrivacyRequest → Type 0)
    (same : (k : ℕ) (x : PrivacyRequest) → R k x x) (now : Time) (k : ℕ)
    (ends : (z y : PrivacyRequest) → IsConcluded now z y → R k z y) where
  failure-Advances :
      (permanent : Bool) (code : String) (s : Store)
      → IsValid s.requests
      → Advances R s.requests (record_failure now permanent code k s).1.requests
  failure-Advances permanent code s v =
      record_failure-either (Advances R s.requests) now permanent code k s
        (Advances-refl R same s.requests v)
        (λ x h alone.
          subst (Advances R s.requests) (sym (failed_store-rows now permanent code x s)) (record {
            valid =
                untwinned-IsValid x (failed_row now permanent code) s e.id e.about (own x h)
                  (subst (λ xs. count (is_active_about (subject_of x)) xs ≤ 1)
                    (failed_store-rows now permanent code x s) (ground (arith, alone)))
                  v;
            evolves =
                subst
                  (λ i.
                    Evolves R s.requests
                      (change_request i (failed_row now permanent code) s).requests)
                  (sym (key x h))
                  (change-Evolves R same k (failed_row now permanent code) s e.id
                    (λ z _. ends z (failed_row now permanent code z) (e.concludes z)));
          }))
    where
      e : IsEnding now (failed_row now permanent code)
      e = failed-IsEnding now permanent code

      key : (x : PrivacyRequest) → request_by_id k s ≡ some x → x.id ≡ k
      key x h = (==_iff x.id k).0 (find-holds (λ (y : PrivacyRequest). y.id == k) s.requests x h)

      own : (x : PrivacyRequest) → request_by_id k s ≡ some x → request_by_id x.id s ≡ some x
      own x h =
          subst (λ i. request_by_id i s ≡ some x)
            (sym
              ((==_iff x.id k).0 (find-holds (λ (y : PrivacyRequest). y.id == k) s.requests x h)))
            h

  pub completed-Advances :
      (a : Option Artifact) (counts : List (String × ℕ)) (s : Store)
      → IsValid s.requests
      → Advances R s.requests (change_request k (completed_row now a counts) s).requests
  completed-Advances a counts s v = record {
    valid =
        ended-IsValid k (completed_row now a counts) s (completed-IsEnding now a counts).id
          (λ z. refl) v;
    evolves =
        change-Evolves R same k (completed_row now a counts) s (completed-IsEnding now a counts).id
          (λ z _.
            ends z (completed_row now a counts z) ((completed-IsEnding now a counts).concludes z));
  }

conclude-Advances :
    (R : ℕ → PrivacyRequest → PrivacyRequest → Type 0)
    (same : (k : ℕ) (x : PrivacyRequest) → R k x x) (w : Worker) (now : Time) (x : PrivacyRequest)
    (o : Outcome) (s : Store)
    → ((z y : PrivacyRequest) → IsConcluded now z y → R x.id z y)
    → IsValid s.requests
    → Advances R s.requests (conclude w now x o s).1.requests
conclude-Advances R same w now x (Outcome.done subjects a counts) s ends v =
    completed-Advances R same now x.id ends a counts (record s { subjects = subjects }) v
conclude-Advances R same w now x (Outcome.failed files permanent code) s ends v =
    failure-Advances R same now x.id ends permanent code (keep_files (clean_up w x files) s) v

pub end-Advances :
    (w : Worker) (now : Time) (n : ℕ) (s : System) (o : Option PrivacyRequest)
    → run_at n s.runs ≡ o
    → IsValid s.store.requests
    → Advances
        (Allowed s (Step.concluded w now n))
        s.store.requests
        (end_run w now o s.store).requests
unfolding Allowed
end-Advances w now n s none h v =
    Advances-refl (Allowed s (Step.concluded w now n)) (λ k x. inl refl) s.store.requests v
end-Advances w now n s (some x) h v =
    conclude-Advances (Allowed s (Step.concluded w now n)) (λ k z. inl refl) w now x
      (perform w now x s.store.subjects) s.store (λ z y c. inr (ground (arith, h), c)) v
