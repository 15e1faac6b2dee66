-- ===== src/Privacy/Effects.antt =====
-- What each operation does to the table of requests.
use visi_on_route.Prelude.{
  Bool, Bool-cases, List, Option, Option-cases, String, Time, arith, false, if◌then◌else◌, inl, inr,
  none, not, refl, same, some, subst, sym, true, ℕ, ◌&&◌, ◌∷◌, ◌≡◌,
}
use visi_on_route.Tx.{request, Tx, Result, ok, err}
use visi_on_route.Access.Context.{RequestContext}
use visi_on_route.Privacy.Store.{Store, PrivacyRequest}
use visi_on_route.Privacy.Service.{
  Subject, Draw, check_subject, check_driver, check_user, create_request, new_request, is_taken,
  is_reasoned, cancel, is_about, is_pending, own_request, change_request, cancel_at, request_by_id,
}
use visi_on_route.Privacy.Evolution.{IsConcluded, Ending}
use visi_on_route.Privacy.Erasing.{Artifact}
use visi_on_route.Privacy.Processor.{
  failed_row, record_failure, completed_row, is_last, failed_store, has_twin,
}

check_subject-quiet :
    (ctx : RequestContext) (a : Subject) (tx : Tx Store) → (check_subject ctx a tx).1 ≡ tx
unfolding check_driver check_user
check_subject-quiet ctx a tx = ground arith

abbrev is_ok : {A : Type 0} → Result A → Bool
is_ok (ok a) = true
is_ok (err e) = false

module _ (d : Draw) (ctx : RequestContext) (a : Subject) (reason : Option String) (s : Store) where
  -- Whether the request is created
  abbrev is_granted : Bool
  is_granted =
      is_ok (check_subject ctx a (record { durable = s; current = s })).0
      && (is_reasoned d a.kind reason && not (is_taken (new_request d ctx a reason) s))

  create-rows :
      (request (create_request d ctx a reason) s).1.requests
      ≡ (if is_granted then new_request d ctx a reason ∷ s.requests else s.requests)
  unfolding create_request
  create-rows = ground (arith, check_subject-quiet ctx a (record { durable = s; current = s }))

  -- Either nothing, or one new row, which breaks no index.
  pub create-either :
      (P : List PrivacyRequest → Type 0)
      → P s.requests
      → (is_taken (new_request d ctx a reason) s ≡ false
          → P (new_request d ctx a reason ∷ s.requests))
      → P (request (create_request d ctx a reason) s).1.requests
  create-either P same fresh = subst P (sym create-rows) (elim (Bool-cases is_granted) [
    | inr e ↦
        subst (λ b. P (if b then new_request d ctx a reason ∷ s.requests else s.requests)) (sym e)
          same
    | inl e ↦
        subst (λ b. P (if b then new_request d ctx a reason ∷ s.requests else s.requests)) (sym e)
          (fresh (ground (arith, e)))
  ])

abbrev is_cancelable : Option PrivacyRequest → Bool
is_cancelable none = false
is_cancelable (some x) = is_pending x

pending_found :
    (o : Option PrivacyRequest)
    → is_cancelable o ≡ true
    → (x : PrivacyRequest) × ((o ≡ some x) × (is_pending x ≡ true))
pending_found none h = absurd (cc h)
pending_found (some x) h = (x, (refl, h))

module _ (ctx : RequestContext) (now : Time) (tenant k : ℕ) (s : Store) where
  cancel-rows : (request (cancel ctx now tenant k) s).1.requests ≡ (
      if is_cancelable (own_request tenant k s)
      then (change_request k (cancel_at now) s).requests
      else s.requests)
  unfolding cancel
  cancel-rows = ground arith

  -- Either nothing, or a pending request is canceled.
  pub cancel-either :
      (P : List PrivacyRequest → Type 0)
      → P s.requests
      → ((x : PrivacyRequest)
          → own_request tenant k s ≡ some x
          → is_pending x ≡ true
          → P (change_request k (cancel_at now) s).requests)
      → P (request (cancel ctx now tenant k) s).1.requests
  cancel-either P same changed =
      subst P (sym cancel-rows) (elim (Bool-cases (is_cancelable (own_request tenant k s))) [
        | inr e ↦
            subst (λ b. P (if b then (change_request k (cancel_at now) s).requests else s.requests))
              (sym e) same
        | inl e ↦
            subst (λ b. P (if b then (change_request k (cancel_at now) s).requests else s.requests))
              (sym e)
              (let (x, (found, h)) = pending_found (own_request tenant k s) e in changed x found h)
      ])

-- What the end of the work on a request makes of its row
pub record IsEnding (now : Time) (f : PrivacyRequest → PrivacyRequest) : Type 0 where
  pub id : (z : PrivacyRequest) → (f z).id ≡ z.id
  pub about : (a : Subject) (z : PrivacyRequest) → is_about a (f z) ≡ is_about a z
  pub concludes : (z : PrivacyRequest) → IsConcluded now z (f z)

pub completed-IsEnding :
    (now : Time) (a : Option Artifact) (counts : List (String × ℕ))
    → IsEnding now (completed_row now a counts)
completed-IsEnding now none counts = record {
  id = λ z. refl;
  about = λ b z. refl;
  concludes = λ z. record { attempts = refl; ending = Ending.finished refl refl };
}
completed-IsEnding now (some a) counts = record {
  id = λ z. refl;
  about = λ b z. refl;
  concludes = λ z. record { attempts = refl; ending = Ending.finished refl refl };
}

failed-concludes :
    (now : Time) (permanent : Bool) (code : String) (x : PrivacyRequest)
    → IsConcluded now x (failed_row now permanent code x)
failed-concludes now permanent code x = elim (Bool-cases (is_last permanent x)) [
  | inl e ↦ record {
    attempts = ground (arith, e);
    ending = Ending.given_up (ground (arith, e)) (ground (arith, e));
  }
  | inr e ↦ record {
    attempts = ground (arith, e);
    ending = Ending.put_back (ground (arith, e)) (ground (arith, e));
  }
]

pub failed-IsEnding :
    (now : Time) (permanent : Bool) (code : String) → IsEnding now (failed_row now permanent code)
failed-IsEnding now permanent code = record {
  id = λ z. ground arith;
  about = λ b z. ground arith;
  concludes = failed-concludes now permanent code;
}

pub failed_store-rows :
    (now : Time) (permanent : Bool) (code : String) (x : PrivacyRequest) (s : Store)
    → (failed_store now permanent code x s).requests
      ≡ (change_request x.id (failed_row now permanent code) s).requests
failed_store-rows now permanent code x s = ground arith

-- Either nothing, or the row of the request is changed, without a twin.
pub record_failure-either :
    (P : List PrivacyRequest → Type 0) (now : Time) (permanent : Bool) (code : String) (k : ℕ)
    (s : Store)
    → P s.requests
    → ((x : PrivacyRequest)
        → request_by_id k s ≡ some x
        → has_twin x (failed_store now permanent code x s) ≡ false
        → P (failed_store now permanent code x s).requests)
    → P (record_failure now permanent code k s).1.requests
unfolding record_failure
record_failure-either P now permanent code k s unchanged changed =
    elim (Option-cases (request_by_id k s)) [
      | inl q ↦ rw (record_failure, q) unchanged
      | inr (x, q) ↦ elim (Bool-cases (has_twin x (failed_store now permanent code x s))) [
        | inl e ↦ rw (record_failure, q, e) unchanged
        | inr e ↦ rw (record_failure, q, e) (changed x q e)
      ]
    ]
