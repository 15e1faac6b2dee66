-- ===== src/Privacy/Singles.antt =====
-- At most one active request for a subject.
use visi_on_route.Prelude.{
  ==_iff, Bool, Bool-cases, List, Time, [], any, any-false, arith, count, count-unseen,
  count-update, false, inl, inr, refl, some, subst, true, update_where, ℕ, ◌&&◌, ◌==◌, ◌∷◌, ◌≡◌,
  ◌≤◌,
}
use visi_on_route.Privacy.Store.{Store, PrivacyRequest, RequestKind, SubjectType}
use visi_on_route.Privacy.Service.{
  Subject, is_taken, is_active_about, is_about, subject_of, change_request, request_by_id,
  same_kind, same_type, is_active,
}
use visi_on_route.Privacy.Processor.{claim, is_due, is_among, claimed_ids, lease}

-- Identifiers are unique, and so are the active requests of a kind for a subject.
pub record IsValid (xs : List PrivacyRequest) : Type 0 where
  pub unique_ids : (k : ℕ) → count (λ (x : PrivacyRequest). x.id == k) xs ≤ 1
  pub single : (a : Subject) → count (is_active_about a) xs ≤ 1

kind-eq : (p q : RequestKind) → same_kind p q ≡ true → p ≡ q
kind-eq p q h = ground arith

type-eq : (p q : SubjectType) → same_type p q ≡ true → p ≡ q
type-eq p q h = ground arith

about-eq : (a : Subject) (x : PrivacyRequest) → is_about a x ≡ true → subject_of x ≡ a
about-eq a x h = ground (arith, kind-eq x.kind a.kind, type-eq x.subject_type a.subject_type)

new_unique :
    (n : PrivacyRequest) (xs : List PrivacyRequest) (k : ℕ)
    → any (λ (y : PrivacyRequest). y.id == n.id) xs ≡ false
    → count (λ (x : PrivacyRequest). x.id == k) xs ≤ 1
    → count (λ (x : PrivacyRequest). x.id == k) (n ∷ xs) ≤ 1
new_unique n xs k free h = elim (Bool-cases (n.id == k)) [
  | inr e ↦ ground (arith, h)
  | inl e ↦ ground (
    arith,
    subst (λ j. count (λ (x : PrivacyRequest). x.id == j) xs ≡ 0) ((==_iff n.id k).0 e)
        (any-false (λ (y : PrivacyRequest). y.id == n.id) xs free),
  )
]

new_single :
    (n : PrivacyRequest) (xs : List PrivacyRequest) (a : Subject)
    → any (is_active_about (subject_of n)) xs ≡ false
    → count (is_active_about a) xs ≤ 1
    → count (is_active_about a) (n ∷ xs) ≤ 1
new_single n xs a free h = elim (Bool-cases (is_about a n)) [
  | inr e ↦ ground (arith, h)
  | inl e ↦ ground (
    arith,
    subst (λ b. count (is_active_about b) xs ≡ 0) (about-eq a n e)
        (any-false (is_active_about (subject_of n)) xs free),
  )
]

pub new-IsValid :
    (n : PrivacyRequest) (s : Store)
    → is_taken n s ≡ false
    → IsValid s.requests
    → IsValid (n ∷ s.requests)
new-IsValid n s free v = record {
  unique_ids = λ k. new_unique n s.requests k (ground (arith, free)) (v.unique_ids k);
  single = λ a. new_single n s.requests a (ground (arith, free)) (v.single a);
}

pub claim-IsValid :
    (limit : ℕ) (now : Time) (s : Store)
    → IsValid s.requests
    → IsValid (claim limit now s).1.requests
unfolding claim
claim-IsValid limit now s v = record {
  unique_ids = λ k. omega (
    arith,
    v.unique_ids k,
    count-unseen (λ (z : PrivacyRequest). z.id == k)
        (λ z. is_due now z && is_among (claimed_ids limit now s) z.id) (lease now) s.requests
        (λ z h. refl),
  );
  single = λ a. omega (
    arith,
    v.single a,
    count-unseen (is_active_about a) (λ z. is_due now z && is_among (claimed_ids limit now s) z.id)
        (lease now) s.requests (λ z h. ground (arith, h)),
  );
}

count-fewer :
    (p q : PrivacyRequest → Bool) (f : PrivacyRequest → PrivacyRequest) (xs : List PrivacyRequest)
    → ((z : PrivacyRequest) → p (f z) ≡ false)
    → count p (update_where q f xs) ≤ count p xs
count-fewer p q f [] shut = omega arith
count-fewer p q f (x ∷ xs) shut = ground (arith, count-fewer p q f xs shut, shut x)

-- A change of rows that leaves them ended.
pub ended-IsValid :
    (k : ℕ) (f : PrivacyRequest → PrivacyRequest) (s : Store)
    → ((z : PrivacyRequest) → (f z).id ≡ z.id)
    → ((z : PrivacyRequest) → is_active (f z).status ≡ false)
    → IsValid s.requests
    → IsValid (change_request k f s).requests
ended-IsValid k f s same_id ended v = record {
  unique_ids = λ j. ground (
    arith,
    v.unique_ids j,
    count-unseen (λ (z : PrivacyRequest). z.id == j) (λ z. z.id == k) f s.requests
        (λ z _. ground (arith, same_id z)),
  );
  single = λ a. omega (
    arith,
    v.single a,
    count-fewer (is_active_about a) (λ z. z.id == k) f s.requests (λ z. ground (arith, ended z)),
  );
}

-- A change of one row after which it has no twin, as an active request.
pub untwinned-IsValid :
    (x : PrivacyRequest) (f : PrivacyRequest → PrivacyRequest) (s : Store)
    → ((z : PrivacyRequest) → (f z).id ≡ z.id)
    → ((a : Subject) (z : PrivacyRequest) → is_about a (f z) ≡ is_about a z)
    → request_by_id x.id s ≡ some x
    → count (is_active_about (subject_of x)) (change_request x.id f s).requests ≤ 1
    → IsValid s.requests
    → IsValid (change_request x.id f s).requests
untwinned-IsValid x f s same_id same_subject h alone v = record {
  unique_ids = λ k. ground (
    arith,
    v.unique_ids k,
    count-unseen (λ (z : PrivacyRequest). z.id == k) (λ z. z.id == x.id) f s.requests
        (λ z _. ground (arith, same_id z)),
  );
  single = λ a. elim (Bool-cases (is_about a x)) [
    | inl e ↦
        subst (λ b. count (is_active_about b) (change_request x.id f s).requests ≤ 1)
          (about-eq a x e) alone
    | inr e ↦ ground (
      arith,
      e,
      v.single a,
      same_subject a x,
      count-update (λ (z : PrivacyRequest). z.id) x.id (is_active_about a) f x s.requests h
          (v.unique_ids x.id),
    )
  ];
}
