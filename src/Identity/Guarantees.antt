-- ===== src/Identity/Guarantees.antt =====
-- What the session requests guarantee.
use visi_on_route.Prelude.{
  Bool, List, Option, Time, [], arith, count, count_mono, false, none, not, refl, some, true, ℕ,
  ◌∷◌, ◌≡◌,
}
use visi_on_route.Tx.{
  Triple, Triple-bind, Triple-modify, Triple-gets, Triple-pure, Triple-raise_unless, Holds, Action,
  request, Tx, request-Keeps, Result, ok, err, raise_unless, Error, ◌>>◌, modify, pure, gets,
}
use visi_on_route.Identity.Store.{Store, Session, User, Membership, add_audit}
use visi_on_route.Identity.Families.{IsValid, open_in, add-IsValid}
use visi_on_route.Identity.Requests.{
  Request, HaveNewFamilies, HasNewFamily, answer_request, answer_requests,
  rotate_refresh_token-Keeps, logout-Keeps,
}
use visi_on_route.Identity.Sessions.{
  Service, logout, end_session, start_session, Draw, by_token, add_session, fresh_session,
  in_family, is_taken, is_open, put_session, organization_of, AuthenticatedUser,
}
use visi_on_route.Identity.Rotation.{
  rotate_refresh_token, rotate_session, check_reuse, raise_alarm, unused_successor,
}
use visi_on_route.Access.Context.{RequestContext}
use visi_on_route.Audit.{AuditLog, record_audit}
use visi_on_route.Identity.Closing.{revoke_family-closes}
use visi_on_route.Identity.Rotating.{audit-IsValid}

module _ (svc : Service) (ctx : RequestContext) (d : Draw) (u : User) (m : Option Membership) where
  abbrev x : Session
  x = fresh_session svc ctx d u m

  abbrev IsUnused : Store → Type 0
  IsUnused s = count (in_family d.family_id) s.sessions ≡ 0

  fresh-IsValid :
      (s : Store) → is_taken x s ≡ false → IsUnused s → IsValid s → IsValid (put_session x s)
  unfolding fresh_session
  fresh-IsValid s free e v =
      add-IsValid x s free refl
        (ground (
          arith,
          count_mono (open_in d.family_id) (in_family d.family_id) s.sessions (λ y h. ground arith),
        ))
        v

  add_new-Triple :
      (taken : Bool)
      → Triple IsValid
          (λ s. IsUnused s × (is_taken x s ≡ taken))
          (raise_unless (not taken) Error.integrity_error >> modify (put_session x))
          (λ _ _. Unit {0})
  add_new-Triple taken =
      Triple-bind {Mid = λ _ s. (IsUnused s × (is_taken x s ≡ taken)) × (not taken ≡ true)}
        (raise_unless (not taken) Error.integrity_error) (λ _. modify (put_session x))
        (Triple-raise_unless (not taken) Error.integrity_error)
        (λ _.
          Triple-modify {Post = λ _. Unit {0}} (put_session x)
            (λ s v p. fresh-IsValid s (ground (arith, p.0.1, p.1)) p.0.0 v) (λ s v p. tt))

  start_session-Triple : Triple IsValid IsUnused (start_session svc ctx d u m) (λ _ _. Unit {0})
  unfolding start_session add_session
  start_session-Triple =
      Triple-bind {Mid = λ _ _. Unit {0}} (add_session x)
        (λ _. modify (add_audit entry) >> pure answer)
        (Triple-bind (gets (is_taken x))
          (λ taken. raise_unless (not taken) Error.integrity_error >> modify (put_session x))
          (Triple-gets (is_taken x)) add_new-Triple)
        (λ _.
          Triple-bind {Mid = λ _ _. Unit {0}} (modify (add_audit entry)) (λ _. pure answer)
            (Triple-modify {Post = λ _. Unit {0}} (add_audit entry)
              (λ s v p. audit-IsValid entry s v) (λ s v p. tt))
            (λ _. Triple-pure answer (λ s p. tt)))
    where
      entry : AuditLog
      entry = record_audit ctx (organization_of m) "auth.login" u.id

      answer : AuthenticatedUser
      answer = record {
        user = u;
        membership = m;
        refresh_token_cleartext = d.token;
        session_id = x.id;
      }

-- A request whose action keeps the invariant from a store that meets its condition.
request-Triple :
    {A : Type 0} {P Pre : Store → Type 0} {Post : A → Store → Type 0} (m : Action Store A)
    (s : Store)
    → Triple P Pre m Post
    → Pre s
    → P s
    → P (request m s).1
request-Triple {A} {P} m s t p h =
    finish (m start).0 (m start).1 (t.keeps start (record { durable = h; current = h }) p)
  where
    start : Tx Store
    start = record { durable = s; current = s }

    finish :
        (r : Result A) (tx : Tx Store)
        → Holds P tx
        → P
            (elim r as (λ _. Result A × Store) [
              | ok a ↦ (ok a, tx.current)
              | err e ↦ (err e, tx.durable)
            ]).1
    finish (ok a) tx h = h.current
    finish (err e) tx h = h.durable

answer_request-IsValid :
    (svc : Service) (r : Request) (s : Store)
    → HasNewFamily r s
    → IsValid s
    → IsValid (answer_request svc r s)
unfolding answer_request
answer_request-IsValid svc (Request.login ctx d u m) s new v =
    request-Triple (start_session svc ctx d u m) s (start_session-Triple svc ctx d u m) new v
answer_request-IsValid svc (Request.rotate ctx d token) s new v =
    request-Keeps (rotate_refresh_token svc ctx d token) s
      (rotate_refresh_token-Keeps svc ctx d token) v
answer_request-IsValid svc (Request.log_out ctx now token) s new v =
    request-Keeps (logout svc ctx now token) s (logout-Keeps svc ctx now token) v

-- From a store where this holds, logins, token rotations and logouts, however they succeed or
-- fail, leave at most one open session in each rotation family, unique session identifiers, and
-- successors in the family of the session that they replace, if each login draws a family
-- identifier that no stored session has.
pub answer_requests-IsValid :
    (svc : Service) (rs : List Request) (s : Store)
    → HaveNewFamilies svc rs s
    → IsValid s
    → IsValid (answer_requests svc rs s)
answer_requests-IsValid svc [] s new v = v
answer_requests-IsValid svc (r ∷ rs) s new v =
    answer_requests-IsValid svc rs (answer_request svc r s) new.1
      (answer_request-IsValid svc r s new.0 v)

-- Presenting a revoked refresh token that has no unused successor fails with invalid credentials,
-- and the request's rollback does not undo the revocation: no session of the family is open after.
pub rotate-reuse :
    (svc : Service) (ctx : RequestContext) (d : Draw) (token : ℕ) (x : Session) (s : Store)
    → by_token svc token s ≡ some x
    → is_open x ≡ false
    → unused_successor svc ctx d.now x s ≡ none
    → ((request (rotate_refresh_token svc ctx d token) s).0 ≡ err Error.invalid_credentials)
      × (count (open_in x.family_id) (request (rotate_refresh_token svc ctx d token) s).1.sessions
          ≡ 0)
unfolding rotate_refresh_token rotate_session check_reuse raise_alarm
rotate-reuse svc ctx d token x s found closed unused =
    ground (arith, revoke_family-closes x.family_id true d.now s)

-- A logout whose token names a session succeeds, and no session of that family is open after it.
pub logout-closes :
    (svc : Service) (ctx : RequestContext) (now : Time) (token : ℕ) (x : Session) (s : Store)
    → by_token svc token s ≡ some x
    → ((request (logout svc ctx now token) s).0 ≡ ok tt)
      × (count (open_in x.family_id) (request (logout svc ctx now token) s).1.sessions ≡ 0)
unfolding logout end_session
logout-closes svc ctx now token x s found =
    ground (arith, revoke_family-closes x.family_id false now s)
