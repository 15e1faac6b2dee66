-- ===== src/Identity/Requests.antt =====
-- Sequences of requests on sessions, each in its own transaction.
use visi_on_route.Prelude.{List, Option, Time, [], count, false, ltb, none, some, true, ℕ, ◌∷◌, ◌≡◌}
use visi_on_route.Tx.{
  Triple, Triple-bind, Triple-query, Triple-gets, Triple-pure, Triple-raise_unless, Keeps,
  Keeps-bind, Keeps-pure, request, Keeps-query, gets, modify, Action, Error, Keeps-gets,
  Keeps-modify, ◌>>◌, ◌>>=◌, pure, query, raise_unless,
}
use visi_on_route.Identity.Store.{Store, Session, User, Membership, add_audit}
use visi_on_route.Identity.Families.{IsValid}
use visi_on_route.Identity.Rotating.{IsReady, IsStored, token-IsStored}
use visi_on_route.Identity.Sessions.{
  Service, end_session, in_family, logout, Draw, start_session, AuthenticatedUser, by_token,
  revoke_family, first_membership,
}
use visi_on_route.Identity.Rotation.{
  rotate_refresh_token, rotate_session, succeed, active_user, check_reuse,
}
use visi_on_route.Access.Context.{RequestContext}
use visi_on_route.Audit.{record_audit}
use visi_on_route.Identity.Closing.{revoke_family-IsValid}
use visi_on_route.Identity.Rotated.{audit-Keeps, check_reuse-Triple}
use visi_on_route.Identity.Succession.{succeed-Triple}

rotate_session-Triple :
    (svc : Service) (ctx : RequestContext) (d : Draw) (x : Session)
    → Triple IsValid (IsStored x) (rotate_session svc ctx d x) (λ _ _. Unit {0})
unfolding rotate_session
rotate_session-Triple svc ctx d x =
    Triple-bind {Mid = λ _. IsReady x} (check_reuse svc ctx d.now x) (λ _. rest)
      (check_reuse-Triple svc ctx d.now x)
      (λ _.
        Triple-bind {Mid = λ _ s. IsReady x s × (ltb d.now x.expires_at ≡ true)}
          (raise_unless (ltb d.now x.expires_at) Error.invalid_credentials) (λ _. look_up_user)
          (Triple-raise_unless (ltb d.now x.expires_at) Error.invalid_credentials)
          (λ _.
            Triple-bind
              {Mid = λ u s.
                (IsReady x s × (ltb d.now x.expires_at ≡ true))
                × (active_user x.user_id s ≡ some u)}
              (query (active_user x.user_id) Error.invalid_credentials) finish
              (Triple-query (active_user x.user_id) Error.invalid_credentials) finish-Triple))
  where
    answer : User → Option Membership → AuthenticatedUser
    answer u m = record {
      user = u;
      membership = m;
      refresh_token_cleartext = d.token;
      session_id = d.session_id;
    }

    finish : User → Action Store AuthenticatedUser
    finish u =
        succeed svc d x
        >> (gets (λ s. first_membership u.id s.memberships) >>= λ m. pure (answer u m))

    look_up_user : Action Store AuthenticatedUser
    look_up_user = query (active_user x.user_id) Error.invalid_credentials >>= finish

    rest : Action Store AuthenticatedUser
    rest = raise_unless (ltb d.now x.expires_at) Error.invalid_credentials >> look_up_user

    finish-Triple :
        (u : User)
        → Triple IsValid
            (λ s.
              (IsReady x s × (ltb d.now x.expires_at ≡ true)) × (active_user x.user_id s ≡ some u))
            (finish u)
            (λ _ _. Unit {0})
    finish-Triple u =
        Triple-bind {Mid = λ _ _. Unit {0}} (succeed svc d x)
          (λ _. gets (λ s. first_membership u.id s.memberships) >>= λ m. pure (answer u m))
          (record {
            keeps = λ tx h p. (succeed-Triple svc d x).keeps tx h p.0.0;
            gives = λ tx h p. (succeed-Triple svc d x).gives tx h p.0.0;
          })
          (λ _.
            Triple-bind (gets (λ s. first_membership u.id s.memberships)) (λ m. pure (answer u m))
              (Triple-gets (λ s. first_membership u.id s.memberships))
              (λ m. Triple-pure (answer u m) (λ s p. tt)))

pub rotate_refresh_token-Keeps :
    (svc : Service) (ctx : RequestContext) (d : Draw) (token : ℕ)
    → Keeps IsValid (rotate_refresh_token svc ctx d token)
unfolding rotate_refresh_token
rotate_refresh_token-Keeps svc ctx d token =
    Keeps-query (by_token svc token) Error.invalid_credentials (rotate_session svc ctx d)
      (λ tx x e h.
        (rotate_session-Triple svc ctx d x).keeps tx h
          (token-IsStored svc token x tx.current h.current e))

end_session-Keeps :
    (ctx : RequestContext) (now : Time) (o : Option Session) → Keeps IsValid (end_session ctx now o)
unfolding end_session
end_session-Keeps ctx now none = Keeps-pure tt
end_session-Keeps ctx now (some x) =
    Keeps-bind (modify (revoke_family x.family_id false now))
      (λ _. modify (add_audit (record_audit ctx none "auth.logout" x.id)))
      (Keeps-modify (revoke_family x.family_id false now)
        (revoke_family-IsValid x.family_id false now))
      (λ _. audit-Keeps (record_audit ctx none "auth.logout" x.id))

pub logout-Keeps :
    (svc : Service) (ctx : RequestContext) (now : Time) (token : ℕ)
    → Keeps IsValid (logout svc ctx now token)
unfolding logout
logout-Keeps svc ctx now token =
    Keeps-bind (gets (by_token svc token)) (end_session ctx now) (Keeps-gets (by_token svc token))
      (end_session-Keeps ctx now)

-- The requests on sessions, with what each reads and draws.
pub data Request : Type 0 where
  login : RequestContext → Draw → User → Option Membership → Request
  rotate : RequestContext → Draw → ℕ → Request
  log_out : RequestContext → Time → ℕ → Request

-- The store after a request.
unfoldable pub answer_request : Service → Request → Store → Store
answer_request svc (Request.login ctx d u m) s = (request (start_session svc ctx d u m) s).1
answer_request svc (Request.rotate ctx d token) s =
    (request (rotate_refresh_token svc ctx d token) s).1
answer_request svc (Request.log_out ctx now token) s = (request (logout svc ctx now token) s).1

abbrev pub answer_requests : Service → List Request → Store → Store
answer_requests svc [] s = s
answer_requests svc (r ∷ rs) s = answer_requests svc rs (answer_request svc r s)

-- `uuid7()` draws a family that no stored session has.
abbrev pub HasNewFamily : Request → Store → Type 0
HasNewFamily (Request.login ctx d u m) s = count (in_family d.family_id) s.sessions ≡ 0
HasNewFamily _ s = Unit {0}

abbrev pub HaveNewFamilies : Service → List Request → Store → Type 0
HaveNewFamilies svc [] s = Unit {0}
HaveNewFamilies svc (r ∷ rs) s = HasNewFamily r s × HaveNewFamilies svc rs (answer_request svc r s)
