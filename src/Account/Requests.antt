-- ===== src/Account/Requests.antt =====
-- Requests on tokens keep them single, and a reset of a password spends them.
use visi_on_route.Prelude.{
  Bool, List, Option, String, Time, [], arith, count, is_none, none, refl, some, subst, sym, ℕ,
  ◌||◌, ◌∷◌, ◌≡◌, ◌≤◌,
}
use visi_on_route.Identity.Store.{Store, User, Purpose, Message}
use visi_on_route.Account.Base.{
  Security, Draw, audit_user, save_user, add_message, enqueue, notify, revoke_all_sessions,
  security_notice,
}
use visi_on_route.Account.Single.{
  HasSingleTokens, issue_token-Keeps, invalidate-HasSingleTokens, use-HasSingleTokens,
}
use visi_on_route.Tx.{
  Keeps, Keeps-modify, keeps_rules, Error, modify, query, Keeps-bind, request, request-Keeps,
  raise_unless, Keeps-raise_unless,
}
use visi_on_route.Access.Context.{RequestContext}
use visi_on_route.Account.Tokens.{
  consume_token, mark_verified, request_password_reset, resend_email_verification, reset_password,
  send_reset, set_password, verify_email, invalidate_tokens, is_unused, send_email_verification,
  send_reset_to, use_token,
}

-- What leaves the tokens as they are keeps them single.
quiet-Keeps :
    (f : Store → Store) → ((s : Store) → (f s).tokens ≡ s.tokens) → Keeps HasSingleTokens (modify f)
quiet-Keeps f e =
    Keeps-modify f (λ s h k p. subst (λ xs. count (is_unused k p) xs ≤ 1) (sym (e s)) (h k p))

enqueue-Keeps : (b : Bool) (m : Message) → Keeps HasSingleTokens (enqueue b m)
unfolding enqueue
enqueue-Keeps b m =
    Keeps-bind (raise_unless (is_none m.secret || b) Error.service_not_configured)
      (λ _. modify (add_message m))
      (Keeps-raise_unless (is_none m.secret || b) Error.service_not_configured)
      (λ _. quiet-Keeps (add_message m) added)
  where
    added : (s : Store) → (add_message m s).tokens ≡ s.tokens
    added s = ground arith

notify-Keeps : (sec : Security) (u : User) → Keeps HasSingleTokens (notify sec u)
unfolding notify
notify-Keeps sec u = enqueue-Keeps sec.has_cipher (security_notice u)

audit-Keeps :
    (ctx : RequestContext) (action : String) (u : User)
    → Keeps HasSingleTokens (modify (audit_user ctx action u))
audit-Keeps ctx action u = quiet-Keeps (audit_user ctx action u) (λ s. refl)

save-Keeps : (u : User) → Keeps HasSingleTokens (modify (save_user u))
save-Keeps u = quiet-Keeps (save_user u) (λ s. refl)

revoke-Keeps : (k : ℕ) (now : Time) → Keeps HasSingleTokens (modify (revoke_all_sessions k now))
unfolding revoke_all_sessions
revoke-Keeps k now = quiet-Keeps (revoke_all_sessions k now) (λ s. refl)

invalidate-Keeps :
    (k : ℕ) (p : Purpose) (now : Time) → Keeps HasSingleTokens (modify (invalidate_tokens k p now))
invalidate-Keeps k p now =
    Keeps-modify (invalidate_tokens k p now) (invalidate-HasSingleTokens k p now)

use-Keeps : (k : ℕ) (now : Time) → Keeps HasSingleTokens (modify (use_token k now))
use-Keeps k now = Keeps-modify (use_token k now) (use-HasSingleTokens k now)

query-Keeps :
    {A : Type 0} (look : Store → Option A) (e : Error) → Keeps HasSingleTokens (query look e)
query-Keeps look e = record { at = λ tx h. ground (arith, h) }

ruleset token_rules = (
  keeps_rules, enqueue-Keeps, notify-Keeps, audit-Keeps, save-Keeps, revoke-Keeps, invalidate-Keeps,
  use-Keeps, query-Keeps, issue_token-Keeps,
)

send_reset_to-Keeps :
    (sec : Security) (ctx : RequestContext) (d : Draw) (o : Option User)
    → Keeps HasSingleTokens (send_reset_to sec ctx d o)
unfolding send_reset
send_reset_to-Keeps sec ctx d none = search token_rules depth 8
send_reset_to-Keeps sec ctx d (some u) = search token_rules depth 8

request_reset-Keeps :
    (sec : Security) (ctx : RequestContext) (d : Draw) (email : String)
    → Keeps HasSingleTokens (request_password_reset sec ctx d email)
unfolding request_password_reset
request_reset-Keeps sec ctx d email = search (token_rules, send_reset_to-Keeps) depth 8

consume-Keeps :
    (sec : Security) (token : ℕ) (p : Purpose) (now : Time)
    → Keeps HasSingleTokens (consume_token sec token p now)
unfolding consume_token
consume-Keeps sec token p now = search token_rules depth 8

set_password-Keeps :
    (sec : Security) (ctx : RequestContext) (now : Time) (password : String) (u : User)
    → Keeps HasSingleTokens (set_password sec ctx now password u)
unfolding set_password
set_password-Keeps sec ctx now password u = search token_rules depth 10

reset_password-Keeps :
    (sec : Security) (ctx : RequestContext) (now : Time) (token : ℕ) (password : String)
    → Keeps HasSingleTokens (reset_password sec ctx now token password)
unfolding reset_password
reset_password-Keeps sec ctx now token password =
    search (token_rules, consume-Keeps, set_password-Keeps) depth 8

resend-Keeps :
    (sec : Security) (ctx : RequestContext) (d : Draw) (user_id : ℕ)
    → Keeps HasSingleTokens (resend_email_verification sec ctx d user_id)
unfolding resend_email_verification send_email_verification
resend-Keeps sec ctx d user_id = search token_rules depth 10

mark_verified-Keeps :
    (ctx : RequestContext) (now : Time) (u : User) → Keeps HasSingleTokens (mark_verified ctx now u)
unfolding mark_verified
mark_verified-Keeps ctx now u = search token_rules depth 10

verify_email-Keeps :
    (sec : Security) (ctx : RequestContext) (now : Time) (token : ℕ)
    → Keeps HasSingleTokens (verify_email sec ctx now token)
unfolding verify_email
verify_email-Keeps sec ctx now token =
    search (token_rules, consume-Keeps, mark_verified-Keeps) depth 8

-- The requests that issue or consume tokens.
pub data Request : Type 0 where
  forgot : RequestContext → Draw → String → Request
  reset : RequestContext → Time → ℕ → String → Request
  resend : RequestContext → Draw → ℕ → Request
  verify : RequestContext → Time → ℕ → Request

-- The store after a request.
unfoldable pub answer : Security → Request → Store → Store
answer sec (Request.forgot ctx d email) s = (request (request_password_reset sec ctx d email) s).1
answer sec (Request.reset ctx now token password) s =
    (request (reset_password sec ctx now token password) s).1
answer sec (Request.resend ctx d user_id) s =
    (request (resend_email_verification sec ctx d user_id) s).1
answer sec (Request.verify ctx now token) s = (request (verify_email sec ctx now token) s).1

abbrev pub answer_all : Security → List Request → Store → Store
answer_all sec [] s = s
answer_all sec (r ∷ rs) s = answer_all sec rs (answer sec r s)

answer-HasSingleTokens :
    (sec : Security) (r : Request) (s : Store)
    → HasSingleTokens s
    → HasSingleTokens (answer sec r s)
unfolding answer
answer-HasSingleTokens sec (Request.forgot ctx d email) s h =
    request-Keeps {P = HasSingleTokens} (request_password_reset sec ctx d email) s
      (request_reset-Keeps sec ctx d email) h
answer-HasSingleTokens sec (Request.reset ctx now token password) s h =
    request-Keeps {P = HasSingleTokens} (reset_password sec ctx now token password) s
      (reset_password-Keeps sec ctx now token password) h
answer-HasSingleTokens sec (Request.resend ctx d user_id) s h =
    request-Keeps {P = HasSingleTokens} (resend_email_verification sec ctx d user_id) s
      (resend-Keeps sec ctx d user_id) h
answer-HasSingleTokens sec (Request.verify ctx now token) s h =
    request-Keeps {P = HasSingleTokens} (verify_email sec ctx now token) s
      (verify_email-Keeps sec ctx now token) h

-- Requests for password resets and verification links, and the use of such links, succeed or fail,
-- never leave an account with two unused tokens for one purpose, if none had two before.
pub answer_all-HasSingleTokens :
    (sec : Security) (rs : List Request) (s : Store)
    → HasSingleTokens s
    → HasSingleTokens (answer_all sec rs s)
answer_all-HasSingleTokens sec [] s h = h
answer_all-HasSingleTokens sec (r ∷ rs) s h =
    answer_all-HasSingleTokens sec rs (answer sec r s) (answer-HasSingleTokens sec r s h)
