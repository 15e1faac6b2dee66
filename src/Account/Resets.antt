-- ===== src/Account/Resets.antt =====
-- What a reset of a password leaves behind.
use visi_on_route.Prelude.{
  List, String, Time, [], arith, count, find, find-unseen, none, refl, some, subst, sym, true,
  update_where, ℕ, ◌==◌, ◌∷◌, ◌≡◌,
}
use visi_on_route.Identity.Store.{Store, User, UserToken, Purpose, Session}
use visi_on_route.Account.Base.{
  Security, audit_user, save_user, add_message, enqueue, notify, revoke_all_sessions, is_open_of,
  close_session, security_notice, active_user,
}
use visi_on_route.Tx.{request, ok, err, Error, Result}
use visi_on_route.Access.Context.{RequestContext}
use visi_on_route.Account.Tokens.{
  reset_password, use_token, consume_token, invalidate_tokens, usable_token, set_password,
  with_password, is_unused, is_token, use_at,
}
use visi_on_route.Account.Passwords.{is_acceptable}
use visi_on_route.Account.Single.{none_unused}

closed-sessions :
    (k : ℕ) (now : Time) (xs : List Session)
    → count (is_open_of k) (update_where (is_open_of k) (close_session now) xs) ≡ 0
closed-sessions k now [] = refl
closed-sessions k now (x ∷ xs) = ground (arith, closed-sessions k now xs)

module _ (sec : Security) (ctx : RequestContext) (now : Time) (token : ℕ) (password : String)
    (s : Store) (t : UserToken) (u : User) where
  -- The link is good, and its account active.
  pub record IsGoodLink : Type 0 where
    pub acceptable : is_acceptable sec.password_text password ≡ true
    pub found : usable_token sec token Purpose.password_reset now s ≡ some t
    pub account : active_user t.user_id s ≡ some u

  used : Store
  used = use_token t.id now s

  -- The store that the reset leaves, with its notice and its audit
  after_reset : Store
  after_reset = add_message (security_notice u) (
      audit_user ctx "auth.password_reset_completed" u (
        revoke_all_sessions u.id now (
          invalidate_tokens u.id Purpose.password_reset now
            (save_user (with_password sec now password u) used))))

  reset_runs :
      IsGoodLink
      → request (reset_password sec ctx now token password) s ≡ (
        ok (record (with_password sec now password u) { sessions_revoked_at = some now }),
        after_reset,
      )
  unfolding reset_password consume_token set_password notify enqueue after_reset used
  reset_runs g = ground (arith, g.acceptable, g.found, g.account)

  tokens_left :
      after_reset.tokens
      ≡ update_where
          (is_unused u.id Purpose.password_reset)
          (use_at now)
          (update_where (λ (x : UserToken). x.id == t.id) (use_at now) s.tokens)
  unfolding after_reset used invalidate_tokens revoke_all_sessions
  tokens_left = ground arith

  sessions_left :
      after_reset.sessions ≡ update_where (is_open_of u.id) (close_session now) s.sessions
  unfolding after_reset used invalidate_tokens revoke_all_sessions
  sessions_left = ground arith

  stored_link : IsGoodLink → find (is_token sec token Purpose.password_reset) s.tokens ≡ some t
  stored_link g = ground (arith, g.found)

  used_link :
      IsGoodLink
      → find
          (is_token sec token Purpose.password_reset)
          (update_where (λ (x : UserToken). x.id == t.id) (use_at now) s.tokens)
        ≡ some (use_at now t)
  used_link g = ground (
    arith,
    stored_link g,
    find-unseen (is_token sec token Purpose.password_reset) (λ x. x.id == t.id) (use_at now)
        s.tokens (λ x. refl),
  )

  -- The stored row of the link, once it is used.
  spent_link :
      IsGoodLink
      → (later : Time) → usable_token sec token Purpose.password_reset later after_reset ≡ none
  spent_link g later = ground (
    arith,
    tokens_left,
    used_link g,
    find-unseen (is_token sec token Purpose.password_reset) (is_unused u.id Purpose.password_reset)
        (use_at now) (update_where (λ (x : UserToken). x.id == t.id) (use_at now) s.tokens)
        (λ x. refl),
  )

  refused_again :
      IsGoodLink
      → (later : Time) (again : String) → is_acceptable sec.password_text again ≡ true
      → request (reset_password sec ctx later token again) after_reset
        ≡ (err Error.invalid_account_token, after_reset)
  unfolding reset_password consume_token
  refused_again g later again good = ground (arith, spent_link g later)

  -- The account is changed, the links and sessions are closed, and the link is refused again.
  pub record IsSpent (later : Time) (again : String) (r : Result User × Store) : Type 0 where
    pub account :
        r.0 ≡ ok (record (with_password sec now password u) { sessions_revoked_at = some now })
    pub no_link : count (is_unused u.id Purpose.password_reset) r.1.tokens ≡ 0
    pub no_session : count (is_open_of u.id) r.1.sessions ≡ 0
    pub refused :
        request (reset_password sec ctx later token again) r.1
        ≡ (err Error.invalid_account_token, r.1)

  no_link_left : count (is_unused u.id Purpose.password_reset) after_reset.tokens ≡ 0
  no_link_left =
      subst (λ xs. count (is_unused u.id Purpose.password_reset) xs ≡ 0) (sym tokens_left)
        (none_unused u.id Purpose.password_reset now
          (update_where (λ (x : UserToken). x.id == t.id) (use_at now) s.tokens))

  no_session_left : count (is_open_of u.id) after_reset.sessions ≡ 0
  no_session_left =
      subst (λ xs. count (is_open_of u.id) xs ≡ 0) (sym sessions_left)
        (closed-sessions u.id now s.sessions)

  -- A reset of a password by a good link succeeds and spends it: the account keeps no unused reset
  -- link and no open session, and the same link is refused from then on, whatever acceptable
  -- password comes with it, and changes nothing more.
  pub reset_password-spends :
      (g : IsGoodLink) (later : Time) (again : String)
      → is_acceptable sec.password_text again ≡ true
      → IsSpent later again (request (reset_password sec ctx now token password) s)
  reset_password-spends g later again good =
      subst (IsSpent later again) (sym (reset_runs g)) (record {
        account = refl;
        no_link = no_link_left;
        no_session = no_session_left;
        refused = refused_again g later again good;
      })
