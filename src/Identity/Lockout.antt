-- ===== src/Identity/Lockout.antt =====
-- Failed attempts lock an account.
use visi_on_route.Prelude.{
  Bool, List, String, Time, [], ap, arith, false, find, find-unseen, length, minutes, none, not,
  refl, some, str_eq, subst, true, ℕ, ◌&&◌, ◌+◌, ◌<◌, ◌==◌, ◌∙◌, ◌∷◌, ◌≡◌, ◌≤◌,
}
use visi_on_route.Identity.Store.{Store, User}
use visi_on_route.Identity.Login.{
  Logins, authenticate, fail, user_by_email, change_user, reject, has_email, is_locked, attempt,
  attempt_all, audit_lock, found_user, reaches_limit,
}
use visi_on_route.Access.Context.{RequestContext}
use visi_on_route.Tx.{request, err, Error}

module _ (l : Logins) (ctx : RequestContext) (email : String) where
  -- Every password of the attempts is wrong.
  abbrev pub all_wrong : ℕ → List (Time × String) → Bool
  all_wrong digest [] = true
  all_wrong digest ((now, password) ∷ rest) =
      not (l.verify_password digest password) && all_wrong digest rest

  -- The row of the account, where it may log in.
  pub record IsAccount (u : User) (s : Store) : Type 0 where
    pub found : user_by_email l email s ≡ some u
    pub active : u.is_active ≡ true

  user_after :
      (u : User) (f : User → User) (s : Store)
      → ((x : User) → (f x).email ≡ x.email)
      → user_by_email l email s ≡ some u
      → user_by_email l email (change_user u.id f s) ≡ some (f u)
  user_after u f s e h = ground (
    arith,
    h,
    find-unseen (has_email l email) (λ x. x.id == u.id) f s.users
        (λ x. ap (λ t. str_eq (l.database_lower t) (l.lower (l.text.strip email))) (e x)),
  )

  fail-email : (now : Time) (x : User) → (fail now x).email ≡ x.email
  fail-email now x = ground arith

  found_user-IsAccount : (u : User) (s : Store) → IsAccount u s → found_user l email s ≡ some u
  found_user-IsAccount u s a = ground (arith, a.found, a.active)

  -- A wrong password is recorded, and its record survives the rollback.
  rejected :
      (u : User) (s : Store) (now : Time) (password : String)
      → IsAccount u s
      → is_locked now u ≡ false
      → l.verify_password u.password_hash password ≡ false
      → attempt l ctx email (now, password) s ≡ audit_lock ctx u (change_user u.id (fail now) s)
  unfolding authenticate reject
  rejected u s now password a unlocked wrong = ground (arith, found_user-IsAccount u s a)

  audit_lock-users : (u : User) (s : Store) → (audit_lock ctx u s).users ≡ s.users
  audit_lock-users u s = ground arith

  wrong-attempt :
      (u : User) (s : Store) (now : Time) (password : String)
      → IsAccount u s
      → is_locked now u ≡ false
      → l.verify_password u.password_hash password ≡ false
      → IsAccount (fail now u) (attempt l ctx email (now, password) s)
  wrong-attempt u s now password a unlocked wrong = record {
    found =
        ap (user_by_email l email) (rejected u s now password a unlocked wrong)
        ∙ ap (find (has_email l email)) (audit_lock-users u (change_user u.id (fail now) s))
        ∙ user_after u (fail now) s (fail-email now) a.found;
    active = ground (arith, a.active);
  }

  -- Attempts that do not reach the limit only count.
  failures-count :
      (u : User) (s : Store) (attempts : List (Time × String))
      → IsAccount u s
      → u.locked_until ≡ none
      → all_wrong u.password_hash attempts ≡ true
      → u.failed_login_count + length attempts ≤ 9
      → IsAccount
          (record u { failed_login_count = u.failed_login_count + length attempts })
          (attempt_all l ctx email attempts s)
  failures-count u s [] a free wrong few =
      subst (λ n. IsAccount (record u { failed_login_count = n }) s) (omega arith) a
  failures-count u s ((now, password) ∷ rest) a free wrong few =
      subst (λ n. IsAccount (record u { failed_login_count = n }) (attempt_all l ctx email rest s'))
        (omega arith)
        (failures-count v s' rest next free (ground (arith, wrong)) (omega (arith, few)))
    where
      s' : Store
      s' = attempt l ctx email (now, password) s

      v : User
      v = record u { failed_login_count = u.failed_login_count + 1 }

      few_yet : reaches_limit u ≡ false
      few_yet = ground (arith, few)

      same_row : fail now u ≡ v
      same_row = rw few_yet refl

      next : IsAccount v s'
      next =
          subst (λ w. IsAccount w s') same_row
            (wrong-attempt u s now password a (rw free refl) (ground (arith, wrong)))

  -- While an account is locked, no attempt succeeds and none changes the store.
  locked-attempt :
      (u : User) (s : Store) (now : Time) (password : String)
      → IsAccount u s
      → is_locked now u ≡ true
      → request (authenticate l ctx now email password) s ≡ (err Error.account_locked, s)
  unfolding authenticate
  locked-attempt u s now password a locked = ground (arith, found_user-IsAccount u s a, locked)

  -- Ten consecutive wrong passwords lock an active account that has no failures and no lock
  -- before: until fifteen minutes after the tenth, an attempt is refused as locked and changes
  -- nothing, even with the right password.
  pub ten_failures_lock :
      (u : User) (s : Store) (attempts : List (Time × String)) (last later : Time)
      (wrong password : String)
      → IsAccount u s
      → u.locked_until ≡ none
      → u.failed_login_count ≡ 0
      → length attempts ≡ 9
      → all_wrong u.password_hash attempts ≡ true
      → l.verify_password u.password_hash wrong ≡ false
      → later < last + minutes 15
      → (let s' = attempt l ctx email (last, wrong) (attempt_all l ctx email attempts s) in
          request (authenticate l ctx later email password) s' ≡ (err Error.account_locked, s'))
  ten_failures_lock u s attempts last later wrong password a free fresh nine all_wrong_h wrong_h
        soon =
      locked-attempt (fail last v) s'' later password
        (wrong-attempt v s' last wrong counted (rw free refl) wrong_h)
        (ground (arith, fresh, nine, soon))
    where
      s' : Store
      s' = attempt_all l ctx email attempts s

      v : User
      v = record u { failed_login_count = u.failed_login_count + length attempts }

      s'' : Store
      s'' = attempt l ctx email (last, wrong) s'

      counted : IsAccount v s'
      counted = failures-count u s attempts a free all_wrong_h (omega (arith, fresh, nine))
