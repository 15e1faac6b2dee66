-- ===== src/Account/Single.antt =====
-- An account has at most one unused token for each purpose.
use visi_on_route.Prelude.{
  Bool, Bool-cases, List, Time, [], arith, count, count-update_where_le, inl, inr, not, refl, subst,
  true, update_where, ℕ, ◌==◌, ◌∷◌, ◌≡◌, ◌≤◌,
}
use visi_on_route.Identity.Store.{Store, User, UserToken, Purpose}
use visi_on_route.Account.Base.{Security, Draw}
use visi_on_route.Account.Tokens.{
  issue_token, is_taken, invalidate_tokens, is_unused, new_token, same_purpose, use_token,
  put_token, use_at,
}
use visi_on_route.Tx.{
  Triple, Triple-bind, Triple-modify, Triple-gets, Triple-pure, Triple-raise_unless, Triple-after,
  Keeps, Keeps-Triple, Action, modify, raise_unless, Error, pure, ◌>>◌, gets, ◌>>=◌,
}

-- At most one unused token for each account and purpose.
abbrev pub HasSingleTokens : Store → Type 0
HasSingleTokens s = (user_id : ℕ) (p : Purpose) → count (is_unused user_id p) s.tokens ≤ 1

used-fewer :
    (q : UserToken → Bool) (now : Time) (xs : List UserToken) (user_id : ℕ) (p : Purpose)
    → count (is_unused user_id p) (update_where q (use_at now) xs) ≤ count (is_unused user_id p) xs
used-fewer q now xs user_id p =
    count-update_where_le (is_unused user_id p) q (use_at now) xs (λ x h. ground arith)

pub invalidate-HasSingleTokens :
    (k : ℕ) (purpose : Purpose) (now : Time) (s : Store)
    → HasSingleTokens s
    → HasSingleTokens (invalidate_tokens k purpose now s)
unfolding invalidate_tokens
invalidate-HasSingleTokens k purpose now s h user_id p =
    omega (arith, h user_id p, used-fewer (is_unused k purpose) now s.tokens user_id p)

pub use-HasSingleTokens :
    (k : ℕ) (now : Time) (s : Store) → HasSingleTokens s → HasSingleTokens (use_token k now s)
use-HasSingleTokens k now s h user_id p =
    omega (arith, h user_id p, used-fewer (λ (t : UserToken). t.id == k) now s.tokens user_id p)

pub none_unused :
    (k : ℕ) (purpose : Purpose) (now : Time) (xs : List UserToken)
    → count (is_unused k purpose) (update_where (is_unused k purpose) (use_at now) xs) ≡ 0
none_unused k purpose now [] = refl
none_unused k purpose now (x ∷ xs) = ground (arith, none_unused k purpose now xs)

pub invalidate-none :
    (k : ℕ) (purpose : Purpose) (now : Time) (s : Store)
    → count (is_unused k purpose) (invalidate_tokens k purpose now s).tokens ≡ 0
unfolding invalidate_tokens
invalidate-none k purpose now s = none_unused k purpose now s.tokens

same_purpose-eq : (p q : Purpose) → same_purpose p q ≡ true → p ≡ q
same_purpose-eq p q h = ground arith

put-HasSingleTokens :
    (t : UserToken) (s : Store)
    → count (is_unused t.user_id t.purpose) s.tokens ≡ 0
    → HasSingleTokens s
    → HasSingleTokens (put_token t s)
put-HasSingleTokens t s e h user_id p = elim (Bool-cases (is_unused user_id p t)) [
  | inr other ↦ ground (arith, h user_id p)
  | inl same_key ↦ ground (arith, own)
]
  where
    own : is_unused user_id p t ≡ true → count (is_unused user_id p) s.tokens ≡ 0
    own k =
        subst (λ n. count (is_unused n p) s.tokens ≡ 0) (ground arith)
          (subst (λ q. count (is_unused t.user_id q) s.tokens ≡ 0)
            (same_purpose-eq t.purpose p (ground arith)) e)

module _ (sec : Security) (d : Draw) (u : User) (purpose : Purpose) (ttl : Time) where
  t : UserToken
  t = new_token sec d u purpose ttl

  abbrev IsClear : Store → Type 0
  IsClear s = count (is_unused u.id purpose) s.tokens ≡ 0

  store_it : Action Store ℕ
  store_it = modify (put_token t) >> pure d.secret

  put-Triple : Triple HasSingleTokens IsClear store_it (λ _ _. Unit {0})
  unfolding store_it t
  put-Triple =
      Triple-bind {Mid = λ _ _. Unit {0}} (modify (put_token t)) (λ _. pure d.secret)
        (Triple-modify {Post = λ _. Unit {0}} (put_token t) (λ s h e. put-HasSingleTokens t s e h)
          (λ s h e. tt))
        (λ _. Triple-pure d.secret (λ s p. tt))

  pub issue_token-Keeps : Keeps HasSingleTokens (issue_token sec d u purpose ttl)
  unfolding issue_token store_it t
  issue_token-Keeps =
      Keeps-Triple {Pre = λ _. Unit {0}} {Post = λ _ _. Unit {0}} (issue_token sec d u purpose ttl)
        (λ s. tt)
        (Triple-bind {Mid = λ _. IsClear} (modify (invalidate_tokens u.id purpose d.now))
          (λ _. gets (is_taken t) >>= rest)
          (Triple-modify {Post = IsClear} (invalidate_tokens u.id purpose d.now)
            (λ s h _. invalidate-HasSingleTokens u.id purpose d.now s h) (λ s h _. invalidated s))
          (λ _.
            Triple-bind {Mid = λ taken s. IsClear s × (is_taken t s ≡ taken)} (gets (is_taken t))
              rest (Triple-gets (is_taken t))
              (λ taken.
                Triple-bind {Mid = λ _. IsClear} (raise_unless (not taken) Error.integrity_error)
                  (λ _. store_it)
                  (Triple-after (raise_unless (not taken) Error.integrity_error) (λ x s p. p.0.0)
                    (Triple-raise_unless (not taken) Error.integrity_error))
                  (λ _. put-Triple))))
    where
      rest : Bool → Action Store ℕ
      rest taken = raise_unless (not taken) Error.integrity_error >> store_it

      invalidated : (s : Store) → IsClear (invalidate_tokens u.id purpose d.now s)
      invalidated s = invalidate-none u.id purpose d.now s
