-- ===== src/Account/Guessing.antt =====
-- A login challenge allows five guesses. One that ends with another error, such as a code with digits
-- outside ASCII, is not among those that are counted.
use visi_on_route.Prelude.{
  List, Option, String, Time, [], arith, find, find-unseen, is_some, length, ltb, none, refl, same,
  some, subst, sym, true, ℕ, ◌+◌, ◌==◌, ◌∷◌, ◌≡◌, ◌≤◌,
}
use visi_on_route.Identity.Store.{Store, User, MfaChallenge}
use visi_on_route.Account.Base.{Security, active_user, audit_user}
use visi_on_route.Account.Challenges.{
  is_challenge, verify_mfa_challenge, check_challenge, reject_code, accept_code, change_challenge,
  count_attempt, after_factor, live_challenge, with_mfa_on, submitted_code,
}
use visi_on_route.Tx.{Tx, Result, err, request, Error}
use visi_on_route.Access.Context.{RequestContext}
use visi_on_route.Account.Factors.{Factor, verify_second_factor}
use visi_on_route.Account.Refusals.{factor_refused}

-- One try at a challenge: its moment, and what was typed.
pub record Guess : Type 0 where
  pub now : Time
  pub code : Option String
  pub recovery_code : Option String

module _ (sec : Security) (ctx : RequestContext) (token : ℕ) where
  abbrev pub challenge_of : Store → Option MfaChallenge
  challenge_of s = find (is_challenge sec token) s.challenges

  abbrev pub guess : Guess → Store → Result User × Store
  guess g s = request (verify_mfa_challenge sec ctx g.now token g.code g.recovery_code) s

  abbrev pub guess_all : List Guess → Store → Store
  guess_all [] s = s
  guess_all (g ∷ gs) s = guess_all gs (guess g s).1

  -- Each of the guesses is answered as an invalid code, before the challenge expires.
  abbrev pub AllRefused : Time → List Guess → Store → Type 0
  AllRefused expires_at [] s = Unit {0}
  AllRefused expires_at (g ∷ gs) s =
      ((ltb g.now expires_at ≡ true) × ((guess g s).0 ≡ err Error.invalid_mfa_code))
      × AllRefused expires_at gs (guess g s).1

  -- The challenge, and the account behind it
  pub record IsPending (c : MfaChallenge) (u : User) (s : Store) : Type 0 where
    pub found : challenge_of s ≡ some c
    pub fresh : c.consumed_at ≡ none
    pub account : active_user c.user_id s ≡ some u
    pub enabled : is_some u.mfa_enabled_at ≡ true

  counted :
      (k : ℕ) (c : MfaChallenge) (s : Store)
      → k ≡ c.id
      → challenge_of s ≡ some c
      → challenge_of (change_challenge k count_attempt s) ≡ some (count_attempt c)
  counted k c s e h = ground (
    arith,
    h,
    find-unseen (is_challenge sec token) (λ x. x.id == k) count_attempt s.challenges (λ x. refl),
  )

  -- What follows a refused check of the second factor.
  refused-after :
      (g : Guess) (c : MfaChallenge) (u : User) (s : Store) (r : Result Factor) (tx : Tx Store)
      → (r ≡ err Error.invalid_mfa_code → tx ≡ record { durable = s; current = s })
      → (after_factor ctx g.now u c r tx).0 ≡ err Error.invalid_mfa_code
      → (after_factor ctx g.now u c r tx).1.durable
        ≡ audit_user ctx "auth.mfa_challenge_failed" u (change_challenge c.id count_attempt s)
  unfolding accept_code reject_code
  refused-after g c u s r tx same h = ground (arith, same)

  pending_live :
      (now : Time) (c : MfaChallenge) (u : User) (s : Store)
      → IsPending c u s
      → ltb now c.expires_at ≡ true
      → c.attempts ≤ 4
      → live_challenge sec token now s ≡ some c
  pending_live now c u s p soon few = ground (arith, p.found, p.fresh)

  pending_account :
      (c : MfaChallenge) (u : User) (s : Store)
      → IsPending c u s
      → with_mfa_on (active_user c.user_id s) ≡ some u
  pending_account c u s p = ground (arith, p.account, p.enabled)

  abbrev start : Store → Tx Store
  start s = record { durable = s; current = s }

  abbrev checked : Guess → User → Store → Result Factor × Tx Store
  checked g u s =
      verify_second_factor sec ctx u (submitted_code g.code g.recovery_code) g.now (start s)

  refused-store :
      (g : Guess) (c : MfaChallenge) (u : User) (s : Store)
      → IsPending c u s
      → ltb g.now c.expires_at ≡ true
      → c.attempts ≤ 4
      → (guess g s).0 ≡ err Error.invalid_mfa_code
      → (guess g s).1
        ≡ audit_user ctx "auth.mfa_challenge_failed" u (change_challenge c.id count_attempt s)
  unfolding verify_mfa_challenge check_challenge
  refused-store g c u s p soon few h = ground (
    arith,
    pending_live g.now c u s p soon few,
    pending_account c u s p,
    refused-after g c u s (checked g u s).0 (checked g u s).1
        (factor_refused sec ctx u (submitted_code g.code g.recovery_code) g.now (start s)),
  )

  refused-guess :
      (g : Guess) (c : MfaChallenge) (u : User) (s : Store)
      → IsPending c u s
      → ltb g.now c.expires_at ≡ true
      → c.attempts ≤ 4
      → (guess g s).0 ≡ err Error.invalid_mfa_code
      → IsPending (count_attempt c) u (guess g s).1
  refused-guess g c u s p soon few h =
      subst (IsPending (count_attempt c) u) (sym (refused-store g c u s p soon few h)) (record {
        found = counted c.id c s refl p.found;
        fresh = p.fresh;
        account = p.account;
        enabled = p.enabled;
      })

  refused-guesses :
      (gs : List Guess) (c : MfaChallenge) (u : User) (s : Store)
      → IsPending c u s
      → AllRefused c.expires_at gs s
      → c.attempts + length gs ≤ 5
      → IsPending (record c { attempts = c.attempts + length gs }) u (guess_all gs s)
  refused-guesses [] c u s p refused few =
      subst (λ n. IsPending (record c { attempts = n }) u s) (omega arith) p
  refused-guesses (g ∷ gs) c u s p refused few =
      subst (λ n. IsPending (record c { attempts = n }) u (guess_all gs (guess g s).1))
        (omega arith)
        (refused-guesses gs (count_attempt c) u (guess g s).1
          (refused-guess g c u s p refused.0.0 (omega (arith, few)) refused.0.1) refused.1
          (omega (arith, few)))

  -- Once a login challenge has counted five guesses, each answered as an invalid code before the
  -- challenge expired, any further one, even with the right code, is refused and changes nothing.
  pub five_guesses :
      (gs : List Guess) (last : Guess) (c : MfaChallenge) (u : User) (s : Store)
      → IsPending c u s
      → AllRefused c.expires_at gs s
      → c.attempts + length gs ≡ 5
      → guess last (guess_all gs s) ≡ (err Error.invalid_mfa_code, guess_all gs s)
  unfolding verify_mfa_challenge
  five_guesses gs last c u s p refused five = ground (arith, dead)
    where
      dead : live_challenge sec token last.now (guess_all gs s) ≡ none
      dead = ground (arith, five, (refused-guesses gs c u s p refused (omega (arith, five))).found)
