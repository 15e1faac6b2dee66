-- ===== src/Account/Replays.antt =====
-- A second factor that was accepted is not accepted again.
use visi_on_route.Prelude.{
  String, Time, arith, count, false, find, find-spent, find-update_where, is_empty, none, refl,
  same, some, subst, sym, true, ℕ, ◌==◌, ◌≡◌, ◌≤◌,
}
use visi_on_route.Identity.Store.{Store, User, MfaRecoveryCode}
use visi_on_route.Account.Base.{
  Security, save_user, notify, enqueue, add_message, security_notice, audit_user,
}
use visi_on_route.Tx.{request, ok, err, Error, Result}
use visi_on_route.Access.Context.{RequestContext}
use visi_on_route.Account.Factors.{
  Factor, verify_second_factor, verify_totp, with_step, verify_recovery, find_code, is_code,
  use_code,
}
use visi_on_route.Account.Challenges.{current_user}
use visi_on_route.Account.Totp.{looks_like_totp, matching_time_step}

-- What a check of a second factor answers and leaves.
abbrev pub factor_result :
    Security → RequestContext → User → String → Time → Store → Result Factor × Store
factor_result sec ctx v code now = request (verify_second_factor sec ctx v code now)

module _ (sec : Security) (ctx : RequestContext) (s : Store) (u : User) where
  -- The factor is on, under a secret that can be read.
  pub record HasSecret (secret : ℕ) : Type 0 where
    pub value : ℕ
    pub enrolled : u.mfa_totp_secret_enc ≡ some value
    pub cipher : sec.has_cipher ≡ true
    pub readable : sec.decrypt value ≡ some secret
    pub stored : find (λ (x : User). x.id == u.id) s.users ≡ some u

  accepted_store :
      (secret : ℕ) (code : String) (now : Time) (step : ℕ)
      → HasSecret secret
      → looks_like_totp sec.totp_text code ≡ true
      → matching_time_step sec.totp_text secret code now ≡ ok (some step)
      → (factor_result sec ctx u code now s).0 ≡ ok Factor.totp
      → (factor_result sec ctx u code now s).1 ≡ save_user (with_step step u) s
  unfolding verify_second_factor verify_totp
  accepted_store secret code now step h digits at good =
      ground (arith, h.enrolled, h.cipher, h.readable)

  stepped :
      (step : ℕ)
      → find (λ (x : User). x.id == u.id) s.users ≡ some u
      → current_user u (save_user (with_step step u) s) ≡ with_step step u
  stepped step h =
      ground (arith, find-update_where (λ (x : User). x.id) u.id (with_step step u) u s.users refl)

  refused_step :
      (secret : ℕ) (step : ℕ) (code : String) (now : Time) (k : ℕ) (s2 : Store)
      → HasSecret secret
      → looks_like_totp sec.totp_text code ≡ true
      → matching_time_step sec.totp_text secret code now ≡ ok (some k)
      → k ≤ step
      → factor_result sec ctx (with_step step u) code now s2 ≡ (err Error.invalid_mfa_code, s2)
  unfolding verify_second_factor verify_totp
  refused_step secret step code now k s2 h digits at old =
      ground (arith, h.enrolled, h.cipher, h.readable)

  -- Once a code of the authenticator is accepted, no code for its time step or an earlier one is
  -- accepted from that account: the same code, and any older one, is refused and changes nothing,
  -- whenever it is tried again.
  pub totp_replay :
      (secret : ℕ) (code old_code : String) (now later : Time) (step old_step : ℕ)
      → HasSecret secret
      → looks_like_totp sec.totp_text code ≡ true
      → matching_time_step sec.totp_text secret code now ≡ ok (some step)
      → (factor_result sec ctx u code now s).0 ≡ ok Factor.totp
      → looks_like_totp sec.totp_text old_code ≡ true
      → matching_time_step sec.totp_text secret old_code later ≡ ok (some old_step)
      → old_step ≤ step
      → let after = (factor_result sec ctx u code now s).1 in
        factor_result sec ctx (current_user u after) old_code later after
        ≡ (err Error.invalid_mfa_code, after)
  totp_replay secret code old_code now later step old_step h digits at good old_digits old_at old =
      subst
        (λ x.
          factor_result sec ctx (current_user u x) old_code later x
          ≡ (err Error.invalid_mfa_code, x))
        (sym (accepted_store secret code now step h digits at good))
        (subst
          (λ v.
            factor_result sec ctx v old_code later (save_user (with_step step u) s)
            ≡ (err Error.invalid_mfa_code, save_user (with_step step u) s))
          (sym (stepped step h.stored))
          (refused_step secret step old_code later old_step (save_user (with_step step u) s) h
            old_digits old_at old))

  -- The store that an accepted recovery code leaves
  after_code : MfaRecoveryCode → Time → Store
  after_code c now =
      add_message (security_notice u)
        (audit_user ctx "auth.mfa_recovery_code_used" u (use_code c.id now s))

  accepted_code :
      (code : String) (now : Time) (c : MfaRecoveryCode)
      → looks_like_totp sec.totp_text code ≡ false
      → is_empty code ≡ false
      → find_code sec u.id code s ≡ some c
      → factor_result sec ctx u code now s ≡ (ok Factor.recovery, after_code c now)
  unfolding verify_second_factor verify_recovery notify enqueue after_code
  accepted_code code now c shape given found = ground (arith, found)

  codes_left :
      (c : MfaRecoveryCode) (now : Time)
      → (after_code c now).recovery_codes ≡ (use_code c.id now s).recovery_codes
  unfolding after_code
  codes_left c now = ground arith

  spent_code :
      (code : String) (now : Time) (c : MfaRecoveryCode)
      → find_code sec u.id code s ≡ some c
      → count (is_code sec u.id code) s.recovery_codes ≤ 1
      → find_code sec u.id code (use_code c.id now s) ≡ none
  spent_code code now c found single =
      find-spent (is_code sec u.id code) (λ x. x.id == c.id) (λ x. record x { used_at = some now })
        (λ x. ground arith) c s.recovery_codes found (ground arith) single

  refused_code :
      (v : User) (code : String) (later : Time) (s2 : Store)
      → looks_like_totp sec.totp_text code ≡ false
      → find_code sec v.id code s2 ≡ none
      → factor_result sec ctx v code later s2 ≡ (err Error.invalid_mfa_code, s2)
  unfolding verify_second_factor verify_recovery
  refused_code v code later s2 shape gone = ground (arith, gone)

  -- A recovery code that the account has once is accepted once: the code is then used up, and the
  -- same text is refused and changes nothing, whenever it is tried again.
  pub recovery_replay :
      (code : String) (now later : Time) (c : MfaRecoveryCode) (v : User)
      → looks_like_totp sec.totp_text code ≡ false
      → is_empty code ≡ false
      → find_code sec u.id code s ≡ some c
      → count (is_code sec u.id code) s.recovery_codes ≤ 1
      → v.id ≡ u.id
      → ((factor_result sec ctx u code now s).0 ≡ ok Factor.recovery)
        × (factor_result sec ctx v code later (factor_result sec ctx u code now s).1
            ≡ (err Error.invalid_mfa_code, (factor_result sec ctx u code now s).1))
  recovery_replay code now later c v shape given found single same =
      subst
        (λ r.
          (r.0 ≡ ok Factor.recovery)
          × (factor_result sec ctx v code later r.1 ≡ (err Error.invalid_mfa_code, r.1)))
        (sym (accepted_code code now c shape given found))
        (refl, refused_code v code later (after_code c now) shape gone)
    where
      gone : find_code sec v.id code (after_code c now) ≡ none
      gone = ground (arith, same, codes_left c now, spent_code code now c found single)
