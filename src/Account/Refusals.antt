-- ===== src/Account/Refusals.antt =====
-- A second factor that is refused changes nothing.
use visi_on_route.Prelude.{String, Time, arith, ◌≡◌}
use visi_on_route.Identity.Store.{Store, User}
use visi_on_route.Account.Base.{Security, notify, enqueue}
use visi_on_route.Account.Factors.{verify_second_factor, verify_totp, verify_recovery}
use visi_on_route.Tx.{Tx, err, Error}
use visi_on_route.Access.Context.{RequestContext}

module _ (sec : Security) (ctx : RequestContext) (u : User) (submitted : String) (now : Time)
    (tx : Tx Store) where
  totp_refused :
      (verify_totp sec u submitted now tx).0 ≡ err Error.invalid_mfa_code
      → (verify_totp sec u submitted now tx).1 ≡ tx
  unfolding verify_totp
  totp_refused h = ground arith

  recovery_refused :
      (verify_recovery sec ctx u submitted now tx).0 ≡ err Error.invalid_mfa_code
      → (verify_recovery sec ctx u submitted now tx).1 ≡ tx
  unfolding verify_recovery notify enqueue
  recovery_refused h = ground arith

  pub factor_refused :
      (verify_second_factor sec ctx u submitted now tx).0 ≡ err Error.invalid_mfa_code
      → (verify_second_factor sec ctx u submitted now tx).1 ≡ tx
  unfolding verify_second_factor
  factor_refused h = ground (arith, totp_refused, recovery_refused)
