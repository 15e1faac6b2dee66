-- ===== src/Identity/Rotated.antt =====
-- Each part of `rotate_refresh_token` keeps the invariant of the sessions.
use visi_on_route.Prelude.{
  Bool, Bool-cases, Option, Time, ap, arith, count, false, if◌then◌else◌, inl, inr, none, on_some,
  refl, some, subst, true, ◌==◌, ◌∙◌, ◌≡◌,
}
use visi_on_route.Tx.{
  Triple, Triple-bind, Triple-modify, Keeps, Keeps-modify, modify, Keeps-bind, Keeps-commit,
  Keeps-raise, Gives, ◌>>◌, commit, raise, Error, pure, gets, Tx, ◌>>=◌, Holds, Triple-Keeps,
  Triple-gets,
}
use visi_on_route.Identity.Store.{Store, Session, add_audit}
use visi_on_route.Identity.Families.{IsValid, look, open_in}
use visi_on_route.Identity.Rotating.{
  IsReady, IsStored, IsSuccessor, audit-IsValid, open-IsReady, unused_successor_lem,
}
use visi_on_route.Identity.Rotation.{
  raise_alarm, retry, change_session, revoke_now, check_reuse, unused_successor, retry_or_alarm,
}
use visi_on_route.Access.Context.{RequestContext}
use visi_on_route.Identity.Sessions.{is_open, revoke_family, Service}
use visi_on_route.Identity.Closing.{
  change-IsValid, revoke_family-IsValid, revoke_now-IsClosing, change-closes,
}
use visi_on_route.Audit.{AuditLog, record_audit}

pub audit-Keeps : (entry : AuditLog) → Keeps IsValid (modify (add_audit entry))
audit-Keeps entry = Keeps-modify (add_audit entry) (audit-IsValid entry)

pub raise_alarm-Keeps :
    (ctx : RequestContext) (now : Time) (x : Session) → Keeps IsValid (raise_alarm ctx now x)
unfolding raise_alarm
raise_alarm-Keeps ctx now x =
    Keeps-bind (modify (revoke_family x.family_id true now))
      (λ _. modify (add_audit entry) >> (commit >> raise Error.invalid_credentials))
      (Keeps-modify (revoke_family x.family_id true now)
        (revoke_family-IsValid x.family_id true now))
      (λ _.
        Keeps-bind (modify (add_audit entry)) (λ _. commit >> raise Error.invalid_credentials)
          (audit-Keeps entry)
          (λ _.
            Keeps-bind commit (λ _. raise Error.invalid_credentials) Keeps-commit
              (λ _. Keeps-raise Error.invalid_credentials)))
  where
    entry : AuditLog
    entry = record_audit ctx x.organization_id "auth.refresh_reuse_detected" x.id

-- The successor of a closed session is another session.
successor-ne :
    (x y : Session) (s : Store)
    → IsStored x s
    → IsSuccessor x y s
    → is_open x ≡ false
    → (y.id == x.id) ≡ false
successor-ne x y s h u closed = elim (Bool-cases (y.id == x.id)) [
  | inr e ↦ e
  | inl e ↦ ground (arith, u.stored, u.opened)
]

-- Revoking the successor makes the session ready.
retry-IsReady :
    (now : Time) (x y : Session) (s : Store)
    → IsValid s
    → IsStored x s
    → IsSuccessor x y s
    → is_open x ≡ false
    → IsReady x (change_session y.id (revoke_now now) s)
retry-IsReady now x y s v h u closed = (
  look (λ z. z.id == y.id) (revoke_now now) (revoke_now-IsClosing now).in_place x.id s
      ∙ ap (on_some (λ (z : Session). if z.id == y.id then revoke_now now z else z)) h
      ∙ ground (arith, successor-ne x y s h u closed),
  subst (λ n. count (open_in n) (change_session y.id (revoke_now now) s).sessions ≡ 0) same_family
        (change-closes y.id (revoke_now now) (revoke_now-IsClosing now) s y v u.stored
          (open-IsReady y s v u.stored u.opened).1)
      ∙ ground (arith, closed),
)
  where
    same_family : y.family_id ≡ x.family_id
    same_family = ground (arith, v.links x.id y.id x h u.linked, u.stored)

retry-Triple :
    (ctx : RequestContext) (now : Time) (x y : Session)
    → is_open x ≡ false
    → Triple IsValid (λ s. IsStored x s × IsSuccessor x y s) (retry ctx now x y) (λ _. IsReady x)
unfolding retry
retry-Triple ctx now x y closed =
    Triple-bind {Mid = λ _. IsReady x} (modify (change_session y.id (revoke_now now)))
      (λ _. modify (add_audit entry))
      (Triple-modify {Post = IsReady x} (change_session y.id (revoke_now now))
        (λ s v _. change-IsValid y.id (revoke_now now) (revoke_now-IsClosing now) s v)
        (λ s v p. retry-IsReady now x y s v p.0 p.1 closed))
      (λ _.
        Triple-modify {Post = IsReady x} (add_audit entry) (λ s v _. audit-IsValid entry s v)
          (λ s v r. r))
  where
    entry : AuditLog
    entry = record_audit ctx x.organization_id "auth.refresh_retried" x.id

retry_or_alarm-Triple :
    (svc : Service) (ctx : RequestContext) (now : Time) (x : Session) (o : Option Session)
    → is_open x ≡ false
    → Triple IsValid
        (λ s. IsStored x s × (unused_successor svc ctx now x s ≡ o))
        (retry_or_alarm ctx now x o)
        (λ _. IsReady x)
unfolding raise_alarm
retry_or_alarm-Triple svc ctx now x none closed =
    Triple-Keeps (raise_alarm ctx now x) (raise_alarm-Keeps ctx now x) (λ tx p. raised tx)
  where
    raised :
        (tx : Tx Store)
        → Gives (λ _. IsReady x) (raise_alarm ctx now x tx).0 (raise_alarm ctx now x tx).1.current
    raised tx = tt
retry_or_alarm-Triple svc ctx now x (some y) closed = record {
  keeps = λ tx h p. t.keeps tx h (p.0, unused_successor_lem svc ctx now x y tx.current p.1);
  gives = λ tx h p. t.gives tx h (p.0, unused_successor_lem svc ctx now x y tx.current p.1);
}
  where
    t : Triple IsValid (λ s. IsStored x s × IsSuccessor x y s) (retry ctx now x y) (λ _. IsReady x)
    t = retry-Triple ctx now x y closed

check_reuse-if :
    (svc : Service) (ctx : RequestContext) (now : Time) (x : Session) (b : Bool)
    → is_open x ≡ b
    → Triple IsValid
        (IsStored x)
        (if b
          then pure tt
          else (gets (unused_successor svc ctx now x) >>= λ o. retry_or_alarm ctx now x o))
        (λ _. IsReady x)
check_reuse-if svc ctx now x true e = record { keeps = λ tx h p. h; gives = λ tx h p. ready tx h p }
  where
    ready :
        (tx : Tx Store)
        → Holds IsValid tx
        → IsStored x tx.current
        → Gives (λ _. IsReady x) (pure {S = Store} tt tx).0 tx.current
    ready tx h p = open-IsReady x tx.current h.current p e
check_reuse-if svc ctx now x false e =
    Triple-bind (gets (unused_successor svc ctx now x)) (λ o. retry_or_alarm ctx now x o)
      (Triple-gets (unused_successor svc ctx now x)) (λ o. retry_or_alarm-Triple svc ctx now x o e)

pub check_reuse-Triple :
    (svc : Service) (ctx : RequestContext) (now : Time) (x : Session)
    → Triple IsValid (IsStored x) (check_reuse svc ctx now x) (λ _. IsReady x)
unfolding check_reuse
check_reuse-Triple svc ctx now x = check_reuse-if svc ctx now x (is_open x) refl
