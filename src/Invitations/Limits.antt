-- ===== src/Invitations/Limits.antt =====
-- The limit of users holds.
use visi_on_route.Prelude.{
  Bool, Option, Option-cases, String, Time, arith, count, inl, inr, is_none, none, on_some, refl,
  some, subst, sym, true, ℕ, ◌||◌, ◌≡◌, ◌≤◌,
}
use visi_on_route.Tx.{
  ok, err, Error, Keeps, keeps_rules, Keeps-bind, modify, query, Keeps-modify, raise_unless,
  Keeps-raise_unless,
}
use visi_on_route.Access.Context.{RequestContext}
use visi_on_route.Access.Permissions.{RoleKey}
use visi_on_route.Identity.Store.{Store, Invitation, Message, add_audit}
use visi_on_route.Saas.Plans.{
  Plan, Subscription, Entitlements, get_entitlements, entitled, joined as subscribed,
  subscription_of,
}
use visi_on_route.Saas.Plans.{Store as SaasStore}
use visi_on_route.Saas.Growth.{has_room}
use visi_on_route.Account.Base.{Security, enqueue, add_message}
use visi_on_route.Invitations.Service.{
  Draw, enforce_user_limit, create_invitation, resend_invitation, revoke_invitation, belongs,
  invite_to, add_invitation, send_invitation, send_again, change_invitation, put_invitation,
}
use visi_on_route.Audit.{AuditLog}

abbrev pub limit_in : Option Entitlements → Option (Option ℕ)
limit_in o = on_some (λ (e : Entitlements). e.user_limit) o

-- The limit of users that an organization is under; it is the same at every moment.
abbrev pub limit_of : ℕ → SaasStore → Option (Option ℕ)
limit_of org s = limit_in (get_entitlements 0 org s)

-- No organization has more members than its plan allows.
abbrev pub IsWithinLimits : Store → Type 0
IsWithinLimits s =
    (org n : ℕ) → limit_of org s.saas ≡ some (some n) → count (belongs org) s.memberships ≤ n

limit-entitled :
    (now : Time) (o : Option (Subscription × Plan)) (s : SaasStore)
    → limit_in (entitled now o s) ≡ limit_in (entitled 0 o s)
limit-entitled now none s = refl
limit-entitled now (some (x, p)) s = refl

pub limit-now :
    (now : Time) (org : ℕ) (s : SaasStore) → limit_in (get_entitlements now org s) ≡ limit_of org s
unfolding get_entitlements
limit-now now org s = limit-entitled now (subscribed (subscription_of org s) s) s

-- What a passed check of the limit says.
pub enforce-room :
    (now : Time) (org : ℕ) (s : Store)
    → (enforce_user_limit now org (record { durable = s; current = s })).0 ≡ ok tt
    → (e : Entitlements) × (get_entitlements now org s.saas ≡ some e)
      × (has_room e.user_limit (count (belongs org) s.memberships) ≡ true)
unfolding enforce_user_limit
enforce-room now org s h = elim (Option-cases (get_entitlements now org s.saas)) [
  | inl q ↦ absurd (cc (h, no_plan q))
  | inr (e, q) ↦ (e, q, ground (arith, h, q))
]
  where
    no_plan :
        get_entitlements now org s.saas ≡ none
        → (enforce_user_limit now org (record { durable = s; current = s })).0
          ≡ err Error.runtime_error
    no_plan q = ground (arith, q)

-- Where neither the members nor the plans change, the limits hold as before.
pub unchanged-IsWithinLimits :
    (s t : Store)
    → t.memberships ≡ s.memberships
    → t.saas ≡ s.saas
    → IsWithinLimits s
    → IsWithinLimits t
unchanged-IsWithinLimits s t m p w = λ org n h.
    subst (λ xs. count (belongs org) xs ≤ n) (sym m)
      (w org n (subst (λ x. limit_of org x ≡ some (some n)) p h))

quiet-Keeps :
    (f : Store → Store)
    → ((s : Store) → (f s).memberships ≡ s.memberships)
    → ((s : Store) → (f s).saas ≡ s.saas)
    → Keeps IsWithinLimits (modify f)
quiet-Keeps f m p = Keeps-modify f (λ s w. unchanged-IsWithinLimits s (f s) (m s) (p s) w)

put-Keeps : (i : Invitation) → Keeps IsWithinLimits (modify (put_invitation i))
put-Keeps i = quiet-Keeps (put_invitation i) (λ s. refl) (λ s. refl)

change-Keeps :
    (k : ℕ) (f : Invitation → Invitation) → Keeps IsWithinLimits (modify (change_invitation k f))
change-Keeps k f = quiet-Keeps (change_invitation k f) (λ s. refl) (λ s. refl)

audit-Keeps : (entry : AuditLog) → Keeps IsWithinLimits (modify (add_audit entry))
audit-Keeps entry = quiet-Keeps (add_audit entry) (λ s. refl) (λ s. refl)

enqueue-Keeps : (b : Bool) (m : Message) → Keeps IsWithinLimits (enqueue b m)
unfolding enqueue
enqueue-Keeps b m =
    Keeps-bind (raise_unless (is_none m.secret || b) Error.service_not_configured)
      (λ _. modify (add_message m))
      (Keeps-raise_unless (is_none m.secret || b) Error.service_not_configured)
      (λ _. quiet-Keeps (add_message m) (λ s. ground arith) (λ s. ground arith))

query-Keeps :
    {A : Type 0} (look : Store → Option A) (e : Error) → Keeps IsWithinLimits (query look e)
query-Keeps look e = record { at = λ tx h. ground (arith, h) }

ruleset quiet_rules =
    (keeps_rules, put-Keeps, change-Keeps, audit-Keeps, enqueue-Keeps, query-Keeps)

enforce-Keeps : (now : Time) (org : ℕ) → Keeps IsWithinLimits (enforce_user_limit now org)
unfolding enforce_user_limit
enforce-Keeps now org = search quiet_rules depth 8

send-Keeps :
    (sec : Security) (d : Draw) (i : Invitation) → Keeps IsWithinLimits (send_invitation sec d i)
unfolding send_invitation
send-Keeps sec d i = search quiet_rules depth 8

module _ (sec : Security) (ctx : RequestContext) (d : Draw) where
  add-Keeps : (i : Invitation) → Keeps IsWithinLimits (add_invitation sec ctx d i)
  unfolding add_invitation
  add-Keeps i = search (quiet_rules, send-Keeps) depth 8

  invite-Keeps :
      (org : ℕ) (email : String) (role : RoleKey)
      → Keeps IsWithinLimits (invite_to sec ctx d org email role)
  unfolding invite_to
  invite-Keeps org email role = search (quiet_rules, enforce-Keeps, add-Keeps) depth 8

  pub create-Keeps :
      (email : String) (role : RoleKey)
      → Keeps IsWithinLimits (create_invitation sec ctx d email role)
  unfolding create_invitation
  create-Keeps email role = search (quiet_rules, invite-Keeps) depth 8

  again-Keeps : (i : Invitation) → Keeps IsWithinLimits (send_again sec ctx d i)
  unfolding send_again
  again-Keeps i = search (quiet_rules, send-Keeps) depth 8

  pub resend-Keeps : (k : ℕ) → Keeps IsWithinLimits (resend_invitation sec ctx d k)
  unfolding resend_invitation
  resend-Keeps k = search (quiet_rules, again-Keeps) depth 8

pub revoke-Keeps :
    (ctx : RequestContext) (now : Time) (k : ℕ) → Keeps IsWithinLimits (revoke_invitation ctx now k)
unfolding revoke_invitation
revoke-Keeps ctx now k = search quiet_rules depth 8
