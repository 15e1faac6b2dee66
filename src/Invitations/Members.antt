-- ===== src/Invitations/Members.antt =====
-- Requests about invitations keep the limit of users.
use visi_on_route.Prelude.{
  ==_iff, Bool-cases, List, Option, String, Time, [], ap, arith, count, inl, inr, none, some, subst,
  sym, true, ℕ, ◌+◌, ◌∙◌, ◌∷◌, ◌≡◌, ◌≤◌,
}
use visi_on_route.Tx.{
  ok, LeavesDurable, durable_rules, request, request-Keeps, Result-cases, request_atomic,
}
use mathlib.Core.Option.{some-injective}
use visi_on_route.Access.Context.{RequestContext}
use visi_on_route.Identity.Store.{Store, User, Membership, Invitation}
use visi_on_route.Saas.Plans.{Entitlements, get_entitlements}
use visi_on_route.Account.Base.{Security}
use visi_on_route.Invitations.Service.{
  Draw, enforce_user_limit, accept_invitation, belongs, invitee, register, join_known, join,
  create_invitation, resend_invitation, revoke_invitation, new_membership,
}
use visi_on_route.Invitations.Limits.{
  IsWithinLimits, limit_of, enforce-room, create-Keeps, resend-Keeps, revoke-Keeps, limit_in,
  limit-now,
}
use visi_on_route.Saas.Growth.{has_room}
use visi_on_route.Access.Permissions.{RoleKey}
use visi_on_route.Invitations.Joining.{accept_invitation-once}

enforce-LeavesDurable : (now : Time) (org : ℕ) → LeavesDurable (enforce_user_limit now org)
unfolding enforce_user_limit
enforce-LeavesDurable now org = search durable_rules depth 8

module _ (sec : Security) (ctx : RequestContext) (d : Draw) (i : Invitation) where
  register-LeavesDurable :
      (full_name password : Option String) → LeavesDurable (register sec d i full_name password)
  unfolding register
  register-LeavesDurable full_name password = search durable_rules depth 10

  join_known-LeavesDurable : (u : User) → LeavesDurable (join_known d i u)
  unfolding join_known
  join_known-LeavesDurable u = search durable_rules depth 8

  invitee-LeavesDurable :
      (full_name password : Option String) (o : Option User)
      → LeavesDurable (invitee sec d i full_name password o)
  invitee-LeavesDurable full_name password none = register-LeavesDurable full_name password
  invitee-LeavesDurable full_name password (some u) = join_known-LeavesDurable u

  join-LeavesDurable : (u : User) → LeavesDurable (join ctx d i u)
  unfolding join
  join-LeavesDurable u = search durable_rules depth 10

accept-LeavesDurable :
    (sec : Security) (ctx : RequestContext) (d : Draw) (token : ℕ)
    (full_name password : Option String)
    → LeavesDurable (accept_invitation sec ctx d token full_name password)
unfolding accept_invitation
accept-LeavesDurable sec ctx d token full_name password =
    search (durable_rules, enforce-LeavesDurable, invitee-LeavesDurable, join-LeavesDurable) depth 8

-- A passed check of the limit leaves room for one.
room-most :
    (now : Time) (org n : ℕ) (s : Store) (e : Entitlements)
    → get_entitlements now org s.saas ≡ some e
    → has_room e.user_limit (count (belongs org) s.memberships) ≡ true
    → limit_of org s.saas ≡ some (some n)
    → count (belongs org) s.memberships + 1 ≤ n
room-most now org n s e found room limit = ground (arith, same_limit, room)
  where
    same_limit : e.user_limit ≡ some n
    same_limit =
        some-injective e.user_limit (some n)
          (sym (ap limit_in found) ∙ limit-now now org s.saas ∙ limit)

-- One more member, where there was room.
joined-IsWithinLimits :
    (now : Time) (m : Membership) (s t : Store)
    → t.memberships ≡ m ∷ s.memberships
    → t.saas ≡ s.saas
    → (enforce_user_limit now m.organization_id (record { durable = s; current = s })).0 ≡ ok tt
    → IsWithinLimits s
    → IsWithinLimits t
joined-IsWithinLimits now m s t members plans room w org n h =
    subst (λ xs. count (belongs org) xs ≤ n) (sym members)
      (elim (Bool-cases (belongs org m)) [
        | inr other ↦ ground (arith, other, w org n limit)
        | inl own ↦ ground (arith, own, own_room ((==_iff m.organization_id org).0 own))
      ])
  where
    limit : limit_of org s.saas ≡ some (some n)
    limit = subst (λ x. limit_of org x ≡ some (some n)) plans h

    own_room : m.organization_id ≡ org → count (belongs org) s.memberships + 1 ≤ n
    own_room e =
        let (rights, found, free) = enforce-room now m.organization_id s room in
        subst (λ k. count (belongs k) s.memberships + 1 ≤ n) e
          (room-most now m.organization_id n s rights found free
            (subst (λ k. limit_of k s.saas ≡ some (some n)) (sym e) limit))

accept-IsWithinLimits :
    (sec : Security) (ctx : RequestContext) (d : Draw) (token : ℕ)
    (full_name password : Option String) (s : Store)
    → IsWithinLimits s
    → IsWithinLimits (request (accept_invitation sec ctx d token full_name password) s).1
accept-IsWithinLimits sec ctx d token full_name password s w =
    elim (Result-cases (request (accept_invitation sec ctx d token full_name password) s).0) [
      | inr (e, h) ↦
          subst IsWithinLimits
            (sym (
              request_atomic (accept_invitation sec ctx d token full_name password) s e
                (accept-LeavesDurable sec ctx d token full_name password) h))
            w
      | inl ((u, m), h) ↦
          (let (i, j, again) = accept_invitation-once sec ctx d token full_name password s u m h in
            joined-IsWithinLimits d.now (new_membership d i j.user) s
              (request (accept_invitation sec ctx d token full_name password) s).1 j.members
              j.same_plans j.room w)
    ]

-- A request about invitations
pub data Request : Type 0 where
  invite : RequestContext → Draw → String → RoleKey → Request
  resend : RequestContext → Draw → ℕ → Request
  revoke : RequestContext → Time → ℕ → Request
  accept : RequestContext → Draw → ℕ → Option String → Option String → Request

-- The store after a request
unfoldable pub answer : Security → Request → Store → Store
answer sec (Request.invite ctx d email role) s =
    (request (create_invitation sec ctx d email role) s).1
answer sec (Request.resend ctx d k) s = (request (resend_invitation sec ctx d k) s).1
answer sec (Request.revoke ctx now k) s = (request (revoke_invitation ctx now k) s).1
answer sec (Request.accept ctx d token full_name password) s =
    (request (accept_invitation sec ctx d token full_name password) s).1

abbrev pub answer_all : Security → List Request → Store → Store
answer_all sec [] s = s
answer_all sec (r ∷ rs) s = answer_all sec rs (answer sec r s)

answer-IsWithinLimits :
    (sec : Security) (r : Request) (s : Store) → IsWithinLimits s → IsWithinLimits (answer sec r s)
unfolding answer
answer-IsWithinLimits sec (Request.invite ctx d email role) s w =
    request-Keeps {P = IsWithinLimits} (create_invitation sec ctx d email role) s
      (create-Keeps sec ctx d email role) w
answer-IsWithinLimits sec (Request.resend ctx d k) s w =
    request-Keeps {P = IsWithinLimits} (resend_invitation sec ctx d k) s (resend-Keeps sec ctx d k)
      w
answer-IsWithinLimits sec (Request.revoke ctx now k) s w =
    request-Keeps {P = IsWithinLimits} (revoke_invitation ctx now k) s (revoke-Keeps ctx now k) w
answer-IsWithinLimits sec (Request.accept ctx d token full_name password) s w =
    accept-IsWithinLimits sec ctx d token full_name password s w

-- However many invitations are pending, requests that create, resend, revoke and accept them, one
-- after another, never take an organization beyond the user limit of its plan, if no organization
-- was beyond it before.
pub answer_all-IsWithinLimits :
    (sec : Security) (rs : List Request) (s : Store)
    → IsWithinLimits s
    → IsWithinLimits (answer_all sec rs s)
answer_all-IsWithinLimits sec [] s w = w
answer_all-IsWithinLimits sec (r ∷ rs) s w =
    answer_all-IsWithinLimits sec rs (answer sec r s) (answer-IsWithinLimits sec r s w)
