-- ===== src/Invitations/Joining.antt =====
-- What the acceptance of an invitation does.
use visi_on_route.Prelude.{
  Option, Option-cases, String, Time, arith, find-unseen, inl, inr, none, refl, some, ℕ, ◌==◌, ◌∷◌,
  ◌≡◌,
}
use visi_on_route.Tx.{Tx, Result, ok, request, err, Error}
use visi_on_route.Access.Context.{RequestContext}
use visi_on_route.Identity.Store.{Store, User, Membership, Invitation}
use visi_on_route.Account.Base.{Security}
use visi_on_route.Invitations.Service.{
  Draw, enforce_user_limit, accept_invitation, invitee, register, join_known, join, open_invitation,
  new_membership, accepted, change_invitation, user_by_email,
}

enforce-quiet : (now : Time) (org : ℕ) (tx : Tx Store) → (enforce_user_limit now org tx).1 ≡ tx
unfolding enforce_user_limit
enforce-quiet now org tx = ground arith

-- The account of the invited person is made ready, and nothing else of these tables.
record IsQuiet (tx tx' : Tx Store) : Type 0 where
  durable : tx'.durable ≡ tx.durable
  invitations : tx'.current.invitations ≡ tx.current.invitations
  memberships : tx'.current.memberships ≡ tx.current.memberships
  saas : tx'.current.saas ≡ tx.current.saas

module _ (sec : Security) (d : Draw) (i : Invitation) (full_name password : Option String) where
  register-IsQuiet : (tx : Tx Store) → IsQuiet tx (register sec d i full_name password tx).1
  unfolding register
  register-IsQuiet tx = record {
    durable = ground arith;
    invitations = ground arith;
    memberships = ground arith;
    saas = ground arith;
  }

  join_known-IsQuiet : (u : User) (tx : Tx Store) → IsQuiet tx (join_known d i u tx).1
  unfolding join_known
  join_known-IsQuiet u tx = record {
    durable = ground arith;
    invitations = ground arith;
    memberships = ground arith;
    saas = ground arith;
  }

  invitee-IsQuiet :
      (o : Option User) (tx : Tx Store) → IsQuiet tx (invitee sec d i full_name password o tx).1
  invitee-IsQuiet none tx = register-IsQuiet tx
  invitee-IsQuiet (some u) tx = join_known-IsQuiet u tx

-- A link that is not open is refused, and nothing changes.
refused :
    (sec : Security) (ctx : RequestContext) (d : Draw) (token : ℕ)
    (full_name password : Option String) (s : Store)
    → open_invitation sec token d.now s ≡ none
    → request (accept_invitation sec ctx d token full_name password) s
      ≡ (err Error.domain_not_found, s)
unfolding accept_invitation
refused sec ctx d token full_name password s h = ground (arith, h)

module _ (sec : Security) (ctx : RequestContext) (d : Draw) (token : ℕ)
    (full_name password : Option String) (s : Store) where
  abbrev start : Tx Store
  start = record { durable = s; current = s }

  -- The invitation's organization has room, and gets the membership that the invitation offers.
  pub record IsJoined (i : Invitation) (r : Result (User × Membership) × Store) : Type 0 where
    pub user : User
    pub answer : r.0 ≡ ok (user, new_membership d i user)
    pub found : open_invitation sec token d.now s ≡ some i
    pub room : (enforce_user_limit d.now i.organization_id start).0 ≡ ok tt
    pub members : r.1.memberships ≡ new_membership d i user ∷ s.memberships
    pub invitations : r.1.invitations ≡ (change_invitation i.id (accepted d.now) s).invitations
    pub same_plans : r.1.saas ≡ s.saas

  joined :
      (i : Invitation) (u : User) (m : Membership)
      → open_invitation sec token d.now s ≡ some i
      → (request (accept_invitation sec ctx d token full_name password) s).0 ≡ ok (u, m)
      → IsJoined i (request (accept_invitation sec ctx d token full_name password) s)
  unfolding accept_invitation join
  joined i u m e h = record {
    user = u;
    answer = ground (
      arith,
      e,
      h,
      enforce-quiet d.now i.organization_id start,
      invitee-IsQuiet sec d i full_name password (user_by_email sec i.email s) start,
    );
    found = e;
    room = ground (
      arith,
      e,
      h,
      enforce-quiet d.now i.organization_id start,
      invitee-IsQuiet sec d i full_name password (user_by_email sec i.email s) start,
    );
    members = ground (
      arith,
      e,
      h,
      enforce-quiet d.now i.organization_id start,
      invitee-IsQuiet sec d i full_name password (user_by_email sec i.email s) start,
    );
    invitations = ground (
      arith,
      e,
      h,
      enforce-quiet d.now i.organization_id start,
      invitee-IsQuiet sec d i full_name password (user_by_email sec i.email s) start,
    );
    same_plans = ground (
      arith,
      e,
      h,
      enforce-quiet d.now i.organization_id start,
      invitee-IsQuiet sec d i full_name password (user_by_email sec i.email s) start,
    );
  }

  -- A link that was accepted
  spent :
      (i : Invitation) (later : Time) (t : Store)
      → open_invitation sec token d.now s ≡ some i
      → t.invitations ≡ (change_invitation i.id (accepted d.now) s).invitations
      → open_invitation sec token later t ≡ none
  spent i later t h e = ground (
    arith,
    h,
    e,
    find-unseen (λ (j : Invitation). j.token_hash == sec.hash_opaque_secret token)
        (λ j. j.id == i.id) (accepted d.now) s.invitations (λ j. refl),
  )

  -- Whoever accepts an invitation gets the membership that it offers, in an organization that had
  -- room for it, and no other; and from then on the same link is refused to everybody, and changes
  -- nothing.
  pub accept_invitation-once :
      (u : User) (m : Membership)
      → (request (accept_invitation sec ctx d token full_name password) s).0 ≡ ok (u, m)
      → (i : Invitation) × IsJoined i
          (request (accept_invitation sec ctx d token full_name password) s)
        × ((later : Draw) (other : RequestContext) (name word : Option String)
            → let after = (request (accept_invitation sec ctx d token full_name password) s).1 in
              request (accept_invitation sec other later token name word) after
              ≡ (err Error.domain_not_found, after))
  accept_invitation-once u m h = elim (Option-cases (open_invitation sec token d.now s)) [
    | inl e ↦ absurd (cc (h, refused sec ctx d token full_name password s e))
    | inr (i, e) ↦ (
      i,
      joined i u m e h,
      λ later other name word.
          refused sec other later token name word
            (request (accept_invitation sec ctx d token full_name password) s).1
            (spent i later.now (request (accept_invitation sec ctx d token full_name password) s).1
              e (joined i u m e h).invitations),
    )
  ]
