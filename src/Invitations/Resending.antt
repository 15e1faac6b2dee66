-- ===== src/Invitations/Resending.antt =====
-- A link that was sent again replaces the one before.
use visi_on_route.Prelude.{
  Bool, Time, arith, count, false, find-spent, find-unseen, is_none, none, refl, some, true,
  update_where, ℕ, ◌&&◌, ◌==◌, ◌≡◌, ◌≤◌,
}
use visi_on_route.Tx.{request, ok}
use visi_on_route.Access.Context.{RequestContext}
use visi_on_route.Audit.{record_audit}
use visi_on_route.Identity.Store.{Store, Invitation, add_audit}
use visi_on_route.Account.Base.{Security, enqueue, add_message}
use visi_on_route.Invitations.Service.{
  Draw, resend_invitation, send_again, send_invitation, tenant_invitation, rotated, sent_at,
  is_hash_taken, change_invitation, invitation_by_token, open_invitation, invitation_message,
}

module _ (sec : Security) (ctx : RequestContext) (d : Draw) (k : ℕ) (s : Store)
    (i : Invitation) where
  -- The invitation is the tenant's and still waits, and a message can be sent.
  pub record IsResendable : Type 0 where
    pub found : tenant_invitation ctx k s ≡ some i
    pub waiting : (is_none i.accepted_at && is_none i.revoked_at) ≡ true
    pub fresh : is_hash_taken (rotated sec d i) s ≡ false
    pub mail : d.has_mail ≡ true
    pub cipher : sec.has_cipher ≡ true

  -- The store with the new link
  renewed : Store
  renewed = change_invitation i.id (λ _. rotated sec d i) s

  after_sending : Store
  after_sending = add_audit (record_audit ctx none "invitation.resent" i.id) (
      change_invitation i.id (sent_at d.now)
        (add_message (invitation_message (rotated sec d i) d.secret) renewed))

  resend_runs :
      IsResendable
      → request (resend_invitation sec ctx d k) s
        ≡ (ok (sent_at d.now (rotated sec d i)), after_sending)
  unfolding resend_invitation send_again send_invitation enqueue after_sending renewed
  resend_runs r = ground (arith, r.found, r.waiting, r.fresh, r.mail, r.cipher)

  invitations_left :
      after_sending.invitations
      ≡ update_where
          (λ (j : Invitation). j.id == i.id)
          (sent_at d.now)
          (update_where (λ (j : Invitation). j.id == i.id) (λ _. rotated sec d i) s.invitations)
  unfolding after_sending renewed
  invitations_left = ground arith

  abbrev has_hash : ℕ → Invitation → Bool
  has_hash old j = j.token_hash == sec.hash_opaque_secret old

  old_link :
      (old : ℕ)
      → invitation_by_token sec old s ≡ some i
      → count (has_hash old) s.invitations ≤ 1
      → (sec.hash_opaque_secret d.secret == sec.hash_opaque_secret old) ≡ false
      → invitation_by_token sec old after_sending ≡ none
  old_link old h one other = ground (
    arith,
    invitations_left,
    find-unseen (has_hash old) (λ j. j.id == i.id) (sent_at d.now)
        (update_where (λ (j : Invitation). j.id == i.id) (λ _. rotated sec d i) s.invitations)
        (λ j. refl),
    find-spent (has_hash old) (λ j. j.id == i.id) (λ _. rotated sec d i) (λ j. other) i
        s.invitations h (ground arith) one,
  )

  -- Sending a waiting invitation again succeeds and replaces its link: the link before, which no
  -- other invitation has, opens nothing from then on.
  pub resend_invitation-replaces :
      (old : ℕ) (later : Time)
      → IsResendable
      → invitation_by_token sec old s ≡ some i
      → count (has_hash old) s.invitations ≤ 1
      → (sec.hash_opaque_secret d.secret == sec.hash_opaque_secret old) ≡ false
      → ((request (resend_invitation sec ctx d k) s).0 ≡ ok (sent_at d.now (rotated sec d i)))
        × (open_invitation sec old later (request (resend_invitation sec ctx d k) s).1 ≡ none)
  resend_invitation-replaces old later r h one other =
      ground (arith, resend_runs r, old_link old h one other)
