-- ===== src/Identity/Rotating.antt =====
-- `rotate_refresh_token` keeps the invariant of the sessions.
use mathlib.Core.Option.{some-injective}
use visi_on_route.Prelude.{
  Bool-cases, List, Option, Option-cases, Time, [], ap, arith, count, find, find-holds,
  find-own_key, inl, inr, none, one_if, some, subst, sym, true, ℕ, ◌==◌, ◌∙◌, ◌∷◌, ◌≡◌, ◌≤◌,
}
use visi_on_route.Identity.Store.{Store, Session, add_audit}
use visi_on_route.Identity.Families.{IsValid, open_in}
use visi_on_route.Audit.{AuditLog}
use visi_on_route.Identity.Sessions.{Service, is_open, by_token}
use visi_on_route.Identity.Rotation.{session_by_id, still_open, unused_successor, in_grace}
use visi_on_route.Access.Context.{RequestContext}

-- The session is stored as it was read.
abbrev pub IsStored : Session → Store → Type 0
IsStored x s = session_by_id x.id s ≡ some x

-- It may be rotated: no other session of its family is open.
abbrev pub IsReady : Session → Store → Type 0
IsReady x s = IsStored x s × (count (open_in x.family_id) s.sessions ≡ one_if (is_open x))

pub audit-IsValid : (entry : AuditLog) (s : Store) → IsValid s → IsValid (add_audit entry s)
audit-IsValid entry s v = record {
  unique_ids = v.unique_ids;
  one_open = v.one_open;
  links = v.links;
}

pub token-IsStored :
    (svc : Service) (token : ℕ) (x : Session) (s : Store)
    → IsValid s
    → by_token svc token s ≡ some x
    → IsStored x s
token-IsStored svc token x s v h =
    find-own_key (λ (y : Session). y.id)
      (λ (y : Session). y.refresh_token_hash == svc.hash_opaque_secret token) x s.sessions h
      (v.unique_ids x.id)

-- The one open session of a family is the only one.
pub open-IsReady :
    (x : Session) (s : Store) → IsValid s → IsStored x s → is_open x ≡ true → IsReady x s
open-IsReady x s v h o = (h, ground (arith, v.one_open x.family_id, counted s.sessions h))
  where
    counted :
        (xs : List Session)
        → find (λ (y : Session). y.id == x.id) xs ≡ some x
        → 1 ≤ count (open_in x.family_id) xs
    counted [] e = ground arith
    counted (y ∷ ys) e = ground (arith, counted ys)

-- What `_unused_successor` finds.
pub record IsSuccessor (x y : Session) (s : Store) : Type 0 where
  pub linked : x.replaced_by_id ≡ some y.id
  pub stored : IsStored y s
  pub opened : is_open y ≡ true

still_open-some :
    (o : Option Session) (y : Session) → still_open o ≡ some y → (o ≡ some y) × (is_open y ≡ true)
still_open-some none y h = absurd (cc h)
still_open-some (some z) y h = elim (Bool-cases (is_open z)) [
  | inl e ↦ (rw e at h, sym (ap is_open (some-injective z y (rw e at h))) ∙ e)
  | inr e ↦ absurd (cc (rw e at h))
]

module _ (svc : Service) (ctx : RequestContext) (now : Time) (x y : Session) (s : Store) where
  pub unused_successor_lem : unused_successor svc ctx now x s ≡ some y → IsSuccessor x y s
  unfolding unused_successor
  unused_successor_lem h = elim (Option-cases x.replaced_by_id) [
    | inl e ↦ absurd (cc (rw e at h))
    | inr (j, e) ↦ elim (Option-cases x.revoked_at) [
      | inl f ↦ absurd (cc (rw f at (rw e at h)))
      | inr (t, f) ↦ elim (Bool-cases (in_grace svc ctx now x t)) [
        | inr g ↦ absurd (cc (rw g at (rw f at (rw e at h))))
        | inl g ↦ found j e (still_open-some (session_by_id j s) y (rw g at (rw f at (rw e at h))))
      ]
    ]
  ]
    where
      found :
          (j : ℕ)
          → x.replaced_by_id ≡ some j
          → (session_by_id j s ≡ some y) × (is_open y ≡ true)
          → IsSuccessor x y s
      found j e (h, o) = record {
        linked = e ∙ ap some (sym same_id);
        stored = subst (λ k. session_by_id k s ≡ some y) (sym same_id) h;
        opened = o;
      }
        where
          same_id : y.id ≡ j
          same_id = ground (arith, find-holds (λ (z : Session). z.id == j) s.sessions y h)
