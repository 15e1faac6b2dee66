-- ===== src/Identity/Closing.antt =====
-- Changes that revoke sessions: they keep the invariant and close families.
use visi_on_route.Prelude.{
  Bool, List, Option, Time, [], arith, count, count-update, false, is_none, none, one_if, or_else,
  refl, some, update_where, ℕ, ◌==◌, ◌∷◌, ◌≡◌,
}
use visi_on_route.Identity.Store.{Store, Session}
use visi_on_route.Identity.Families.{IsValid, IsInPlace, open_in, updated-IsValid, HasLinks-same}
use visi_on_route.Identity.Sessions.{revoke_family, is_open, revoke}
use visi_on_route.Identity.Rotation.{change_session, revoke_now, session_by_id, stop}

-- The change of a row by `revoke_family`.
revoke-IsInPlace : (now : Time) (reuse : Bool) → IsInPlace (revoke now reuse)
revoke-IsInPlace now reuse = record {
  id = λ x. refl;
  family = λ x. refl;
  closed = λ x h. ground arith;
}

pub revoke_family-IsValid :
    (family : ℕ) (reuse : Bool) (now : Time) (s : Store)
    → IsValid s
    → IsValid (revoke_family family reuse now s)
unfolding revoke_family
revoke_family-IsValid family reuse now s v =
    updated-IsValid (open_in family) (revoke now reuse) (revoke-IsInPlace now reuse) s
      (HasLinks-same (open_in family) (revoke now reuse) (revoke-IsInPlace now reuse) s (λ x. refl)
        v)
      v

count-closed :
    (p : Session → Bool) (f : Session → Session)
    → ((x : Session) → p (f x) ≡ false)
    → (xs : List Session) → count p (update_where p f xs) ≡ 0
count-closed p f e [] = refl
count-closed p f e (x ∷ xs) = ground (arith, count-closed p f e xs, e x)

pub revoke_family-closes :
    (family : ℕ) (reuse : Bool) (now : Time) (s : Store)
    → count (open_in family) (revoke_family family reuse now s).sessions ≡ 0
unfolding revoke_family
revoke_family-closes family reuse now s =
    count-closed (open_in family) (revoke now reuse) (λ x. ground arith) s.sessions

-- The changes of one row that close it and keep its links.
pub record IsClosing (f : Session → Session) : Type 0 where
  pub in_place : IsInPlace f
  pub shut : (x : Session) → is_open (f x) ≡ false
  pub link : (x : Session) → (f x).replaced_by_id ≡ x.replaced_by_id

pub revoke_now-IsClosing : (now : Time) → IsClosing (revoke_now now)
revoke_now-IsClosing now = record {
  in_place = record { id = λ x. refl; family = λ x. refl; closed = λ x h. ground arith };
  shut = λ x. refl;
  link = λ x. refl;
}

or_else-shut : (o : Option Time) (now : Time) → is_none (or_else o (some now)) ≡ false
or_else-shut none now = refl
or_else-shut (some t) now = refl

pub stop-IsClosing : (now : Time) → IsClosing (stop now)
stop-IsClosing now = record {
  in_place = record {
    id = λ x. refl;
    family = λ x. refl;
    closed = λ x h. absurd (cc (or_else-shut x.revoked_at now, h));
  };
  shut = λ x. or_else-shut x.revoked_at now;
  link = λ x. refl;
}

module _ (k : ℕ) (f : Session → Session) (c : IsClosing f) where
  pub change-IsValid : (s : Store) → IsValid s → IsValid (change_session k f s)
  change-IsValid s v =
      updated-IsValid (λ x. x.id == k) f c.in_place s
        (HasLinks-same (λ x. x.id == k) f c.in_place s c.link v) v

  -- Closing the open session of a family closes the family.
  pub change-closes :
      (s : Store) (x : Session)
      → IsValid s
      → session_by_id k s ≡ some x
      → count (open_in x.family_id) s.sessions ≡ one_if (is_open x)
      → count (open_in x.family_id) (change_session k f s).sessions ≡ 0
  change-closes s x v h e = ground (
    arith,
    c.shut x,
    c.in_place.family x,
    count-update (λ (y : Session). y.id) k (open_in x.family_id) f x s.sessions h (v.unique_ids k),
  )
