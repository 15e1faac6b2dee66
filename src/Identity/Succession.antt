-- ===== src/Identity/Succession.antt =====
-- The successor of a rotated session, and the whole of `rotate_refresh_token`.
use mathlib.Core.Option.{some-injective}
use visi_on_route.Prelude.{
  Bool, Bool-cases, ap, arith, count, false, find-holds, if◌then◌else◌, inl, inr, not, on_some,
  refl, some, subst, sym, true, ◌==◌, ◌∙◌, ◌≡◌,
}
use visi_on_route.Tx.{
  Triple, Triple-bind, Triple-modify, Triple-raise_unless, modify, raise_unless, Error, ◌>>◌, gets,
  Triple-gets,
}
use visi_on_route.Identity.Store.{Store, Session}
use visi_on_route.Identity.Families.{
  IsValid, IsInPlace, look, family_at, open_in, HasLinks, add-IsValid, not_new, updated-IsValid,
}
use visi_on_route.Identity.Rotating.{IsReady}
use visi_on_route.Identity.Sessions.{Service, Draw, is_taken, put_session, add_session}
use visi_on_route.Identity.Rotation.{
  change_session, next_session, session_by_id, replace_by, stop, succeed,
}
use visi_on_route.Identity.Closing.{change-IsValid, stop-IsClosing, change-closes}

module _ (svc : Service) (d : Draw) (x : Session) where
  stopped : Store → Store
  stopped s = change_session x.id (stop d.now) s

  -- After the session is stopped its family is closed.
  record IsStopped (s : Store) : Type 0 where
    stored : session_by_id x.id s ≡ some (stop d.now x)
    shut : count (open_in x.family_id) s.sessions ≡ 0

  change-stored :
      (f : Session → Session) (c : IsInPlace f) (y : Session) (s : Store)
      → session_by_id x.id s ≡ some y
      → session_by_id x.id (change_session x.id f s) ≡ some (f y)
  change-stored f c y s h =
      look (λ z. z.id == x.id) f c x.id s
      ∙ ap (on_some (λ (z : Session). if z.id == x.id then f z else z)) h
      ∙ ground (arith, find-holds (λ (z : Session). z.id == x.id) s.sessions y h)

  stop-Triple :
      Triple IsValid (IsReady x) (modify (change_session x.id (stop d.now))) (λ _. IsStopped)
  stop-Triple =
      Triple-modify {Post = IsStopped} (change_session x.id (stop d.now))
        (λ s v _. change-IsValid x.id (stop d.now) (stop-IsClosing d.now) s v)
        (λ s v p. record {
          stored = change-stored (stop d.now) (stop-IsClosing d.now).in_place x s p.0;
          shut = change-closes x.id (stop d.now) (stop-IsClosing d.now) s x v p.0 p.1;
        })

  -- After the successor is added, both rows can be found.
  record IsPaired (s : Store) : Type 0 where
    first : session_by_id x.id s ≡ some (stop d.now x)
    second : family_at d.session_id s ≡ some x.family_id

  put-first :
      (s : Store)
      → is_taken (next_session svc d x) s ≡ false
      → IsStopped s
      → IsPaired (put_session (next_session svc d x) s)
  unfolding next_session
  put-first s free p = record {
    first =
        ground
          (arith, p.stored, not_new (next_session svc d x) s x.id (stop d.now x) free p.stored);
    second = ground arith;
  }

  put-IsValid :
      (s : Store)
      → is_taken (next_session svc d x) s ≡ false
      → IsValid s
      → count (open_in x.family_id) s.sessions ≡ 0
      → IsValid (put_session (next_session svc d x) s)
  unfolding next_session
  put-IsValid s free v e = add-IsValid (next_session svc d x) s free refl e v

  untaken :
      (s : Store) (taken : Bool)
      → (IsStopped s × (is_taken (next_session svc d x) s ≡ taken)) × (not taken ≡ true)
      → is_taken (next_session svc d x) s ≡ false
  untaken s taken p = ground (arith, p.0.1, p.1)

  replace_by-IsInPlace : IsInPlace (replace_by d.session_id)
  replace_by-IsInPlace = record { id = λ z. refl; family = λ z. refl; closed = λ z h. h }

  link-HasLinks :
      (s : Store)
      → IsValid s
      → IsPaired s
      → HasLinks (λ z. z.id == x.id) (replace_by d.session_id) replace_by-IsInPlace s
  link-HasLinks s v p k z j e l = elim (Bool-cases (z.id == x.id)) [
    | inr other ↦ v.links k j z e (rw other at l)
    | inl here ↦ new_link here (rw here at l)
  ]
    where
      new_link :
          (z.id == x.id) ≡ true → some d.session_id ≡ some j → family_at j s ≡ some z.family_id
      new_link here l' =
          subst (λ n. family_at n s ≡ some z.family_id) (some-injective d.session_id j l')
            (p.second ∙ ap some (sym same_family))
        where
          found : session_by_id x.id s ≡ some z
          found =
              subst (λ n. session_by_id n s ≡ some z)
                (ground (arith, here, find-holds (λ (y : Session). y.id == k) s.sessions z e)) e

          same_family : z.family_id ≡ x.family_id
          same_family =
              ap (λ (y : Session). y.family_id)
                (some-injective z (stop d.now x) (sym found ∙ p.first))

  put-Triple :
      (taken : Bool)
      → Triple IsValid
          (λ s. IsStopped s × (is_taken (next_session svc d x) s ≡ taken))
          (raise_unless (not taken) Error.integrity_error
            >> modify (put_session (next_session svc d x)))
          (λ _. IsPaired)
  put-Triple taken =
      Triple-bind
        {Mid = λ _ s.
          (IsStopped s × (is_taken (next_session svc d x) s ≡ taken)) × (not taken ≡ true)}
        (raise_unless (not taken) Error.integrity_error)
        (λ _. modify (put_session (next_session svc d x)))
        (Triple-raise_unless (not taken) Error.integrity_error)
        (λ _.
          Triple-modify {Post = IsPaired} (put_session (next_session svc d x))
            (λ s v p. put-IsValid s (untaken s taken p) v p.0.0.shut)
            (λ s v p. put-first s (untaken s taken p) p.0.0))

  link-Triple :
      Triple IsValid IsPaired
        (modify (change_session x.id (replace_by d.session_id)))
        (λ _ _. Unit {0})
  link-Triple =
      Triple-modify {Post = λ _. Unit {0}} (change_session x.id (replace_by d.session_id))
        (λ s v p.
          updated-IsValid (λ z. z.id == x.id) (replace_by d.session_id) replace_by-IsInPlace s
            (link-HasLinks s v p) v)
        (λ s v p. tt)

  pub succeed-Triple : Triple IsValid (IsReady x) (succeed svc d x) (λ _ _. Unit {0})
  unfolding succeed add_session
  succeed-Triple =
      Triple-bind {Mid = λ _. IsStopped} (modify (change_session x.id (stop d.now)))
        (λ _.
          add_session (next_session svc d x)
          >> modify (change_session x.id (replace_by d.session_id)))
        stop-Triple
        (λ _.
          Triple-bind {Mid = λ _. IsPaired} (add_session (next_session svc d x))
            (λ _. modify (change_session x.id (replace_by d.session_id)))
            (Triple-bind (gets (is_taken (next_session svc d x)))
              (λ taken.
                raise_unless (not taken) Error.integrity_error
                >> modify (put_session (next_session svc d x)))
              (Triple-gets (is_taken (next_session svc d x))) put-Triple)
            (λ _. link-Triple))
