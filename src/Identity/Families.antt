-- ===== src/Identity/Families.antt =====
-- The invariant of the session rows: a rotation family has at most one open session.
use visi_on_route.Prelude.{
  Bool, Bool-cases, Option, Option-cases, any-false, ap, arith, count, count-update_where_le,
  count_mono, false, find-counts, find-updated, if◌then◌else◌, inl, inr, none, on_some, refl, some,
  sym, true, update_where, ℕ, ◌&&◌, ◌==◌, ◌||◌, ◌∙◌, ◌≡◌, ◌≤◌,
}
use visi_on_route.Identity.Store.{Store, Session}
use visi_on_route.Identity.Sessions.{in_family, is_open, is_taken, put_session}
use visi_on_route.Identity.Rotation.{session_by_id}

-- The family of the session under an identifier.
abbrev pub family_at : ℕ → Store → Option ℕ
family_at k s = on_some (λ (x : Session). x.family_id) (session_by_id k s)

abbrev pub open_in : ℕ → Session → Bool
open_in f x = in_family f x && is_open x

-- Identifiers are unique, a family has at most one open session, and a session's successor belongs
-- to its family.
pub record IsValid (s : Store) : Type 0 where
  pub unique_ids : (k : ℕ) → count (λ (x : Session). x.id == k) s.sessions ≤ 1
  pub one_open : (f : ℕ) → count (open_in f) s.sessions ≤ 1
  pub links :
      (k j : ℕ) (x : Session)
      → session_by_id k s ≡ some x
      → x.replaced_by_id ≡ some j
      → family_at j s ≡ some x.family_id

-- Changes that leave every session where it is.
pub record IsInPlace (f : Session → Session) : Type 0 where
  pub id : (x : Session) → (f x).id ≡ x.id
  pub family : (x : Session) → (f x).family_id ≡ x.family_id
  pub closed : (x : Session) → is_open (f x) ≡ true → is_open x ≡ true

module _ (q : Session → Bool) (f : Session → Session) (quiet : IsInPlace f) where
  abbrev pub updated : Store → Store
  updated s = record s { sessions = update_where q f s.sessions }

  abbrev pub row : Session → Session
  row x = if q x then f x else x

  row-family : (x : Session) → (row x).family_id ≡ x.family_id
  row-family x = ground (arith, quiet.family x)

  pub look : (k : ℕ) (s : Store) → session_by_id k (updated s) ≡ on_some row (session_by_id k s)
  look k s = find-updated (λ (x : Session). x.id) k q f s.sessions quiet.id

  family_kept :
      (o : Option Session)
      → on_some (λ (x : Session). x.family_id) (on_some row o)
        ≡ on_some (λ (x : Session). x.family_id) o
  family_kept none = refl
  family_kept (some x) = ap some (row-family x)

  pub family_at-updated : (k : ℕ) (s : Store) → family_at k (updated s) ≡ family_at k s
  family_at-updated k s =
      ap (on_some (λ (x : Session). x.family_id)) (look k s) ∙ family_kept (session_by_id k s)

  open_kept : (n : ℕ) (x : Session) → open_in n (f x) ≡ true → open_in n x ≡ true
  open_kept n x h = ground (arith, quiet.family x, quiet.closed x)

  pub unique_ids-updated :
      (s : Store)
      → IsValid s
      → (k : ℕ) → count (λ (x : Session). x.id == k) (updated s).sessions ≤ 1
  unique_ids-updated s v k = omega (
    arith,
    v.unique_ids k,
    count-update_where_le (λ (x : Session). x.id == k) q f s.sessions
        (λ x h. ground (arith, quiet.id x)),
  )

  pub one_open-updated :
      (s : Store) → IsValid s → (n : ℕ) → count (open_in n) (updated s).sessions ≤ 1
  one_open-updated s v n =
      omega (arith, v.one_open n, count-update_where_le (open_in n) q f s.sessions (open_kept n))

  -- Each link of the changed rows leads to the family of its session.
  abbrev pub HasLinks : Store → Type 0
  HasLinks s =
      (k : ℕ) (x : Session) (j : ℕ)
      → session_by_id k s ≡ some x
      → (row x).replaced_by_id ≡ some j
      → family_at j s ≡ some x.family_id

  links_kept :
      (s : Store) (k j : ℕ) (y : Session) (o : Option Session)
      → HasLinks s
      → session_by_id k s ≡ o
      → on_some row o ≡ some y
      → y.replaced_by_id ≡ some j
      → family_at j (updated s) ≡ some y.family_id
  links_kept s k j y none v e h l = absurd (cc h)
  links_kept s k j y (some x) v e h l =
      family_at-updated j s
      ∙ v k x j e (ap (λ (z : Session). z.replaced_by_id) same_row ∙ l)
      ∙ ap some (sym (row-family x) ∙ ap (λ (z : Session). z.family_id) same_row)
    where
      same_row : row x ≡ y
      same_row = cc

  pub updated-IsValid : (s : Store) → HasLinks s → IsValid s → IsValid (updated s)
  updated-IsValid s h v = record {
    unique_ids = unique_ids-updated s v;
    one_open = one_open-updated s v;
    links = λ k j y e l. links_kept s k j y (session_by_id k s) h refl (sym (look k s) ∙ e) l;
  }

  row-link :
      ((x : Session) → (f x).replaced_by_id ≡ x.replaced_by_id)
      → (x : Session) → (row x).replaced_by_id ≡ x.replaced_by_id
  row-link e x = ground (arith, e x)

  -- Where no link changes, the links still lead to the family.
  pub HasLinks-same :
      (s : Store)
      → ((x : Session) → (f x).replaced_by_id ≡ x.replaced_by_id)
      → IsValid s
      → HasLinks s
  HasLinks-same s e v k x j h l = v.links k j x h (sym (row-link e x) ∙ l)

id_free :
    (x : Session) (s : Store)
    → is_taken x s ≡ false
    → count (λ (y : Session). y.id == x.id) s.sessions ≡ 0
unfolding is_taken
id_free x s free = omega (
  arith,
  any-false (λ (y : Session). (y.id == x.id) || (y.refresh_token_hash == x.refresh_token_hash))
      s.sessions free,
  count_mono (λ (y : Session). y.id == x.id)
      (λ (y : Session). (y.id == x.id) || (y.refresh_token_hash == x.refresh_token_hash)) s.sessions
      (λ y h. ground arith),
)

-- An identifier that is in use is not the one of a new session.
pub not_new :
    (x : Session) (s : Store) (k : ℕ) (y : Session)
    → is_taken x s ≡ false
    → session_by_id k s ≡ some y
    → (x.id == k) ≡ false
not_new x s k y free h = elim (Bool-cases (x.id == k)) [
  | inr e ↦ e
  | inl e ↦ ground (arith, id_free x s free, find-counts (λ (z : Session). z.id == k) s.sessions y)
]

family_at_put :
    (x : Session) (s : Store) (j n : ℕ)
    → is_taken x s ≡ false
    → family_at j s ≡ some n
    → family_at j (put_session x s) ≡ some n
family_at_put x s j n free h = elim (Option-cases (session_by_id j s)) [
  | inl none_found ↦ ground arith
  | inr (y, e) ↦ ground (arith, not_new x s j y free e)
]

-- A session that takes no identifier may be added to a family with no open session.
pub add-IsValid :
    (x : Session) (s : Store)
    → is_taken x s ≡ false
    → x.replaced_by_id ≡ none
    → count (open_in x.family_id) s.sessions ≡ 0
    → IsValid s
    → IsValid (put_session x s)
unfolding is_taken
add-IsValid x s free fresh closed v = record {
  unique_ids = λ k. ground (arith, id_free x s free, v.unique_ids k);
  one_open = λ n. ground (arith, v.one_open n);
  links = λ k j y h l. elim (Bool-cases (x.id == k)) [
    | inl e ↦ ground arith
    | inr e ↦ family_at_put x s j y.family_id free (v.links k j y (rw e at h) l)
  ];
}
