-- ===== src/Prelude/Updates.antt =====
-- Laws of updates by a function of the row.
use Prim.Native.Nat.{ℕ, ◌+◌, ◌≤◌}
use mathlib.Core.Path.{◌≡◌, refl}
use mathlib.Core.Logic.{inl, inr}
use mathlib.Core.Bool.{Bool, true, false, not}
use mathlib.Core.List.{List, [], ◌∷◌}
use mathlib.Core.Option.{Option, none, some}
use native.Mathlib.Omega.{arith}
use visi_on_route.Prelude.Tests.{◌==◌, if◌then◌else◌, Bool-cases}
use visi_on_route.Prelude.Lists.{find, count, update_where, select}
use visi_on_route.Prelude.Queries.{one_if, update_where-none}

abbrev pub on_some {ℓ κ} : {A : Type ℓ} {B : Type κ} → (A → B) → Option A → Option B
on_some f none = none
on_some f (some a) = some (f a)

module _ {ℓ} {A : Type ℓ} (key : A → ℕ) (k : ℕ) where
  -- Where the key is unique, changing the row `a` exchanges it for `f a` in every count.
  pub count-update :
      (p : A → Bool) (f : A → A) (a : A) (xs : List A)
      → find (λ x. key x == k) xs ≡ some a
      → count (λ x. key x == k) xs ≤ 1
      → count p (update_where (λ x. key x == k) f xs) + one_if (p a) ≡ count p xs + one_if (p (f a))
  count-update p f a [] h u = ground arith
  count-update p f a (x ∷ xs) h u = elim (Bool-cases (key x == k)) [
    | inl here ↦ ground (arith, update_where-none (λ y. key y == k) f xs)
    | inr elsewhere ↦ ground (arith, count-update p f a xs)
  ]

  -- An update that keeps the keys shows through a look-up.
  pub find-updated :
      (q : A → Bool) (f : A → A) (xs : List A)
      → ((x : A) → key (f x) ≡ key x)
      → find (λ x. key x == k) (update_where q f xs)
        ≡ on_some (λ x. if q x then f x else x) (find (λ x. key x == k) xs)
  find-updated q f [] e = refl
  find-updated q f (x ∷ xs) e = ground (arith, find-updated q f xs e, e x)

-- An update that a query does not see shows through it.
pub find-unseen {ℓ} :
    {A : Type ℓ} (p q : A → Bool) (f : A → A) (xs : List A)
    → ((x : A) → p (f x) ≡ p x)
    → find p (update_where q f xs) ≡ on_some (λ x. if q x then f x else x) (find p xs)
find-unseen p q f [] e = refl
find-unseen p q f (x ∷ xs) e = ground (arith, find-unseen p q f xs e, e x)

module _ {ℓ} {A : Type ℓ} (p q : A → Bool) (f : A → A) (shut : (x : A) → p (f x) ≡ false) where
  find-uncounted : (xs : List A) → count p xs ≡ 0 → find p (update_where q f xs) ≡ none
  find-uncounted [] h = refl
  find-uncounted (x ∷ xs) h = ground (arith, find-uncounted xs, shut x)

  -- Where a query has one answer at most, an update that takes the answer away leaves none.
  pub find-spent :
      (a : A) (xs : List A)
      → find p xs ≡ some a
      → q a ≡ true
      → count p xs ≤ 1
      → find p (update_where q f xs) ≡ none
  find-spent a [] h e u = refl
  find-spent a (x ∷ xs) h e u = elim (Bool-cases (p x)) [
    | inl here ↦ ground (arith, find-uncounted xs, shut x)
    | inr elsewhere ↦ ground (arith, find-spent a xs, shut x)
  ]

-- An update that a query does not see on the rows that it changes leaves its count.
pub count-unseen {ℓ} :
    {A : Type ℓ} (p q : A → Bool) (f : A → A) (xs : List A)
    → ((x : A) → q x ≡ true → p (f x) ≡ p x)
    → count p (update_where q f xs) ≡ count p xs
count-unseen p q f [] e = refl
count-unseen p q f (x ∷ xs) e = ground (arith, count-unseen p q f xs e, e x)

module _ {ℓ} {A : Type ℓ} (p q : A → Bool) (within : (x : A) → q x ≡ false → p x ≡ false) where
  -- An update that clears every row of a query leaves it none.
  pub count-cleared :
      (f : A → A) (xs : List A) → ((x : A) → p (f x) ≡ false) → count p (update_where q f xs) ≡ 0
  count-cleared f [] e = refl
  count-cleared f (x ∷ xs) e = ground (arith, count-cleared f xs e, e x, within x)

  -- So does the removal of those rows.
  pub count-removed : (xs : List A) → count p (select (λ x. not (q x)) xs) ≡ 0
  count-removed [] = refl
  count-removed (x ∷ xs) = ground (arith, count-removed xs, within x)
