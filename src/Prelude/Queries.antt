-- ===== src/Prelude/Queries.antt =====
-- Laws of the queries and updates on a table whose rows have a key.
use Prim.Native.Nat.{ℕ, ◌+◌, ◌≤◌}
use mathlib.Core.Path.{◌≡◌, refl, ap}
use mathlib.Core.Logic.{inl, inr}
use mathlib.Core.Bool.{Bool, true, false, ◌&&◌}
use mathlib.Core.List.{List, [], ◌∷◌}
use mathlib.Core.Option.{none, some}
use native.Mathlib.Omega.{arith}
use visi_on_route.Prelude.Tests.{◌==◌, if◌then◌else◌, Bool-cases}
use visi_on_route.Prelude.Lists.{find, any, count, update_where}

abbrev pub one_if : Bool → ℕ
one_if b = if b then 1 else 0

module _ {ℓ} {A : Type ℓ} where
  -- What a query finds passes its test.
  pub find-holds : (p : A → Bool) (xs : List A) (a : A) → find p xs ≡ some a → p a ≡ true
  find-holds p [] a h = ground arith
  find-holds p (x ∷ xs) a h = elim (Bool-cases (p x)) [
    | inl e ↦ ground (arith, ap p (some-eq x a (rw e at h)))
    | inr e ↦ find-holds p xs a (rw e at h)
  ]
    where
      some-eq : (x y : A) → some x ≡ some y → x ≡ y
      some-eq x y e = cc

  pub find-counts : (p : A → Bool) (xs : List A) (a : A) → find p xs ≡ some a → 1 ≤ count p xs
  find-counts p [] a h = ground arith
  find-counts p (x ∷ xs) a h = ground (arith, find-counts p xs a)

  pub count-none : (p : A → Bool) (xs : List A) → find p xs ≡ none → count p xs ≡ 0
  count-none p [] h = refl
  count-none p (x ∷ xs) h = ground (arith, count-none p xs)

  pub any-false : (p : A → Bool) (xs : List A) → any p xs ≡ false → count p xs ≡ 0
  any-false p [] h = refl
  any-false p (x ∷ xs) h = ground (arith, any-false p xs)

  -- A narrower test counts no more.
  pub count_mono :
      (p q : A → Bool) (xs : List A) → ((x : A) → p x ≡ true → q x ≡ true) → count p xs ≤ count q xs
  count_mono p q [] h = omega arith
  count_mono p q (x ∷ xs) h = ground (arith, count_mono p q xs h, h x)

  -- An update where no row passes the test changes nothing.
  pub update_where-none :
      (p : A → Bool) (f : A → A) (xs : List A) → count p xs ≡ 0 → update_where p f xs ≡ xs
  update_where-none p f [] h = refl
  update_where-none p f (x ∷ xs) h = ground (arith, update_where-none p f xs)

  -- An update that turns no failing row into a passing one does not raise a count.
  pub count-update_where_le :
      (p q : A → Bool) (f : A → A) (xs : List A)
      → ((x : A) → p (f x) ≡ true → p x ≡ true)
      → count p (update_where q f xs) ≤ count p xs
  count-update_where_le p q f [] h = omega arith
  count-update_where_le p q f (x ∷ xs) h = ground (arith, count-update_where_le p q f xs h, h x)

module _ {ℓ} {A : Type ℓ} (key : A → ℕ) (p g : A → Bool) (k : ℕ) (a b : A) where
  -- Where the key is unique, writing `b` over the row `a` that a query found exchanges the two in
  -- every count.
  pub count-replace :
      (xs : List A)
      → find (λ x. g x && (key x == k)) xs ≡ some a
      → count (λ x. key x == k) xs ≤ 1
      → count p (update_where (λ x. key x == k) (λ _. b) xs) + one_if (p a)
        ≡ count p xs + one_if (p b)
  count-replace [] h u = ground arith
  count-replace (x ∷ xs) h u = elim (Bool-cases (key x == k)) [
    | inl here ↦ elim (Bool-cases (g x)) [
      | inl found ↦ ground (arith, update_where-none (λ y. key y == k) (λ _. b) xs)
      | inr other ↦ ground (
        arith,
        find-counts (λ y. g y && (key y == k)) xs a,
        count_mono (λ y. g y && (key y == k)) (λ y. key y == k) xs (λ y e. ground arith),
      )
    ]
    | inr elsewhere ↦ ground (arith, count-replace xs)
  ]

module _ {ℓ} {A : Type ℓ} (key : A → ℕ) (k : ℕ) where
  -- Where the key is unique, a further condition does not change which row is found.
  pub find-key :
      (g : A → Bool) (xs : List A) (a : A)
      → find (λ x. g x && (key x == k)) xs ≡ some a
      → count (λ x. key x == k) xs ≤ 1
      → find (λ x. key x == k) xs ≡ some a
  find-key g [] a h u = ground arith
  find-key g (x ∷ xs) a h u = elim (Bool-cases (key x == k)) [
    | inl here ↦ elim (Bool-cases (g x)) [
      | inl found ↦ ground arith
      | inr other ↦ ground (
        arith,
        find-counts (λ y. g y && (key y == k)) xs a,
        count_mono (λ y. g y && (key y == k)) (λ y. key y == k) xs (λ y e. ground arith),
      )
    ]
    | inr elsewhere ↦ ground (arith, find-key g xs a)
  ]

  -- A row that was written is the row found afterwards.
  pub find-update_where :
      (b a : A) (xs : List A)
      → key b ≡ k
      → find (λ x. key x == k) xs ≡ some a
      → find (λ x. key x == k) (update_where (λ x. key x == k) (λ _. b) xs) ≡ some b
  find-update_where b a [] e h = ground arith
  find-update_where b a (x ∷ xs) e h = ground (arith, find-update_where b a xs)

  -- Writing a row leaves the rows under other keys as they are.
  pub find-update_where_ne :
      (b : A) (j : ℕ) (xs : List A)
      → key b ≡ j
      → ((j == k) ≡ false)
      → find (λ x. key x == k) (update_where (λ x. key x == j) (λ _. b) xs)
        ≡ find (λ x. key x == k) xs
  find-update_where_ne b j [] e ne = refl
  find-update_where_ne b j (x ∷ xs) e ne = ground (arith, find-update_where_ne b j xs e ne)

module _ {ℓ} {A : Type ℓ} (key : A → ℕ) (p : A → Bool) (a : A) where
  pub found-counts : (xs : List A) → find p xs ≡ some a → 1 ≤ count (λ x. key x == key a) xs
  found-counts [] h = ground arith
  found-counts (x ∷ xs) h = ground (arith, found-counts xs)

  -- Where the key is unique, a row that some query found is the row under its key.
  pub find-own_key :
      (xs : List A)
      → find p xs ≡ some a
      → count (λ x. key x == key a) xs ≤ 1
      → find (λ x. key x == key a) xs ≡ some a
  find-own_key [] h u = ground arith
  find-own_key (x ∷ xs) h u = elim (Bool-cases (p x)) [
    | inl e ↦ ground arith
    | inr e ↦ ground (arith, found-counts xs, find-own_key xs)
  ]
