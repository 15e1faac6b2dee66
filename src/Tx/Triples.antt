-- ===== src/Tx/Triples.antt =====
-- Actions with a condition before and after, beside the invariant of the store.
use visi_on_route.Prelude.{Bool, Option, false, none, refl, some, true, ◌≡◌}
use visi_on_route.Tx.Defs.{
  Error, Result, ok, err, Tx, Action, pure, gets, modify, raise_unless, ◌>>=◌, query,
}
use visi_on_route.Tx.Rules.{Holds, Keeps}

-- The condition on what an action returned, if it returned.
abbrev pub Gives : {S A : Type 0} → (A → S → Type 0) → Result A → S → Type 0
Gives Post (ok a) s = Post a s
Gives Post (err e) s = Unit {0}

-- From a store where `Pre` holds, the action keeps the invariant `P` however it ends, and `Post`
-- holds of what it returns and of the store it leaves.
pub record Triple {S A : Type 0} (P Pre : S → Type 0) (m : Action S A) (Post : A → S → Type 0)
    : Type 0 where
  pub keeps : (tx : Tx S) → Holds P tx → Pre tx.current → Holds P (m tx).1
  pub gives : (tx : Tx S) → Holds P tx → Pre tx.current → Gives Post (m tx).0 (m tx).1.current

module _ {S A : Type 0} {P Pre : S → Type 0} {Post : A → S → Type 0} where
  pub Keeps-Triple : (m : Action S A) → ((s : S) → Pre s) → Triple P Pre m Post → Keeps P m
  Keeps-Triple m h t = record { at = λ tx k. t.keeps tx k (h tx.current) }

  pub Triple-Keeps :
      (m : Action S A)
      → Keeps P m
      → ((tx : Tx S) → Pre tx.current → Gives Post (m tx).0 (m tx).1.current)
      → Triple P Pre m Post
  Triple-Keeps m k g = record { keeps = λ tx h p. k.at tx h; gives = λ tx h p. g tx p }

  pub Triple-pure : (a : A) → ((s : S) → Pre s → Post a s) → Triple P Pre (pure a) Post
  Triple-pure a h = record { keeps = λ tx k p. k; gives = λ tx k p. h tx.current p }

module _ {S A : Type 0} {P : S → Type 0} where
  look_up-keeps :
      (e : Error) (tx : Tx S) (o : Option A)
      → Holds P tx
      → Holds P (elim o as (λ _. Result A × Tx S) [ none ↦ (err e, tx) | some a ↦ (ok a, tx) ]).1
  look_up-keeps e tx none h = h
  look_up-keeps e tx (some a) h = h

module _ {S A : Type 0} (Pre : S → Type 0) where
  look_up-Gives :
      (look : S → Option A) (e : Error) (tx : Tx S) (o : Option A)
      → look tx.current ≡ o
      → Pre tx.current
      → (let r = elim o as (λ _. Result A × Tx S) [ none ↦ (err e, tx) | some a ↦ (ok a, tx) ] in
          Gives (λ a s. Pre s × (look s ≡ some a)) r.0 r.1.current)
  look_up-Gives look e tx none h p = tt
  look_up-Gives look e tx (some a) h p = (p, h)

module _ {S A : Type 0} {P Pre : S → Type 0} where
  pub Triple-gets : (f : S → A) → Triple P Pre (gets f) (λ a s. Pre s × (f s ≡ a))
  Triple-gets f = record { keeps = λ tx k p. k; gives = λ tx k p. (p, refl) }

  pub Triple-query :
      (look : S → Option A) (e : Error)
      → Triple P Pre (query look e) (λ a s. Pre s × (look s ≡ some a))
  Triple-query look e = record {
    keeps = λ tx k p. look_up-keeps e tx (look tx.current) k;
    gives = λ tx k p. look_up-Gives Pre look e tx (look tx.current) refl p;
  }

module _ {S : Type 0} {P Pre : S → Type 0} where
  pub Triple-modify :
      {Post : S → Type 0} (f : S → S)
      → ((s : S) → P s → Pre s → P (f s))
      → ((s : S) → P s → Pre s → Post (f s))
      → Triple P Pre (modify f) (λ _. Post)
  Triple-modify f kept post = record {
    keeps = λ tx k p. record { durable = k.durable; current = kept tx.current k.current p };
    gives = λ tx k p. post tx.current k.current p;
  }

  pub Triple-raise_unless :
      (b : Bool) (e : Error) → Triple P Pre (raise_unless b e) (λ _ s. Pre s × (b ≡ true))
  Triple-raise_unless true e = record { keeps = λ tx k p. k; gives = λ tx k p. (p, refl) }
  Triple-raise_unless false e = record { keeps = λ tx k p. k; gives = λ tx k p. tt }

module _ {S A B : Type 0} {P Pre : S → Type 0} {Mid : A → S → Type 0} {Post : B → S → Type 0}
    (m : Action S A) (f : A → Action S B) (t : Triple P Pre m Mid)
    (u : (a : A) → Triple P (Mid a) (f a) Post) where
  next-keeps :
      (r : Result A) (tx : Tx S)
      → Holds P tx
      → Gives Mid r tx.current
      → Holds P (elim r as (λ _. Result B × Tx S) [ ok a ↦ f a tx | err e ↦ (err e, tx) ]).1
  next-keeps (ok a) tx h g = (u a).keeps tx h g
  next-keeps (err e) tx h g = h

  next-Gives :
      (r : Result A) (tx : Tx S)
      → Holds P tx
      → Gives Mid r tx.current
      → (let z = elim r as (λ _. Result B × Tx S) [ ok a ↦ f a tx | err e ↦ (err e, tx) ] in
          Gives Post z.0 z.1.current)
  next-Gives (ok a) tx h g = (u a).gives tx h g
  next-Gives (err e) tx h g = tt

  pub Triple-bind : Triple P Pre (m >>= f) Post
  Triple-bind = record {
    keeps = λ tx h p. next-keeps (m tx).0 (m tx).1 (t.keeps tx h p) (t.gives tx h p);
    gives = λ tx h p. next-Gives (m tx).0 (m tx).1 (t.keeps tx h p) (t.gives tx h p);
  }

module _ {S A : Type 0} {Mid Post : A → S → Type 0} where
  Gives-map :
      ((a : A) (s : S) → Mid a s → Post a s)
      → (r : Result A) (s : S) → Gives Mid r s
      → Gives Post r s
  Gives-map f (ok a) s g = f a s g
  Gives-map f (err e) s g = tt

  -- A weaker condition after.
  pub Triple-after :
      {P Pre : S → Type 0} (m : Action S A)
      → ((a : A) (s : S) → Mid a s → Post a s)
      → Triple P Pre m Mid
      → Triple P Pre m Post
  Triple-after m f t = record {
    keeps = λ tx h p. t.keeps tx h p;
    gives = λ tx h p. Gives-map f (m tx).0 (m tx).1.current (t.gives tx h p);
  }
