-- ===== src/Tx/Rules.antt =====
-- Rules for actions: those that never commit, and those that keep an invariant of the store.
use visi_on_route.Prelude.{
  Bool, Option, arith, false, if◌then◌else◌, none, refl, some, true, ◌∙◌, ◌≡◌,
}
use visi_on_route.Tx.Defs.{
  Error, Result, ok, err, Tx, Action, pure, raise, gets, modify, commit, raise_unless, or_raise,
  lift, ◌>>=◌, request, query,
}

-- The action commits nothing by itself.
pub record LeavesDurable {S A : Type 0} (m : Action S A) : Type 0 where
  pub at : (tx : Tx S) → (m tx).1.durable ≡ tx.durable

-- `P` holds of the working state, and of what has been made permanent.
pub record Holds {S : Type 0} (P : S → Type 0) (tx : Tx S) : Type 0 where
  pub durable : P tx.durable
  pub current : P tx.current

-- The action keeps `P`, whether it returns or raises.
pub record Keeps {S A : Type 0} (P : S → Type 0) (m : Action S A) : Type 0 where
  pub at : (tx : Tx S) → Holds P tx → Holds P (m tx).1

module _ {S A : Type 0} where
  pub LeavesDurable-pure : (a : A) → LeavesDurable {S = S} (pure a)
  LeavesDurable-pure a = record { at = λ tx. refl }

  pub LeavesDurable-raise : (e : Error) → LeavesDurable {S = S} {A = A} (raise e)
  LeavesDurable-raise e = record { at = λ tx. refl }

  pub LeavesDurable-gets : (f : S → A) → LeavesDurable (gets f)
  LeavesDurable-gets f = record { at = λ tx. refl }

  pub LeavesDurable-lift : (r : Result A) → LeavesDurable {S = S} (lift r)
  LeavesDurable-lift r = record { at = λ tx. refl }

  pub LeavesDurable-or_raise : (o : Option A) (e : Error) → LeavesDurable {S = S} (or_raise o e)
  LeavesDurable-or_raise none e = record { at = λ tx. refl }
  LeavesDurable-or_raise (some a) e = record { at = λ tx. refl }

module _ {S : Type 0} where
  pub LeavesDurable-modify : (f : S → S) → LeavesDurable (modify f)
  LeavesDurable-modify f = record { at = λ tx. refl }

  pub LeavesDurable-raise_unless : (b : Bool) (e : Error) → LeavesDurable {S = S} (raise_unless b e)
  LeavesDurable-raise_unless true e = record { at = λ tx. refl }
  LeavesDurable-raise_unless false e = record { at = λ tx. refl }

module _ {S A B : Type 0} (m : Action S A) (f : A → Action S B) (km : LeavesDurable m)
    (kf : (a : A) → LeavesDurable (f a)) where
  continue-durable :
      (tx : Tx S) (r : Result A) (tx' : Tx S)
      → tx'.durable ≡ tx.durable
      → (elim r as (λ _. Result B × Tx S) [ ok a ↦ f a tx' | err e ↦ (err e, tx') ]).1.durable
        ≡ tx.durable
  continue-durable tx (ok a) tx' h = (kf a).at tx' ∙ h
  continue-durable tx (err e) tx' h = h

  pub LeavesDurable-bind : LeavesDurable (m >>= f)
  LeavesDurable-bind = record { at = λ tx. continue-durable tx (m tx).0 (m tx).1 (km.at tx) }

-- A request whose action commits nothing by itself is atomic: if it raises, the store is as before.
pub request_atomic :
    {S A : Type 0} (m : Action S A) (s : S) (e : Error)
    → LeavesDurable m
    → (request m s).0 ≡ err e
    → (request m s).1 ≡ s
request_atomic m s e k h = ground (arith, k.at (record { durable = s; current = s }))

module _ {S A : Type 0} {P : S → Type 0} where
  pub Keeps-pure : (a : A) → Keeps P (pure a)
  Keeps-pure a = record { at = λ tx h. h }

  pub Keeps-raise : (e : Error) → Keeps P (raise {A = A} e)
  Keeps-raise e = record { at = λ tx h. h }

  pub Keeps-gets : (f : S → A) → Keeps P (gets f)
  Keeps-gets f = record { at = λ tx h. h }

  pub Keeps-lift : (r : Result A) → Keeps P (lift r)
  Keeps-lift r = record { at = λ tx h. h }

  pub Keeps-or_raise : (o : Option A) (e : Error) → Keeps P (or_raise o e)
  Keeps-or_raise none e = record { at = λ tx h. h }
  Keeps-or_raise (some a) e = record { at = λ tx h. h }

  pub Keeps-if :
      (b : Bool) (m n : Action S A) → Keeps P m → Keeps P n → Keeps P (if b then m else n)
  Keeps-if true m n km kn = km
  Keeps-if false m n km kn = kn

module _ {S : Type 0} {P : S → Type 0} where
  pub Keeps-modify : (f : S → S) → ((s : S) → P s → P (f s)) → Keeps P (modify f)
  Keeps-modify f kf = record {
    at = λ tx h. record { durable = h.durable; current = kf tx.current h.current };
  }

  pub Keeps-raise_unless : (b : Bool) (e : Error) → Keeps P (raise_unless b e)
  Keeps-raise_unless true e = record { at = λ tx h. h }
  Keeps-raise_unless false e = record { at = λ tx h. h }

  pub Keeps-commit : Keeps P commit
  Keeps-commit = record { at = λ tx h. record { durable = h.current; current = h.current } }

module _ {S A B : Type 0} {P : S → Type 0} (m : Action S A) (f : A → Action S B) where
  continue-Holds :
      ((a : A) → Keeps P (f a))
      → (r : Result A) (tx : Tx S) → Holds P tx
      → Holds P (elim r as (λ _. Result B × Tx S) [ ok a ↦ f a tx | err e ↦ (err e, tx) ]).1
  continue-Holds kf (ok a) tx h = (kf a).at tx h
  continue-Holds kf (err e) tx h = h

  pub Keeps-bind : Keeps P m → ((a : A) → Keeps P (f a)) → Keeps P (m >>= f)
  Keeps-bind km kf = record { at = λ tx h. continue-Holds kf (m tx).0 (m tx).1 (km.at tx h) }

module _ {S A B : Type 0} {P : S → Type 0} (look : S → Option A) (e : Error)
    (f : A → Action S B) where
  found-Holds :
      (tx : Tx S)
      → ((a : A) → look tx.current ≡ some a → Holds P tx → Holds P (f a tx).1)
      → (o : Option A) → look tx.current ≡ o
      → Holds P tx
      → Holds P
          (((λ (t : Tx S). elim o as (λ _. Result A × Tx S) [
            | none ↦ (err e, t)
            | some a ↦ (ok a, t)
          ])
              >>= f)
            tx).1
  found-Holds tx kf none q h = h
  found-Holds tx kf (some a) q h = kf a q h

  -- The rest of a block may use what a query found.
  pub Keeps-query :
      ((tx : Tx S) (a : A) → look tx.current ≡ some a → Holds P tx → Holds P (f a tx).1)
      → Keeps P (query look e >>= f)
  Keeps-query kf = record { at = λ tx h. found-Holds tx (kf tx) (look tx.current) refl h }

module _ {S A : Type 0} where
  pub LeavesDurable-query : (look : S → Option A) (e : Error) → LeavesDurable (query look e)
  LeavesDurable-query look e = record { at = λ tx. ground arith }

-- Whenever the action returns, `Q` holds of its result and of the working state it left.
pub record Ensures {S A : Type 0} (Q : A → S → Type 0) (m : Action S A) : Type 0 where
  pub at : (tx : Tx S) (a : A) → (m tx).0 ≡ ok a → Q a (m tx).1.current

module _ {S A B : Type 0} {Q : B → S → Type 0} (m : Action S A) (f : A → Action S B) where
  continue-Ensures :
      ((a : A) → Ensures Q (f a))
      → (r : Result A) (tx : Tx S) (b : B)
      → (elim r as (λ _. Result B × Tx S) [ ok a ↦ f a tx | err e ↦ (err e, tx) ]).0 ≡ ok b
      → Q b (elim r as (λ _. Result B × Tx S) [ ok a ↦ f a tx | err e ↦ (err e, tx) ]).1.current
  continue-Ensures kf (ok a) tx b h = (kf a).at tx b h
  continue-Ensures kf (err e) tx b h = absurd (cc h)

  -- The last action of a block decides.
  pub Ensures-bind : ((a : A) → Ensures Q (f a)) → Ensures Q (m >>= f)
  Ensures-bind kf = record { at = λ tx b h. continue-Ensures kf (m tx).0 (m tx).1 b h }

-- A request keeps what its action keeps.
pub request-Keeps :
    {S A : Type 0} {P : S → Type 0} (m : Action S A) (s : S) → Keeps P m → P s → P (request m s).1
request-Keeps {S} {A} {P} m s k h =
    finish (m start).0 (m start).1 (k.at start (record { durable = h; current = h }))
  where
    start : Tx S
    start = record { durable = s; current = s }

    finish :
        (r : Result A) (tx : Tx S)
        → Holds P tx
        → P
            (elim r as (λ _. Result A × S) [
              | ok a ↦ (ok a, tx.current)
              | err e ↦ (err e, tx.durable)
            ]).1
    finish (ok a) tx h = h.current
    finish (err e) tx h = h.durable

pub ruleset keeps_rules = (
  Keeps-pure, Keeps-raise, Keeps-gets, Keeps-lift, Keeps-or_raise, Keeps-if, Keeps-raise_unless,
  Keeps-commit, Keeps-bind,
)

pub ruleset durable_rules = (
  LeavesDurable-pure, LeavesDurable-raise, LeavesDurable-gets, LeavesDurable-lift,
  LeavesDurable-or_raise, LeavesDurable-modify, LeavesDurable-query, LeavesDurable-raise_unless,
  LeavesDurable-bind,
)
