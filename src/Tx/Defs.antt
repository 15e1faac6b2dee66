-- ===== src/Tx/Defs.antt =====
-- Actions on a session, and the request that runs one.
use visi_on_route.Prelude.{◌≡◌, refl, ◌⊎◌, inl, inr, Bool, Option, false, none, some, true}

-- application/errors.py, without the messages. `integrity_error` is the database's own refusal of
-- a row that breaks a unique index, and `type_error` and `zero_division` are Python's, where the
-- code does not translate them.
pub data Error : Type 0 where
  validation_failed domain_conflict domain_not_found : Error
  invalid_credentials account_locked permission_denied : Error
  invalid_account_token invalid_mfa_code reauthentication_failed : Error
  service_not_configured integrity_error runtime_error : Error
  type_error zero_division : Error

pub data Result {ℓ} (A : Type ℓ) : Type ℓ where
  ok : A → Result A
  err : Error → Result A

pub record Tx (S : Type 0) : Type 0 where
  pub durable : S
  pub current : S

abbrev pub Action : Type 0 → Type 0 → Type 0
Action S A = Tx S → Result A × Tx S

module _ {S A : Type 0} where
  abbrev pub pure : A → Action S A
  pure a tx = (ok a, tx)

  abbrev pub raise : Error → Action S A
  raise e tx = (err e, tx)

  abbrev pub lift : Result A → Action S A
  lift r tx = (r, tx)

  abbrev pub gets : (S → A) → Action S A
  gets f tx = (ok (f tx.current), tx)

  abbrev pub or_raise : Option A → Error → Action S A
  or_raise none e tx = (err e, tx)
  or_raise (some a) e tx = (ok a, tx)

  -- A query that must find a row.
  abbrev pub query : (S → Option A) → Error → Action S A
  query look e tx = elim (look tx.current) [ none ↦ (err e, tx) | some a ↦ (ok a, tx) ]

module _ {S : Type 0} where
  abbrev pub modify : (S → S) → Action S (Unit {0})
  modify f tx = (ok tt, record tx { current = f tx.current })

  -- `await self._db.commit()` in the middle of a method
  abbrev pub commit : Action S (Unit {0})
  commit tx = (ok tt, record tx { durable = tx.current })

  abbrev pub raise_unless : Bool → Error → Action S (Unit {0})
  raise_unless true e tx = (ok tt, tx)
  raise_unless false e tx = (err e, tx)

infixl 5 ◌>>=◌ ◌>>◌
abbrev pub ◌>>=◌ : {S A B : Type 0} → Action S A → (A → Action S B) → Action S B
◌>>=◌ m f tx = let (r, tx') = m tx in elim r [ ok a ↦ f a tx' | err e ↦ (err e, tx') ]

abbrev pub ◌>>◌ : {S A B : Type 0} → Action S A → Action S B → Action S B
m >> k = m >>= λ _. k

-- `_open_session`: commit on success, roll back on an error.
abbrev pub request : {S A : Type 0} → Action S A → S → Result A × S
request m s =
    let (r, tx) = m (record { durable = s; current = s }) in
    elim r [ ok a ↦ (ok a, tx.current) | err e ↦ (err e, tx.durable) ]

-- To split on a computed result and keep the equation.
pub Result-cases {ℓ} :
    {A : Type ℓ} (r : Result A) → ((a : A) × (r ≡ ok a)) ⊎ ((e : Error) × (r ≡ err e))
Result-cases (ok a) = inl (a, refl)
Result-cases (err e) = inr (e, refl)
