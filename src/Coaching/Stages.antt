-- ===== src/Coaching/Stages.antt =====
-- `update_action` writes one row in several stages; each stage keeps the invariant of the rows,
-- and hands the row that it wrote to the next.
use visi_on_route.Prelude.{
  Bool, Bool-cases, Option, String, TextMethods, Time, arith, false, find, find-update_where,
  if◌then◌else◌, inl, inr, is_empty, is_some, none, not, refl, same, some, subst, sym, true, ℕ,
  ◌&&◌, ◌==◌, ◌≡◌, ◌⊎◌,
}
use visi_on_route.Tx.{Result, Tx, Action, Holds, ok, Error, err, pure, ◌>>=◌, ◌>>◌}
use visi_on_route.Coaching.Store.{CoachingAction, Store}
use visi_on_route.Coaching.Shape.{
  IsValid, Continues, save-IsValid, IsValid-actions, actions-notify_assignee,
}
use visi_on_route.Coaching.Status.{is_active}
use visi_on_route.Coaching.Service.{save, Timestamp, notify_assignee, require_assignee, is_assignee}
use visi_on_route.Access.Context.{RequestContext}
use visi_on_route.Coaching.Changes.{
  change_title, change_texts, change_due, Changes, reassign, change_assignee, require_some_assignee,
}

-- The row `a` is the one stored under its identifier.
abbrev pub IsStored : CoachingAction → Store → Type 0
IsStored a s = find (λ x. x.id == a.id) s.actions ≡ some a

-- What a stage leaves behind: a valid store, and the row that it returned in it.
pub record Outcome (past : Store) (r : Result CoachingAction) (tx : Tx Store) : Type 0 where
  pub valid : Holds (IsValid past) tx
  pub stored : (b : CoachingAction) → r ≡ ok b → IsStored b tx.current × (is_active b.status ≡ true)

abbrev pub IsStage : Store → (CoachingAction → Action Store CoachingAction) → Type 0
IsStage past m =
    (tx : Tx Store) (a : CoachingAction)
    → Holds (IsValid past) tx
    → IsStored a tx.current
    → is_active a.status ≡ true
    → Outcome past (m a tx).0 (m a tx).1

ok_injective : (b d : CoachingAction) → ok b ≡ ok d → b ≡ d
ok_injective b d e = cc

-- A stage that only reads, or raises.
module _ (past : Store) (tx : Tx Store) (a : CoachingAction) (v : Holds (IsValid past) tx)
    (st : IsStored a tx.current) (act : is_active a.status ≡ true) where
  pub Outcome-same : Outcome past (ok a) tx
  Outcome-same = record { valid = v; stored = λ b e. (ground arith, ground arith) }

  Outcome-raise : (e : Error) → Outcome past (err e) tx
  Outcome-raise e = record { valid = v; stored = λ b q. cc }

  -- A stage that writes the row, with what `Continues` allows changed.
  Outcome-save :
      (b : CoachingAction)
      → Continues a b
      → is_active b.status ≡ true
      → Outcome past (ok b) (record tx { current = save b tx.current })
  Outcome-save b c on = record {
    valid = record {
      durable = v.durable;
      current = save-IsValid past (λ _. true) a b tx.current here c act v.current;
    };
    stored = λ d e.
        subst (λ x. IsStored x (save b tx.current) × (is_active x.status ≡ true))
          (ok_injective b d e)
          (
            find-update_where (λ (x : CoachingAction). x.id) b.id b a tx.current.actions refl here,
            on,
          );
  }
    where
      here : find (λ x. x.id == b.id) tx.current.actions ≡ some a
      here = subst (λ k. find (λ x. x.id == k) tx.current.actions ≡ some a) (sym c.id) st

abbrev pub guarded :
    Action Store CoachingAction → Result (Unit {0}) × Tx Store → Result CoachingAction × Tx Store
guarded n p = elim p.0 [ ok _ ↦ n p.1 | err e ↦ (err e, p.1) ]

-- A check before a stage.
pub Outcome-guard :
    (past : Store) (m : Action Store (Unit {0})) (n : Action Store CoachingAction) (x : Error)
    (tx : Tx Store)
    → ((m tx ≡ (ok tt, tx)) ⊎ (m tx ≡ (err x, tx)))
    → Outcome past (n tx).0 (n tx).1
    → Outcome past (err x) tx
    → Outcome past ((m >> n) tx).0 ((m >> n) tx).1
Outcome-guard past m n x tx (inl q) o r =
    subst (λ (p : Result (Unit {0}) × Tx Store). Outcome past (guarded n p).0 (guarded n p).1)
      (sym q) o
Outcome-guard past m n x tx (inr q) o r =
    subst (λ (p : Result (Unit {0}) × Tx Store). Outcome past (guarded n p).0 (guarded n p).1)
      (sym q) r

module _ (past : Store) (text : TextMethods) (has_mail : Bool) (now : Time) (ctx : RequestContext)
    (tenant : ℕ) where
  pub change_title-IsStage :
      (c : Option (Option String)) → IsStage past (change_title text has_mail now ctx tenant c)
  unfolding change_title
  change_title-IsStage none tx a v st act = Outcome-same past tx a v st act
  change_title-IsStage (some none) tx a v st act =
      Outcome-raise past tx a v st act Error.validation_failed
  change_title-IsStage (some (some title)) tx a v st act =
      elim (Bool-cases (is_empty (text.strip title))) [
        | inl e ↦ rw e (Outcome-raise past tx a v st act Error.validation_failed)
        | inr e ↦
            rw e (Outcome-save past tx a v st act (record a { title = title }) (ground arith) act)
      ]

  pub change_texts-IsStage :
      (c : Changes) → IsStage past (change_texts text has_mail now ctx tenant c)
  unfolding change_texts
  change_texts-IsStage c tx a v st act =
      Outcome-save past tx a v st act
        (record a {
          description = elim c.description [ none ↦ a.description | some d ↦ d ];
          notes = elim c.notes [ none ↦ a.notes | some n ↦ n ];
        })
        (ground arith) act

  pub change_due-IsStage :
      (c : Option (Option Timestamp)) → IsStage past (change_due text has_mail now ctx tenant c)
  unfolding change_due
  change_due-IsStage none tx a v st act = Outcome-same past tx a v st act
  change_due-IsStage (some none) tx a v st act =
      Outcome-save past tx a v st act (record a { due_at = none }) (ground arith) act
  change_due-IsStage (some (some d)) tx a v st act = elim (Bool-cases d.has_zone) [
    | inl e ↦
        rw e (Outcome-save past tx a v st act (record a { due_at = some d.at }) (ground arith) act)
    | inr e ↦ rw e (Outcome-raise past tx a v st act Error.validation_failed)
  ]

  -- Only the messages change.
  Outcome-quiet :
      (b : CoachingAction) (f : Store → Store) (tx : Tx Store)
      → ((s : Store) → (f s).actions ≡ s.actions)
      → Outcome past (ok b) tx
      → Outcome past (ok b) (record tx { current = f tx.current })
  Outcome-quiet b f tx q o = record {
    valid = record {
      durable = o.valid.durable;
      current = IsValid-actions past tx.current (f tx.current) (q tx.current) o.valid.current;
    };
    stored = λ d e. rw (q tx.current) (o.stored d e);
  }

  quiet :
      (b : Bool) (a : CoachingAction) (s : Store)
      → ((if b then notify_assignee has_mail tenant a else λ t. t) s).actions ≡ s.actions
  quiet true a s = actions-notify_assignee has_mail tenant a s
  quiet false a s = refl

  reassign-IsStage :
      (assignee : Option ℕ) → IsStage past (reassign text has_mail now ctx tenant assignee)
  unfolding reassign
  reassign-IsStage assignee tx a v st act =
      let b : CoachingAction = record a { assignee_user_id = assignee } in
      let tell : Bool = is_some assignee && not (same assignee ctx.user_id) in
      Outcome-quiet b (if tell then notify_assignee has_mail tenant b else λ t. t)
        (record tx { current = save b tx.current }) (quiet tell b)
        (Outcome-save past tx a v st act b (ground arith) act)

  settle-IsStage :
      (assignee : Option ℕ)
      → IsStage past (λ a.
        if same assignee a.assignee_user_id
        then pure a
        else reassign text has_mail now ctx tenant assignee a)
  settle-IsStage assignee tx a v st act = elim (Bool-cases (same assignee a.assignee_user_id)) [
    | inl e ↦ rw e (Outcome-same past tx a v st act)
    | inr e ↦ rw e (reassign-IsStage assignee tx a v st act)
  ]

  require-cases :
      (o : Option ℕ) (tx : Tx Store)
      → (require_some_assignee text has_mail now ctx tenant o tx ≡ (ok tt, tx))
        ⊎ (require_some_assignee text has_mail now ctx tenant o tx
            ≡ (err Error.validation_failed, tx))
  unfolding require_some_assignee require_assignee
  require-cases none tx = inl refl
  require-cases (some u) tx = elim (Bool-cases (is_assignee tenant u tx.current)) [
    | inl e ↦ inl (ground arith)
    | inr e ↦ inr (ground arith)
  ]

  pub change_assignee-IsStage :
      (c : Option (Option ℕ)) → IsStage past (change_assignee text has_mail now ctx tenant c)
  unfolding change_assignee
  change_assignee-IsStage none tx a v st act = Outcome-same past tx a v st act
  change_assignee-IsStage (some o) tx a v st act =
      Outcome-guard past (require_some_assignee text has_mail now ctx tenant o)
        (if same o a.assignee_user_id then pure a else reassign text has_mail now ctx tenant o a)
        Error.validation_failed tx (require-cases o tx) (settle-IsStage o tx a v st act)
        (Outcome-raise past tx a v st act Error.validation_failed)

-- One stage after another.
module _ (past : Store) (n : CoachingAction → Action Store CoachingAction)
    (kn : IsStage past n) where
  Outcome-continue :
      (r : Result CoachingAction) (tx : Tx Store)
      → Outcome past r tx
      → Outcome past
          (elim r as (λ _. Result CoachingAction × Tx Store) [
            | ok a ↦ n a tx
            | err e ↦ (err e, tx)
          ]).0
          (elim r as (λ _. Result CoachingAction × Tx Store) [
            | ok a ↦ n a tx
            | err e ↦ (err e, tx)
          ]).1
  Outcome-continue (ok a) tx o = kn tx a o.valid (o.stored a refl).0 (o.stored a refl).1
  Outcome-continue (err e) tx o = record { valid = o.valid; stored = λ b q. cc }

  Outcome-bind :
      (m : Action Store CoachingAction) (tx : Tx Store)
      → Outcome past (m tx).0 (m tx).1
      → Outcome past ((m >>= n) tx).0 ((m >>= n) tx).1
  Outcome-bind m tx o = Outcome-continue (m tx).0 (m tx).1 o

pub IsStage-bind :
    (past : Store) (m n : CoachingAction → Action Store CoachingAction)
    → IsStage past m
    → IsStage past n
    → IsStage past (λ a. m a >>= n)
IsStage-bind past m n km kn tx a v st act = Outcome-bind past n kn (m a) tx (km tx a v st act)
