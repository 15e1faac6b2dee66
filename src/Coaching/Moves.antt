-- ===== src/Coaching/Moves.antt =====
-- The life of a coaching action, and what a transition of it answers.
use visi_on_route.Prelude.{
  Bool, Bool-cases, Option, Option-cases, String, TextMethods, Time, arith, false, if◌then◌else◌,
  inl, inr, is_empty, is_some, none, or_else, or_empty, refl, some, subst, sym, true, ℕ, ◌||◌, ◌≡◌,
}
use visi_on_route.Coaching.Store.{Store, CoachingAction}
use visi_on_route.Access.Context.{RequestContext}
use visi_on_route.Coaching.Status.{CoachingStatus, same_status, can_transition}
use visi_on_route.Tx.{Result, Tx, Error, err, ok}
use visi_on_route.Coaching.Changes.{Details, transition, transition_row, enter}
use visi_on_route.Coaching.Service.{visible_action, get_action}

-- An open action is begun, completed or canceled, and one in progress is completed or canceled.
pub data Move : CoachingStatus → CoachingStatus → Type 0 where
  begun : Move CoachingStatus.opened CoachingStatus.in_progress
  done_at_once : Move CoachingStatus.opened CoachingStatus.completed
  dropped_at_once : Move CoachingStatus.opened CoachingStatus.canceled
  done : Move CoachingStatus.in_progress CoachingStatus.completed
  dropped : Move CoachingStatus.in_progress CoachingStatus.canceled

module _ (text : TextMethods) (now : Time) (ctx : RequestContext) (d : Details)
    (a : CoachingAction) where
  -- The action is begun, by its assignee or else by the caller.
  pub record IsBegun (b : CoachingAction) : Type 0 where
    pub columns : b ≡ record a {
      status = CoachingStatus.in_progress;
      started_at = some now;
      assignee_user_id = b.assignee_user_id;
    }
    pub assigned : (u : ℕ) → a.assignee_user_id ≡ some u → b.assignee_user_id ≡ some u
    pub unassigned : a.assignee_user_id ≡ none → b.assignee_user_id ≡ ctx.user_id

  -- The action is completed with the given outcome; it began now, if it had not before.
  pub record IsDone (b : CoachingAction) : Type 0 where
    pub given : is_some d.outcome ≡ true
    pub columns : b ≡ record a {
      status = CoachingStatus.completed;
      outcome = d.outcome;
      outcome_notes = d.outcome_notes;
      completed_at = some now;
      started_at = b.started_at;
    }
    pub begun_before : (t : Time) → a.started_at ≡ some t → b.started_at ≡ some t
    pub begun_now : a.started_at ≡ none → b.started_at ≡ some now

  abbrev pub is_blank : Option String → Bool
  is_blank reason = is_empty (or_empty reason) || is_empty (text.strip (or_empty reason))

  -- The action is canceled for the given reason.
  pub record IsDropped (b : CoachingAction) : Type 0 where
    pub given : is_blank d.cancel_reason ≡ false
    pub columns : b ≡ record a {
      status = CoachingStatus.canceled;
      cancel_reason = some (text.prefix 300 (text.strip (or_empty d.cancel_reason)));
      canceled_at = some now;
    }

  -- What is answered, for each target.
  pub data Answer (target : CoachingStatus) (r : Result CoachingAction) : Type 0 where
    same : a.status ≡ target → r ≡ ok a → Answer target r
    refused :
        (a.status ≡ target → ⊥)
        → (Move a.status target → ⊥)
        → r ≡ err Error.domain_conflict
        → Answer target r
    no_outcome :
        Move a.status target
        → target ≡ CoachingStatus.completed
        → d.outcome ≡ none
        → r ≡ err Error.validation_failed
        → Answer target r
    no_reason :
        Move a.status target
        → target ≡ CoachingStatus.canceled
        → is_blank d.cancel_reason ≡ true
        → r ≡ err Error.validation_failed
        → Answer target r
    is_begun :
        Move a.status target
        → target ≡ CoachingStatus.in_progress
        → (b : CoachingAction) → r ≡ ok b
        → IsBegun b
        → Answer target r
    is_done :
        Move a.status target
        → target ≡ CoachingStatus.completed
        → (b : CoachingAction) → r ≡ ok b
        → IsDone b
        → Answer target r
    is_dropped :
        Move a.status target
        → target ≡ CoachingStatus.canceled
        → (b : CoachingAction) → r ≡ ok b
        → IsDropped b
        → Answer target r

same-eq : (p q : CoachingStatus) → same_status p q ≡ true → p ≡ q
same-eq p q h = ground arith

different : (p q : CoachingStatus) → same_status p q ≡ false → p ≡ q → ⊥
different p q h e = ground (arith, h, e)

Move-can_transition : {p q : CoachingStatus} → Move p q → can_transition p q ≡ true
unfolding can_transition
Move-can_transition Move.begun = refl
Move-can_transition Move.done_at_once = refl
Move-can_transition Move.dropped_at_once = refl
Move-can_transition Move.done = refl
Move-can_transition Move.dropped = refl

can_transition-Move : (p q : CoachingStatus) → can_transition p q ≡ true → Move p q
unfolding can_transition
can_transition-Move CoachingStatus.opened CoachingStatus.opened h = absurd (cc h)
can_transition-Move CoachingStatus.opened CoachingStatus.in_progress h = Move.begun
can_transition-Move CoachingStatus.opened CoachingStatus.completed h = Move.done_at_once
can_transition-Move CoachingStatus.opened CoachingStatus.canceled h = Move.dropped_at_once
can_transition-Move CoachingStatus.in_progress CoachingStatus.opened h = absurd (cc h)
can_transition-Move CoachingStatus.in_progress CoachingStatus.in_progress h = absurd (cc h)
can_transition-Move CoachingStatus.in_progress CoachingStatus.completed h = Move.done
can_transition-Move CoachingStatus.in_progress CoachingStatus.canceled h = Move.dropped
can_transition-Move CoachingStatus.completed CoachingStatus.opened h = absurd (cc h)
can_transition-Move CoachingStatus.completed CoachingStatus.in_progress h = absurd (cc h)
can_transition-Move CoachingStatus.completed CoachingStatus.completed h = absurd (cc h)
can_transition-Move CoachingStatus.completed CoachingStatus.canceled h = absurd (cc h)
can_transition-Move CoachingStatus.canceled CoachingStatus.opened h = absurd (cc h)
can_transition-Move CoachingStatus.canceled CoachingStatus.in_progress h = absurd (cc h)
can_transition-Move CoachingStatus.canceled CoachingStatus.completed h = absurd (cc h)
can_transition-Move CoachingStatus.canceled CoachingStatus.canceled h = absurd (cc h)

never_opened : (p : CoachingStatus) → can_transition p CoachingStatus.opened ≡ false
unfolding can_transition
never_opened p = ground arith

module _ (text : TextMethods) (now : Time) (ctx : RequestContext) (d : Details)
    (a : CoachingAction) where
  entered :
      (target : CoachingStatus)
      → can_transition a.status target ≡ true
      → Answer text now ctx d a target (enter text now ctx d target a)
  unfolding enter
  entered CoachingStatus.opened h = absurd (cc (h, never_opened a.status))
  entered CoachingStatus.in_progress h =
      Answer.is_begun (can_transition-Move a.status CoachingStatus.in_progress h) refl
        (record a {
          status = CoachingStatus.in_progress;
          started_at = some now;
          assignee_user_id = or_else a.assignee_user_id ctx.user_id;
        })
        refl
        (record {
          columns = refl;
          assigned = λ u e. ground (arith, e);
          unassigned = λ e. ground (arith, e);
        })
  entered CoachingStatus.completed h = elim (Option-cases d.outcome) [
    | inl q ↦
        Answer.no_outcome (can_transition-Move a.status CoachingStatus.completed h) refl q
          (ground (arith, q))
    | inr (o, q) ↦
        Answer.is_done (can_transition-Move a.status CoachingStatus.completed h) refl
          (record a {
            status = CoachingStatus.completed;
            outcome = d.outcome;
            outcome_notes = d.outcome_notes;
            completed_at = some now;
            started_at = or_else a.started_at (some now);
          })
          (ground (arith, q))
          (record {
            given = ground (arith, q);
            columns = refl;
            begun_before = λ t e. ground (arith, e);
            begun_now = λ e. ground (arith, e);
          })
  ]
  entered CoachingStatus.canceled h =
      elim (Bool-cases (is_blank text now ctx d a d.cancel_reason)) [
        | inl q ↦
            Answer.no_reason (can_transition-Move a.status CoachingStatus.canceled h) refl q
              (ground (arith, q))
        | inr q ↦
            Answer.is_dropped (can_transition-Move a.status CoachingStatus.canceled h) refl
              (record a {
                status = CoachingStatus.canceled;
                cancel_reason = some (text.prefix 300 (text.strip (or_empty d.cancel_reason)));
                canceled_at = some now;
              })
              (ground (arith, q)) (record { given = q; columns = refl })
      ]

  chosen :
      (target : CoachingStatus)
      → Answer text now ctx d a target (
          if same_status a.status target
          then ok a
          else if can_transition a.status target
          then enter text now ctx d target a
          else err Error.domain_conflict)
  chosen target = elim (Bool-cases (same_status a.status target)) [
    | inl e ↦ rw e (Answer.same (same-eq a.status target e) refl)
    | inr e ↦ elim (Bool-cases (can_transition a.status target)) [
      | inl q ↦ rw (e, q) (entered target q)
      | inr q ↦
          rw (e, q)
            (Answer.refused (different a.status target e) (λ m. cc (q, Move-can_transition m)) refl)
    ]
  ]

module _ (text : TextMethods) (now : Time) (ctx : RequestContext) (tenant action_id : ℕ)
    (target : CoachingStatus) (d : Details) (tx : Tx Store) (a : CoachingAction)
    (found : visible_action ctx tenant action_id tx.current ≡ some a) where
  branches : (transition text now ctx tenant action_id target d tx).0 ≡ (
      if same_status a.status target
      then ok a
      else if can_transition a.status target
      then enter text now ctx d target a
      else err Error.domain_conflict)
  unfolding transition get_action transition_row
  branches = ground (arith, found)

  -- For an action that the caller sees, `transition` answers as the life of an action says: the
  -- status that it has already is answered with the row as it is; a change of status that is not a
  -- move of that life is a conflict; a move without the outcome or the reason that it calls for is a
  -- validation error; any other move is answered with the row in its new status, with the columns
  -- of that move and no other changed.
  pub transition-Answer :
      Answer text now ctx d a target (transition text now ctx tenant action_id target d tx).0
  transition-Answer =
      subst (Answer text now ctx d a target) (sym branches) (chosen text now ctx d a target)
