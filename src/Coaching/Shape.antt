-- ===== src/Coaching/Shape.antt =====
-- The invariant of the coaching rows, and that each write of the service keeps it.
use visi_on_route.Prelude.{
  Bool, Bool-cases, List, Option-cases, TextMethods, Time, any, any-false, arith, count,
  count-replace, false, find, find-counts, find-key, find-update_where_ne, inl, inr, is_none,
  is_some, not, refl, some, subst, true, update_where, ℕ, ◌&&◌, ◌==◌, ◌∙◌, ◌≡◌, ◌≤◌,
}
use visi_on_route.Access.Context.{RequestContext}
use visi_on_route.Tx.{ok}
use visi_on_route.Coaching.Status.{
  CoachingStatus, opened, in_progress, completed, canceled, is_active, can_transition,
}
use visi_on_route.Coaching.Store.{CoachingAction, Store}
use visi_on_route.Coaching.Service.{is_active_for, save, add_audit, notify_assignee}
use visi_on_route.Coaching.Changes.{Details, enter}
use visi_on_route.Coaching.Commands.{violates_index, add_action}
use visi_on_route.Audit.{AuditLog}

-- The columns that a status calls for, and those that it forbids.
abbrev pub is_well_formed : CoachingAction → Bool
is_well_formed a = elim a.status [
  | opened ↦
      is_none a.started_at && is_none a.completed_at && is_none a.canceled_at && is_none a.outcome
  | in_progress ↦
      is_some a.started_at && is_none a.completed_at && is_none a.canceled_at && is_none a.outcome
  | completed ↦
      is_some a.started_at && is_some a.completed_at && is_some a.outcome && is_none a.canceled_at
  | canceled ↦
      is_some a.canceled_at
      && is_some a.cancel_reason
      && is_none a.completed_at
      && is_none a.outcome
]

-- A row that `past` holds as completed or canceled.
abbrev pub IsClosedIn : Store → ℕ → CoachingAction → Type 0
IsClosedIn past k a =
    (find (λ (x : CoachingAction). x.id == k) past.actions ≡ some a) × (is_active a.status ≡ false)

-- Identifiers are unique, an event of a tenant has at most one active action, every row has the
-- columns that its status calls for, and what was completed or canceled in `past` is unchanged.
pub record IsValid (past s : Store) : Type 0 where
  pub unique_ids : (k : ℕ) → count (λ (a : CoachingAction). a.id == k) s.actions ≤ 1
  pub one_active : (tenant event_id : ℕ) → count (is_active_for tenant event_id) s.actions ≤ 1
  pub history :
      (k : ℕ) (a : CoachingAction)
      → IsClosedIn past k a
      → find (λ (x : CoachingAction). x.id == k) s.actions ≡ some a
  pub well_formed : count (λ a. not (is_well_formed a)) s.actions ≡ 0

-- What a new row must satisfy to replace an old one.
pub record Continues (a b : CoachingAction) : Type 0 where
  pub id : b.id ≡ a.id
  pub organization : b.organization_id ≡ a.organization_id
  pub event : b.safety_event_id ≡ a.safety_event_id
  pub active : is_active b.status ≡ true → is_active a.status ≡ true
  pub shape : is_well_formed a ≡ true → is_well_formed b ≡ true

-- The allowed transitions keep the shape of a row.
pub enter-Continues :
    (text : TextMethods) (now : Time) (ctx : RequestContext) (d : Details) (target : CoachingStatus)
    (a b : CoachingAction)
    → can_transition a.status target ≡ true
    → enter text now ctx d target a ≡ ok b
    → Continues a b
unfolding can_transition enter
enter-Continues text now ctx d opened a b c h = ground arith
enter-Continues text now ctx d in_progress a b c h = ground arith
enter-Continues text now ctx d completed a b c h = ground arith
enter-Continues text now ctx d canceled a b c h = ground arith

-- A count that was at most one, or none, stays so when a row is replaced by one that it counts no
-- more than the old.
module _ (g p : CoachingAction → Bool) (a b : CoachingAction) (xs : List CoachingAction) where
  replaced : List CoachingAction
  replaced = update_where (λ x. x.id == b.id) (λ _. b) xs

  count-replaced_le :
      find (λ x. g x && (x.id == b.id)) xs ≡ some a
      → count (λ x. x.id == b.id) xs ≤ 1
      → (p b ≡ true → p a ≡ true)
      → count p replaced ≤ count p xs
  unfolding replaced
  count-replaced_le h u w =
      ground (arith, count-replace (λ (x : CoachingAction). x.id) p g b.id a b xs h u)

is_active_for-Continues :
    (t e : ℕ) (a b : CoachingAction)
    → Continues a b
    → is_active_for t e b ≡ true
    → is_active_for t e a ≡ true
is_active_for-Continues t e a b c h = ground arith

module _ (past : Store) (g : CoachingAction → Bool) (a b : CoachingAction) (s : Store)
    (h : find (λ x. g x && (x.id == b.id)) s.actions ≡ some a) (c : Continues a b)
    (act : is_active a.status ≡ true) (v : IsValid past s) where
  -- A closed row is not the one that is written.
  spared : (k : ℕ) (r : CoachingAction) → IsClosedIn past k r → (b.id == k) ≡ false
  spared k r closed = elim (Bool-cases (b.id == k)) [
    | inr e ↦ e
    | inl e ↦
        let found : find (λ (x : CoachingAction). x.id == k) s.actions ≡ some a =
          subst (λ n. find (λ (x : CoachingAction). x.id == n) s.actions ≡ some a) (ground arith)
            (find-key (λ (x : CoachingAction). x.id) b.id g s.actions a h (v.unique_ids b.id)) in
        ground (arith, v.history k r closed, closed.1)
  ]

  -- Writing back an active row that a query found, with what `Continues` allows changed, keeps the
  -- invariant.
  pub save-IsValid : IsValid past (save b s)
  unfolding replaced
  save-IsValid =
      let unique = v.unique_ids b.id in
      record {
        unique_ids = λ k. omega (
          arith,
          v.unique_ids k,
          count-replaced_le g (λ x. x.id == k) a b s.actions h unique (ground arith),
        );
        one_active = λ t e. omega (
          arith,
          v.one_active t e,
          count-replaced_le g (is_active_for t e) a b s.actions h unique
              (is_active_for-Continues t e a b c),
        );
        history = λ k r closed.
            find-update_where_ne (λ (x : CoachingAction). x.id) k b b.id s.actions refl
              (spared k r closed)
            ∙ v.history k r closed;
        well_formed = ground (
          arith,
          v.well_formed,
          count-replace (λ (x : CoachingAction). x.id) (λ x. not (is_well_formed x)) g b.id a b
              s.actions h unique,
        );
      }

-- The invariant is about the rows alone.
pub IsValid-actions : (past s t : Store) → t.actions ≡ s.actions → IsValid past s → IsValid past t
IsValid-actions past s t e v = record {
  history = λ k a closed. rw e (v.history k a closed);
  unique_ids = λ k. rw e (v.unique_ids k);
  one_active = λ n k. rw e (v.one_active n k);
  well_formed = rw e v.well_formed;
}

pub actions-notify_assignee :
    (m : Bool) (tenant : ℕ) (a : CoachingAction) (s : Store)
    → (notify_assignee m tenant a s).actions ≡ s.actions
unfolding notify_assignee
actions-notify_assignee m tenant a s = ground arith

pub add_audit-IsValid :
    (past : Store) (l : AuditLog) (s : Store) → IsValid past s → IsValid past (add_audit l s)
add_audit-IsValid past l s v = record {
  history = v.history;
  unique_ids = v.unique_ids;
  one_active = v.one_active;
  well_formed = v.well_formed;
}

event_is_free :
    (t e : ℕ) (a : CoachingAction) (s : Store)
    → violates_index a s ≡ false
    → is_active_for t e a ≡ true
    → any (is_active_for t e) s.actions ≡ false
unfolding violates_index
event_is_free t e a s free h = elim (Option-cases a.safety_event_id) [
  | inl q ↦ ground arith
  | inr (e', q) ↦ ground arith
]

-- A row that violates no unique index may be added.
pub add_action-IsValid :
    (past : Store) (a : CoachingAction) (s : Store)
    → violates_index a s ≡ false
    → is_well_formed a ≡ true
    → IsValid past s
    → IsValid past (add_action a s)
unfolding violates_index add_action
add_action-IsValid past a s free shape v = record {
  history = λ k r closed. ground (
    arith,
    v.history k r closed,
    any-false (λ (x : CoachingAction). x.id == a.id) s.actions,
    find-counts (λ (x : CoachingAction). x.id == k) s.actions r,
  );
  unique_ids = λ k.
      ground (arith, v.unique_ids k, any-false (λ (b : CoachingAction). b.id == a.id) s.actions);
  one_active = λ t e. elim (Bool-cases (is_active_for t e a)) [
    | inl held ↦
        ground (arith, any-false (is_active_for t e) s.actions, event_is_free t e a s free held)
    | inr other ↦ rw other (omega (arith, v.one_active t e))
  ];
  well_formed = ground (arith, v.well_formed);
}
