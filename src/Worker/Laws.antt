-- ===== src/Worker/Laws.antt =====
-- What a batch of the outbox guarantees.
use visi_on_route.Prelude.{
  List, Option, Option-cases, String, TextMethods, Time, [], ap, arith, false, find, find-updated,
  inl, inr, is_some, length, map, refl, some, true, ℕ, ◌++◌, ◌+◌, ◌==◌, ◌∙◌, ◌∷◌, ◌≡◌, ◌≤◌,
}
use visi_on_route.Worker.Outbox.{
  OutboxEvent, OutboxStatus, Handlers, handle, mark_retry, process_each, change_event, finish,
  begin_nested, start_each, Work, start, process_outbox_batch, claimed, process_events,
}

abbrev pub event_by_id : ℕ → List OutboxEvent → Option OutboxEvent
event_by_id j table = find (λ (x : OutboxEvent). x.id == j) table

rolled_back :
    {D : Type 0} (f : Work D) (d : D) (error : String)
    → (begin_nested f d).0 ≡ some error
    → (begin_nested f d).1 ≡ d
unfolding begin_nested
rolled_back f d error h = ground (arith, h)

nested_failure :
    {D : Type 0} (f : Work D) (d : D) → is_some (f d).0 ≡ true → is_some (begin_nested f d).0 ≡ true
unfolding begin_nested
nested_failure f d h = ground (arith, h)

marked_id :
    (text : TextMethods) (now : Time) (error : String) (x : OutboxEvent)
    → (mark_retry text now error x).id ≡ x.id
unfolding mark_retry
marked_id text now error x = ground arith

-- Two tables agree on the events other than `k`.
abbrev pub Agree : ℕ → List OutboxEvent → List OutboxEvent → Type 0
Agree k t u = (j : ℕ) → (j == k) ≡ false → event_by_id j t ≡ event_by_id j u

module _ (k : ℕ) where
  Agree-change :
      (i : ℕ) (f : OutboxEvent → OutboxEvent) (t u : List OutboxEvent)
      → ((x : OutboxEvent) → (f x).id ≡ x.id)
      → Agree k t u
      → Agree k (change_event i f t) (change_event i f u)
  Agree-change i f t u same_id agree j ne = ground (
    arith,
    agree j ne,
    find-updated (λ (x : OutboxEvent). x.id) j (λ x. x.id == i) f t same_id,
    find-updated (λ (x : OutboxEvent). x.id) j (λ x. x.id == i) f u same_id,
  )

  untouched :
      (f : OutboxEvent → OutboxEvent) (t : List OutboxEvent) (j : ℕ)
      → ((x : OutboxEvent) → (f x).id ≡ x.id)
      → (j == k) ≡ false
      → event_by_id j (change_event k f t) ≡ event_by_id j t
  untouched f [] j same_id ne = refl
  untouched f (x ∷ t) j same_id ne = ground (arith, same_id x, untouched f t j same_id ne, ne)

  Agree-poison :
      (f : OutboxEvent → OutboxEvent) (t u : List OutboxEvent)
      → ((x : OutboxEvent) → (f x).id ≡ x.id)
      → Agree k t u
      → Agree k (change_event k f t) u
  Agree-poison f t u same_id agree j ne = untouched f t j same_id ne ∙ agree j ne

  start_each-Agree :
      (xs : List OutboxEvent) (t u : List OutboxEvent)
      → Agree k t u
      → Agree k (start_each xs t) (start_each xs u)
  start_each-Agree [] t u agree = agree
  start_each-Agree (x ∷ xs) t u agree =
      start_each-Agree xs (change_event x.id start t) (change_event x.id start u)
        (Agree-change x.id start t u (λ y. refl) agree)

  -- The same number of events is handled, the same state is left, and the other events' rows are
  -- the same.
  pub record SameBut {D : Type 0} (p q : ℕ × D × List OutboxEvent) : Type 0 where
    pub handled : p.0 ≡ q.0
    pub state : p.1 ≡ q.1
    pub rows : Agree k p.2 q.2

  count_one :
      {D : Type 0} (p q : ℕ × D × List OutboxEvent)
      → SameBut p q
      → SameBut (p.0 + 1, p.1, p.2) (q.0 + 1, q.1, q.2)
  count_one p q s = record { handled = ap (λ n. n + 1) s.handled; state = s.state; rows = s.rows }

module _ {D : Type 0} (text : TextMethods) (h : Handlers D) (now : Time) (k : ℕ) where
  process_each-SameBut :
      (xs : List OutboxEvent) (d : D) (t u : List OutboxEvent)
      → Agree k t u
      → SameBut k (process_each text h now xs d t) (process_each text h now xs d u)
  process_each-SameBut [] d t u agree = record { handled = refl; state = refl; rows = agree }
  process_each-SameBut (x ∷ xs) d t u agree = elim (Option-cases (begin_nested (handle h x) d).0) [
    | inl q ↦
        rw (process_each, q)
          (count_one k
            (process_each text h now xs (begin_nested (handle h x) d).1
              (change_event x.id (finish now) t))
            (process_each text h now xs (begin_nested (handle h x) d).1
              (change_event x.id (finish now) u))
            (process_each-SameBut xs (begin_nested (handle h x) d).1
              (change_event x.id (finish now) t) (change_event x.id (finish now) u)
              (Agree-change k x.id (finish now) t u (λ y. refl) agree)))
    | inr (e, q) ↦
        rw (process_each, q)
          (process_each-SameBut xs (begin_nested (handle h x) d).1
            (change_event x.id (mark_retry text now e) t)
            (change_event x.id (mark_retry text now e) u)
            (Agree-change k x.id (mark_retry text now e) t u (marked_id text now e) agree))
  ]

module _ {D : Type 0} (text : TextMethods) (h : Handlers D) (now : Time) (x : OutboxEvent)
    (poison : (d : D) → is_some (handle h (start x) d).0 ≡ true) where
  abbrev run : List OutboxEvent → D → List OutboxEvent → ℕ × D × List OutboxEvent
  run xs d t = process_each text h now (map start xs) d t

  poison_step :
      (after : List OutboxEvent) (d : D) (t u : List OutboxEvent)
      → Agree x.id t u
      → SameBut x.id (run (x ∷ after) d t) (run after d u)
  poison_step after d t u agree = elim (Option-cases (begin_nested (handle h (start x)) d).0) [
    | inl q ↦ absurd (cc (q, nested_failure (handle h (start x)) d (poison d)))
    | inr (e, q) ↦
        rw (process_each, q, rolled_back (handle h (start x)) d e q)
          (process_each-SameBut text h now x.id (map start after) d
            (change_event x.id (mark_retry text now e) t) u
            (Agree-poison x.id (mark_retry text now e) t u (marked_id text now e) agree))
  ]

  poison_among :
      (before after : List OutboxEvent) (d : D) (t u : List OutboxEvent)
      → Agree x.id t u
      → SameBut x.id (run (before ++ x ∷ after) d t) (run (before ++ after) d u)
  poison_among [] after d t u agree = poison_step after d t u agree
  poison_among (y ∷ before) after d t u agree =
      elim (Option-cases (begin_nested (handle h (start y)) d).0) [
        | inl q ↦
            rw (process_each, q)
              (count_one x.id
                (run (before ++ x ∷ after) (begin_nested (handle h (start y)) d).1
                  (change_event y.id (finish now) t))
                (run (before ++ after) (begin_nested (handle h (start y)) d).1
                  (change_event y.id (finish now) u))
                (poison_among before after (begin_nested (handle h (start y)) d).1
                  (change_event y.id (finish now) t) (change_event y.id (finish now) u)
                  (Agree-change x.id y.id (finish now) t u (λ z. refl) agree)))
        | inr (e, q) ↦
            rw (process_each, q)
              (poison_among before after (begin_nested (handle h (start y)) d).1
                (change_event y.id (mark_retry text now e) t)
                (change_event y.id (mark_retry text now e) u)
                (Agree-change x.id y.id (mark_retry text now e) t u (marked_id text now e) agree))
      ]

  started-Agree :
      (before after t u : List OutboxEvent)
      → Agree x.id t u
      → Agree x.id (start_each (before ++ x ∷ after) t) (start_each (before ++ after) u)
  started-Agree [] after t u agree =
      start_each-Agree x.id after (change_event x.id start t) u
        (Agree-poison x.id start t u (λ y. refl) agree)
  started-Agree (y ∷ before) after t u agree =
      started-Agree before after (change_event y.id start t) (change_event y.id start u)
        (Agree-change x.id y.id start t u (λ z. refl) agree)

  -- Where one of the events that a batch claims raises in every state, the batch handles the same
  -- number of events, leaves the same state, and leaves the same row of every other event, as if it
  -- had claimed the others without that one.
  pub poison-isolated :
      (before after : List OutboxEvent) (d : D) (table : List OutboxEvent)
      → claimed now table ≡ before ++ x ∷ after
      → SameBut x.id
          (process_outbox_batch text h now d table)
          (process_events text h now (before ++ after) d table)
  unfolding process_outbox_batch
  poison-isolated before after d table c = rw c (
      poison_among before after d (start_each (before ++ x ∷ after) table)
        (start_each (before ++ after) table)
        (started-Agree before after table table (λ j ne. refl)))

-- The failures of one event, each with its moment and its exception
abbrev pub fail_all : TextMethods → List (Time × String) → OutboxEvent → OutboxEvent
fail_all text [] x = x
fail_all text ((now, error) ∷ rest) x = fail_all text rest (mark_retry text now error x)

mark_retry-below :
    (text : TextMethods) (now : Time) (error : String) (x : OutboxEvent)
    → x.attempts + 1 ≤ 7
    → ((mark_retry text now error x).attempts ≡ x.attempts + 1)
      × ((mark_retry text now error x).status ≡ OutboxStatus.pending)
unfolding mark_retry
mark_retry-below text now error x few = ground arith

mark_retry-last :
    (text : TextMethods) (now : Time) (error : String) (x : OutboxEvent)
    → x.attempts ≡ 7
    → (mark_retry text now error x).status ≡ OutboxStatus.dead_letter
unfolding mark_retry
mark_retry-last text now error x h = ground arith

failures-below :
    (text : TextMethods) (failures : List (Time × String)) (x : OutboxEvent)
    → x.status ≡ OutboxStatus.pending
    → x.attempts + length failures ≤ 7
    → ((fail_all text failures x).attempts ≡ x.attempts + length failures)
      × ((fail_all text failures x).status ≡ OutboxStatus.pending)
failures-below text [] x p h = (omega arith, p)
failures-below text ((now, error) ∷ rest) x p h = (
  omega (arith, below.0, (failures-below text rest y below.1 (omega (arith, h, below.0))).0),
  (failures-below text rest y below.1 (omega (arith, h, below.0))).1,
)
  where
    y : OutboxEvent
    y = mark_retry text now error x

    below : (y.attempts ≡ x.attempts + 1) × (y.status ≡ OutboxStatus.pending)
    below = mark_retry-below text now error x (omega (arith, h))

-- A pending event that failed again until it has seven failures is pending still, and its eighth
-- failure puts it among the dead letters.
pub eighth_failure :
    (text : TextMethods) (failures : List (Time × String)) (now : Time) (error : String)
    (x : OutboxEvent)
    → x.status ≡ OutboxStatus.pending
    → x.attempts + length failures ≡ 7
    → ((fail_all text failures x).status ≡ OutboxStatus.pending)
      × ((mark_retry text now error (fail_all text failures x)).status ≡ OutboxStatus.dead_letter)
eighth_failure text failures now error x p h = (
  (failures-below text failures x p (omega (arith, h))).1,
  mark_retry-last text now error (fail_all text failures x)
      (omega (arith, h, (failures-below text failures x p (omega (arith, h))).0)),
)
