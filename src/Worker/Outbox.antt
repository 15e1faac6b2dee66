-- ===== src/Worker/Outbox.antt =====
-- worker/runner.py and the `OutboxEvent` row of infrastructure/db/models/system.py. The handlers
-- of an event, the rest of the database and the signals to live streams are arguments. A batch runs
-- at one moment.
use visi_on_route.Prelude.{
  Bool, List, Option, String, TextMethods, Time, [], false, if◌then◌else◌, leb, map, min, none,
  seconds, select, some, str_eq, take, true, update_where, ℕ, ◌&&◌, ◌+◌, ◌==◌, ◌^◌, ◌∷◌,
}

pub data OutboxStatus : Type 0 where
  pending processing done dead_letter : OutboxStatus

pub record OutboxEvent : Type 0 where
  pub id : ℕ
  pub event_type : String
  pub payload : ℕ
  pub status : OutboxStatus
  pub attempts : ℕ
  pub next_attempt_at : Time
  pub last_error : Option String
  pub occurred_at : Time
  pub processed_at : Option Time

-- What a piece of work comes to: the text of its exception, if it raised one, and the state that it
-- had reached.
abbrev pub Work : Type 0 → Type 0
Work D = D → Option String × D

-- The handlers of the two event types, and the signal to the live streams.
pub record Handlers (D : Type 0) : Type 0 where
  pub ingest_accepted : OutboxEvent → Work D
  pub safety_event_created : OutboxEvent → Work D
  pub notify_live : OutboxEvent → Work D

abbrev pub and_then : {D : Type 0} → Work D → Work D → Work D
and_then f g d = let (r, d') = f d in elim r [ none ↦ g d' | some error ↦ (some error, d') ]

-- `_dispatch`: an unknown type is acknowledged.
unfoldable pub dispatch : {D : Type 0} → Handlers D → OutboxEvent → Work D
dispatch h x d =
    if str_eq x.event_type "ingest.event_accepted"
    then h.ingest_accepted x d
    else if str_eq x.event_type "safety.event_created"
    then h.safety_event_created x d
    else (none, d)

-- The block of one event
unfoldable pub handle : {D : Type 0} → Handlers D → OutboxEvent → Work D
handle h x = and_then (dispatch h x) (h.notify_live x)

-- `async with session.begin_nested()`: an exception rolls back to the state before the block.
unfoldable pub begin_nested : {D : Type 0} → Work D → Work D
begin_nested f d = let (r, d') = f d in elim r [ none ↦ (none, d') | some error ↦ (some error, d) ]

abbrev pub is_live : OutboxEvent → Bool
is_live x = elim x.status [
  | OutboxStatus.pending ↦ true
  | OutboxStatus.processing ↦ true
  | _ ↦ false
]

abbrev pub is_due : Time → OutboxEvent → Bool
is_due now x = is_live x && leb x.next_attempt_at now

-- `order_by(occurred_at)`
abbrev pub insert_by_age : OutboxEvent → List OutboxEvent → List OutboxEvent
insert_by_age x [] = x ∷ []
insert_by_age x (y ∷ ys) =
    let rest = insert_by_age x ys in
    if leb x.occurred_at y.occurred_at then x ∷ y ∷ ys else y ∷ rest

abbrev pub by_age : List OutboxEvent → List OutboxEvent
by_age [] = []
by_age (x ∷ xs) = insert_by_age x (by_age xs)

abbrev pub start : OutboxEvent → OutboxEvent
start x = record x { status = OutboxStatus.processing }

abbrev pub change_event : ℕ → (OutboxEvent → OutboxEvent) → List OutboxEvent → List OutboxEvent
change_event k f table = update_where (λ (x : OutboxEvent). x.id == k) f table

abbrev pub start_each : List OutboxEvent → List OutboxEvent → List OutboxEvent
start_each [] table = table
start_each (x ∷ xs) table = start_each xs (change_event x.id start table)

-- `_claim`: at most fifty events
abbrev pub claimed : Time → List OutboxEvent → List OutboxEvent
claimed now table = take 50 (by_age (select (is_due now) table))

-- `_mark_retry`: eight attempts, then the dead letters
unfoldable pub mark_retry : TextMethods → Time → String → OutboxEvent → OutboxEvent
mark_retry text now error x =
    let y = record x { attempts = x.attempts + 1; last_error = some (text.prefix 2000 error) } in
    if leb 8 y.attempts then record y { status = OutboxStatus.dead_letter } else record y {
      status = OutboxStatus.pending;
      next_attempt_at = now + seconds (min (2 ^ y.attempts) 300);
    }

abbrev pub finish : Time → OutboxEvent → OutboxEvent
finish now x = record x { status = OutboxStatus.done; processed_at = some now }

-- The loop of `_process_outbox_batch`: the events that were handled, the state, and the table
abbrev pub process_each :
    {D : Type 0}
    → TextMethods
    → Handlers D
    → Time
    → List OutboxEvent
    → D
    → List OutboxEvent
    → ℕ × D × List OutboxEvent
process_each text h now [] d table = (0, d, table)
process_each text h now (x ∷ xs) d table =
    let (r, d') = begin_nested (handle h x) d in
    elim r [
      | some error ↦
          process_each text h now xs d' (change_event x.id (mark_retry text now error) table)
      | none ↦
          (let (handled, d'', table') =
              process_each text h now xs d' (change_event x.id (finish now) table) in
            (handled + 1, d'', table'))
    ]

abbrev pub process_events :
    {D : Type 0}
    → TextMethods
    → Handlers D
    → Time
    → List OutboxEvent
    → D
    → List OutboxEvent
    → ℕ × D × List OutboxEvent
process_events text h now events d table =
    process_each text h now (map start events) d (start_each events table)

unfoldable pub process_outbox_batch :
    {D : Type 0} → TextMethods → Handlers D → Time → D → List OutboxEvent → ℕ × D × List OutboxEvent
process_outbox_batch text h now d table = process_events text h now (claimed now table) d table
