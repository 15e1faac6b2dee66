-- ===== src/Worker/Tests.antt =====
-- Runs of the outbox worker. The rest of the database is a number, which a handler raises.
use visi_on_route.Prelude.{
  List, String, TextMethods, Time, [], if◌then◌else◌, none, refl, some, ℕ, ◌+◌, ◌==◌, ◌∷◌, ◌≡◌,
}
use visi_on_route.Worker.Outbox.{
  OutboxEvent, OutboxStatus, Handlers, mark_retry, handle, dispatch, process_outbox_batch,
  process_events,
}
use visi_on_route.Worker.Laws.{poison-isolated, eighth_failure, SameBut, fail_all}

abbrev plain_text : TextMethods
plain_text = record { strip = λ s. s; prefix = λ n s. s }

abbrev handlers : Handlers ℕ
handlers = record {
  ingest_accepted = λ x d. if x.id == 2 then (some "ValueError", d + 7) else (none, d + 1);
  safety_event_created = λ x d. (none, d + 1);
  notify_live = λ x d. (none, d);
}

abbrev event : ℕ → OutboxEvent
event n = record {
  id = n;
  event_type = "ingest.event_accepted";
  payload = n;
  status = OutboxStatus.pending;
  attempts = 0;
  next_attempt_at = 0;
  last_error = none;
  occurred_at = n;
  processed_at = none;
}

abbrev table : List OutboxEvent
table = event 3 ∷ event 1 ∷ event 2 ∷ []

poison-isolated_example :
    SameBut 2
      (process_outbox_batch plain_text handlers 5 0 table)
      (process_events plain_text handlers 5 (event 1 ∷ event 3 ∷ []) 0 table)
unfolding handle dispatch
poison-isolated_example =
    poison-isolated plain_text handlers 5 (event 2) (λ d. refl) (event 1 ∷ []) (event 3 ∷ []) 0
      table refl

abbrev seven : List (Time × String)
seven = (1, "a") ∷ (2, "b") ∷ (3, "c") ∷ (4, "d") ∷ (5, "e") ∷ (6, "f") ∷ (7, "g") ∷ []

eighth_failure_example :
    ((fail_all plain_text seven (event 1)).status ≡ OutboxStatus.pending)
    × ((mark_retry plain_text 8 "h" (fail_all plain_text seven (event 1))).status
        ≡ OutboxStatus.dead_letter)
eighth_failure_example = eighth_failure plain_text seven 8 "h" (event 1) refl refl
