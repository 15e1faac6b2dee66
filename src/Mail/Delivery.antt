-- ===== src/Mail/Delivery.antt =====
-- application/mail/delivery.py and the row of infrastructure/db/models/mail.py. Decryption, the
-- templates and the mail server are arguments: what they did with one message is an `Attempted`.
use visi_on_route.Prelude.{
  Bool, List, Option, String, TextMethods, Time, [], false, if◌then◌else◌, leb, map, min, minutes,
  none, seconds, select, some, take, true, update_where, ℕ, ◌&&◌, ◌*◌, ◌+◌, ◌-◌, ◌==◌, ◌^◌, ◌∷◌,
}

pub data MailStatus : Type 0 where
  pending sending sent dead_letter canceled : MailStatus

pub record EmailMessage : Type 0 where
  pub id : ℕ
  pub recipient : String
  pub template : String
  pub secret_context_enc : Option String
  pub status : MailStatus
  pub attempts : ℕ
  pub max_attempts : ℕ
  pub next_attempt_at : Time
  pub last_error : Option String
  pub provider_message_id : Option ℕ
  pub sent_at : Option Time
  pub created_at : Time

-- How a rendering and sending ended.
pub data Attempted : Type 0 where
  decryption_failed : String → Attempted
  template_failed : String → Attempted
  refused : Bool → String → Attempted
  accepted : Attempted

pub data Outcome : Type 0 where
  sent : Outcome
  retry : String → Outcome
  dead_letter : String → Outcome

pub record DeliveryStats : Type 0 where
  pub sent : ℕ
  pub retried : ℕ
  pub dead_lettered : ℕ
  pub message_ids : List ℕ

-- `backoff_for`; subtraction on ℕ stops at 0, as `max(attempts - 1, 0)` does
abbrev pub backoff_for : ℕ → Time
backoff_for attempts = seconds (min (60 * 2 ^ (attempts - 1)) 3600)

-- `next_attempt_at <= now`, and pending or under an expired lease
abbrev pub is_due : Time → EmailMessage → Bool
is_due now x = elim x.status [
  | MailStatus.pending ↦ leb x.next_attempt_at now
  | MailStatus.sending ↦ leb x.next_attempt_at now
  | _ ↦ false
]

-- `order_by(created_at)`
abbrev pub insert_by_age : EmailMessage → List EmailMessage → List EmailMessage
insert_by_age x [] = x ∷ []
insert_by_age x (y ∷ ys) =
    let rest = insert_by_age x ys in if leb x.created_at y.created_at then x ∷ y ∷ ys else y ∷ rest

abbrev pub by_age : List EmailMessage → List EmailMessage
by_age [] = []
by_age (x ∷ xs) = insert_by_age x (by_age xs)

-- The row of a claimed message; the lease is five minutes.
abbrev pub claim_row : Time → EmailMessage → EmailMessage
claim_row now x = record x {
  status = MailStatus.sending;
  attempts = x.attempts + 1;
  next_attempt_at = now + minutes 5;
}

abbrev pub claim_each : Time → List EmailMessage → List EmailMessage → List EmailMessage
claim_each now [] table = table
claim_each now (x ∷ xs) table =
    claim_each now xs (update_where (λ (y : EmailMessage). y.id == x.id) (claim_row now) table)

-- `_claim`: the claimed messages as they are after the claim, and the table
unfoldable pub claim : ℕ → Time → List EmailMessage → List EmailMessage × List EmailMessage
claim limit now table =
    let due = take limit (by_age (select (is_due now) table)) in
    (map (claim_row now) due, claim_each now due table)

-- `_retry_or_dead`
abbrev pub retry_or_dead : TextMethods → EmailMessage → String → Outcome
retry_or_dead text x error =
    if leb x.max_attempts x.attempts
    then Outcome.dead_letter (text.prefix 1000 error)
    else Outcome.retry (text.prefix 1000 error)

-- `_attempt`, from what the libraries did
unfoldable pub attempt : TextMethods → EmailMessage → Attempted → Outcome
attempt text x (Attempted.decryption_failed error) = retry_or_dead text x error
attempt text x (Attempted.template_failed error) = Outcome.dead_letter error
attempt text x (Attempted.refused true error) = Outcome.dead_letter (text.prefix 1000 error)
attempt text x (Attempted.refused false error) = retry_or_dead text x error
attempt text x Attempted.accepted = Outcome.sent

-- The row after the outcome; `claimed` is the message as it was claimed.
unfoldable pub settle : Time → EmailMessage → Outcome → EmailMessage → EmailMessage
settle now claimed Outcome.sent x = record x {
  status = MailStatus.sent;
  sent_at = some now;
  last_error = none;
  provider_message_id = some claimed.id;
  secret_context_enc = none;
}
settle now claimed (Outcome.retry error) x = record x {
  status = MailStatus.pending;
  last_error = some error;
  next_attempt_at = now + backoff_for claimed.attempts;
}
settle now claimed (Outcome.dead_letter error) x = record x {
  status = MailStatus.dead_letter;
  last_error = some error;
  secret_context_enc = none;
}

abbrev pub is_sending : EmailMessage → Bool
is_sending x = elim x.status [ MailStatus.sending ↦ true | _ ↦ false ]

-- `_record`: nothing, if the message is no longer being sent
abbrev pub record_outcome : Time → EmailMessage → Outcome → List EmailMessage → List EmailMessage
record_outcome now claimed outcome table =
    update_where (λ (x : EmailMessage). (x.id == claimed.id) && is_sending x)
      (settle now claimed outcome) table

abbrev pub add_stats : ℕ → Outcome → DeliveryStats → DeliveryStats
add_stats k Outcome.sent r = record r { sent = r.sent + 1; message_ids = k ∷ r.message_ids }
add_stats k (Outcome.retry _) r = record r {
  retried = r.retried + 1;
  message_ids = k ∷ r.message_ids;
}
add_stats k (Outcome.dead_letter _) r = record r {
  dead_lettered = r.dead_lettered + 1;
  message_ids = k ∷ r.message_ids;
}

-- The loop of `deliver_due`: each claimed message comes with what the libraries do, and with the
-- moment at which its outcome is recorded. The identifiers are in the order of the loop, since
-- the statistics of a message are added in front of those of the messages after it.
abbrev pub deliver_each :
    TextMethods
    → (EmailMessage → Attempted × Time)
    → List EmailMessage
    → List EmailMessage
    → DeliveryStats × List EmailMessage
deliver_each text world [] table =
    (record { sent = 0; retried = 0; dead_lettered = 0; message_ids = [] }, table)
deliver_each text world (x ∷ xs) table =
    let outcome = attempt text x (world x).0 in
    let (stats, table') = deliver_each text world xs (record_outcome (world x).1 x outcome table) in
    (add_stats x.id outcome stats, table')

unfoldable pub deliver_due :
    TextMethods
    → (EmailMessage → Attempted × Time)
    → ℕ
    → Time
    → List EmailMessage
    → DeliveryStats × List EmailMessage
deliver_due text world limit now table =
    let (claimed, table') = claim limit now table in deliver_each text world claimed table'
