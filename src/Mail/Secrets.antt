-- ===== src/Mail/Secrets.antt =====
-- Secrets of e-mails do not outlive their delivery.
use visi_on_route.Prelude.{
  Bool, List, TextMethods, Time, [], arith, count, count-update_where_le, false, is_some, map, refl,
  select, take, true, update_where, ℕ, ◌&&◌, ◌==◌, ◌∷◌, ◌≡◌, ◌≤◌,
}
use visi_on_route.Mail.Delivery.{
  EmailMessage, Outcome, MailStatus, Attempted, claim_each, deliver_due, settle, claim, claim_row,
  deliver_each, by_age, record_outcome, attempt, is_due, is_sending,
}

abbrev pub is_over : EmailMessage → Bool
is_over x = elim x.status [ MailStatus.sent ↦ true | MailStatus.dead_letter ↦ true | _ ↦ false ]

-- A message that was sent or given up and still holds a secret.
abbrev pub leaks : EmailMessage → Bool
leaks x = is_over x && is_some x.secret_context_enc

settle-leaks :
    (now : Time) (claimed : EmailMessage) (o : Outcome) (x : EmailMessage)
    → leaks (settle now claimed o x) ≡ false
unfolding settle
settle-leaks now claimed Outcome.sent x = refl
settle-leaks now claimed (Outcome.retry error) x = refl
settle-leaks now claimed (Outcome.dead_letter error) x = refl

claim_each-leaks :
    (now : Time) (due table : List EmailMessage)
    → count leaks (claim_each now due table) ≤ count leaks table
claim_each-leaks now [] table = omega arith
claim_each-leaks now (x ∷ xs) table = omega (
  arith,
  claim_each-leaks now xs (update_where (λ (y : EmailMessage). y.id == x.id) (claim_row now) table),
  count-update_where_le leaks (λ (y : EmailMessage). y.id == x.id) (claim_row now) table
      (λ y h. ground arith),
)

deliver_each-leaks :
    (text : TextMethods) (world : EmailMessage → Attempted × Time)
    (claimed table : List EmailMessage)
    → count leaks (deliver_each text world claimed table).1 ≤ count leaks table
deliver_each-leaks text world [] table = omega arith
deliver_each-leaks text world (x ∷ xs) table = omega (
  arith,
  deliver_each-leaks text world xs
      (record_outcome (world x).1 x (attempt text x (world x).0) table),
  count-update_where_le leaks (λ (y : EmailMessage). (y.id == x.id) && is_sending y)
      (settle (world x).1 x (attempt text x (world x).0)) table
      (λ y h. ground (arith, settle-leaks (world x).1 x (attempt text x (world x).0) y)),
)

-- Whatever decryption, rendering and the mail server do, a delivery round leaves no sent or
-- dead-lettered message with its secret, if there was none before.
pub deliver_due-wipes :
    (text : TextMethods) (world : EmailMessage → Attempted × Time) (limit : ℕ) (now : Time)
    (table : List EmailMessage)
    → count leaks table ≡ 0
    → count leaks (deliver_due text world limit now table).1 ≡ 0
unfolding deliver_due claim
deliver_due-wipes text world limit now table h = omega (
  arith,
  h,
  claim_each-leaks now (take limit (by_age (select (is_due now) table))) table,
  deliver_each-leaks text world
      (map (claim_row now) (take limit (by_age (select (is_due now) table))))
      (claim_each now (take limit (by_age (select (is_due now) table))) table),
)
