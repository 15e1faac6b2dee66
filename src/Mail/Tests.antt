-- ===== src/Mail/Tests.antt =====
-- Runs of the delivery of e-mail.
use visi_on_route.Prelude.{
  List, String, TextMethods, Time, [], arith, count, hours, none, refl, some, ◌∷◌, ◌≡◌,
}
use visi_on_route.Mail.Delivery.{EmailMessage, MailStatus, Attempted, deliver_due}
use visi_on_route.Mail.Secrets.{deliver_due-wipes, leaks}
use visi_on_route.Mail.Finished.{failed_rounds-give_up, failed_rounds}

abbrev plain_text : TextMethods
plain_text = record { strip = λ s. s; prefix = λ n s. s }

abbrev invitation : EmailMessage
invitation = record {
  id = 1;
  recipient = "ayse@example.com";
  template = "invitation";
  secret_context_enc = some "token";
  status = MailStatus.pending;
  attempts = 0;
  max_attempts = 2;
  next_attempt_at = 0;
  last_error = none;
  provider_message_id = none;
  sent_at = none;
  created_at = 0;
}

deliver_due-wipes_example :
    count leaks
      (deliver_due plain_text (λ x. (Attempted.accepted, hours 1)) 20 (hours 1) (invitation ∷ [])).1
    ≡ 0
deliver_due-wipes_example =
    deliver_due-wipes plain_text (λ x. (Attempted.accepted, hours 1)) 20 (hours 1) (invitation ∷ [])
      refl

abbrev two_rounds : List (Time × Time × String)
two_rounds = (hours 1, hours 1, "busy") ∷ (hours 2, hours 2, "busy") ∷ []

failed_rounds-give_up_example :
    let y = failed_rounds plain_text two_rounds invitation in
    (y.status ≡ MailStatus.dead_letter) × (y.secret_context_enc ≡ none)
failed_rounds-give_up_example =
    failed_rounds-give_up plain_text two_rounds invitation (omega arith) refl
