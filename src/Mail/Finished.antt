-- ===== src/Mail/Finished.antt =====
-- Messages that keep failing are given up.
use visi_on_route.Prelude.{
  List, String, TextMethods, Time, [], arith, false, length, none, ◌+◌, ◌∷◌, ◌≡◌, ◌≤◌,
}
use visi_on_route.Mail.Delivery.{EmailMessage, MailStatus, attempt, claim_row, settle, Attempted}

-- One round of one message that the mail server refuses for now.
abbrev pub failed_round : TextMethods → Time → Time → String → EmailMessage → EmailMessage
failed_round text claimed_at now error x =
    let y = claim_row claimed_at x in
    settle now y (attempt text y (Attempted.refused false error)) y

abbrev pub failed_rounds : TextMethods → List (Time × Time × String) → EmailMessage → EmailMessage
failed_rounds text [] x = x
failed_rounds text ((claimed_at, now, error) ∷ rest) x =
    failed_rounds text rest (failed_round text claimed_at now error x)

failed_round-retries :
    (text : TextMethods) (claimed_at now : Time) (error : String) (x : EmailMessage)
    → x.attempts + 2 ≤ x.max_attempts
    → (let y = failed_round text claimed_at now error x in
        (y.status ≡ MailStatus.pending)
        × (y.attempts ≡ x.attempts + 1)
        × (y.max_attempts ≡ x.max_attempts))
unfolding attempt settle
failed_round-retries text claimed_at now error x h = ground arith

failed_round-gives_up :
    (text : TextMethods) (claimed_at now : Time) (error : String) (x : EmailMessage)
    → x.attempts + 1 ≡ x.max_attempts
    → (let y = failed_round text claimed_at now error x in
        (y.status ≡ MailStatus.dead_letter) × (y.secret_context_enc ≡ none))
unfolding attempt settle
failed_round-gives_up text claimed_at now error x h = ground arith

-- A message that the mail server refuses for now in every round that it has left, at least one,
-- is dead-lettered without its secret after the last of them.
pub failed_rounds-give_up :
    (text : TextMethods) (rounds : List (Time × Time × String)) (x : EmailMessage)
    → 1 ≤ length rounds
    → x.attempts + length rounds ≡ x.max_attempts
    → (let y = failed_rounds text rounds x in
        (y.status ≡ MailStatus.dead_letter) × (y.secret_context_enc ≡ none))
failed_rounds-give_up text [] x some_left h = absurd (omega (arith, some_left))
failed_rounds-give_up text ((claimed_at, now, error) ∷ []) x some_left h =
    failed_round-gives_up text claimed_at now error x h
failed_rounds-give_up text ((claimed_at, now, error) ∷ r ∷ rest) x some_left h =
    failed_rounds-give_up text (r ∷ rest) (failed_round text claimed_at now error x) (omega arith)
      (omega (arith, h, retried.1, retried.2))
  where
    retried :
        let y = failed_round text claimed_at now error x in
        (y.status ≡ MailStatus.pending)
        × (y.attempts ≡ x.attempts + 1)
        × (y.max_attempts ≡ x.max_attempts)
    retried = failed_round-retries text claimed_at now error x (omega (arith, h))
