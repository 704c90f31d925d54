-- ===== src/Api/Resets/Uniform.antt =====
-- backend/app/api/routes/auth.py: what a client learns of a request for a password reset, and what the
-- request stores.
use text.Mathlib.Text.{◌==◌ as str_eq}
use opsflow.Prelude.{
  ◌+◌, ◌≡◌, ◌⊎◌, refl, String, Option, none, some, ok, err, true, false, Bool-cases, Option-cases,
  subst, inl, inr, arith, if◌then◌else◌, List, Result, ap, sym,
}
use opsflow.Auth.Tokens.{Crypto}
use opsflow.Throttle.Keys.{TextRuntime}
use opsflow.Throttle.Reset.{ResetThrottle, PasswordResetThrottleDecision, check_and_record}
use opsflow.PasswordReset.Service.{ResetDb, PasswordResetIssueResult, request_reset, normalized}
use opsflow.Auth.Users.{get_auth_record_by_email}
use opsflow.Api.{Answered, answer, delivery_error_response}
use opsflow.Api.Resets.{
  DeliveryMessage, DeliveryError, delivery_error, accepted, client_error, Mail, build_link,
  send_password_reset, deliver, ResetDraw, client_address, accepted_response, throttled_response,
  after_issue, after_delivery, request_password_reset,
}

-- SES answers every mail, or fails as boto3 documents.
abbrev pub IsDocumented : Mail → Type 0
IsDocumented mail =
    (message : DeliveryMessage)
    → (mail.send_email message ≡ accepted) ⊎ (mail.send_email message ≡ client_error)

module _ (mail : Mail) (documented : IsDocumented mail) where
  deliver-cases :
      (issuance : PasswordResetIssueResult)
      → str_eq issuance.raw_token "" ≡ false
      → (deliver mail issuance ≡ ok tt) ⊎ (deliver mail issuance ≡ err delivery_error)
  unfolding deliver build_link send_password_reset
  deliver-cases issuance drawn =
      let message : DeliveryMessage = record {
        recipient_email = mail.strip issuance.email;
        reset_url = mail.url_with_token issuance.raw_token;
        expires_at = issuance.expires_at;
      } in
      elim (Bool-cases (str_eq (mail.strip issuance.email) "")) [
        | inl empty ↦ inr (ground arith)
        | inr address ↦ elim (documented message) [
          | inl sent ↦ inl (ground arith)
          | inr failed ↦ inr (ground arith)
        ]
      ]

module _ (mail : Mail) (text : TextRuntime) (c : Crypto) (digest_token : String → String)
    (token_ttl : opsflow.Prelude.ℕ) (draw : ResetDraw) (client : Option String) (email : String)
    (throttle : ResetThrottle) where
  abbrev decision : PasswordResetThrottleDecision
  decision = (check_and_record text draw.attempt_time (client_address client) email throttle).0

  -- What is stored is what was sent.
  abbrev pub IsSent : ResetDb → ResetDb → Type 0
  IsSent db db' =
      (issuance : PasswordResetIssueResult) × (request_reset c digest_token draw.now token_ttl
          draw.token_id draw.raw_token email db
        ≡ (some issuance, db'))
      × (deliver mail issuance ≡ ok tt)

  abbrev issue : ResetDb → Option PasswordResetIssueResult × ResetDb
  issue db = request_reset c digest_token draw.now token_ttl draw.token_id draw.raw_token email db

  -- Without a token nothing is written, and a token is the one that was drawn.
  issue-cases :
      (db : ResetDb)
      → (issue db ≡ (none, db))
        ⊎ ((issuance : PasswordResetIssueResult) × (db' : ResetDb) × (issue db
              ≡ (some issuance, db'))
            × (issuance.raw_token ≡ draw.raw_token))
  unfolding request_reset
  issue-cases db =
      elim (Option-cases (get_auth_record_by_email (normalized c email) db.accounts.users)) [
        | inl missing ↦ inl (ground arith)
        | inr (row, found) ↦ elim (Bool-cases row.user.is_active) [
          | inl active ↦
              let issuance : PasswordResetIssueResult = record {
                user_id = row.user.id;
                email = row.user.email;
                raw_token = draw.raw_token;
                expires_at = draw.now + token_ttl;
              } in
              inr (issuance, (issue db).1, ground arith, refl)
          | inr inactive ↦ inl (ground arith)
        ]
      ]

  abbrev issued : ResetDb → Option PasswordResetIssueResult × ResetDb → Answered ResetDb
  issued db (issuance, db') =
      answer (λ _. ((after_issue mail email issuance).0, (after_issue mail email issuance).1, db'))
        db

  abbrev settled :
      ResetDb
      → PasswordResetIssueResult
      → ResetDb
      → Result DeliveryError (Unit {0})
      → Answered ResetDb
  settled db issuance db' delivered =
      answer
        (λ _. (
          (after_delivery email issuance.user_id delivered).0,
          (after_delivery email issuance.user_id delivered).1,
          db',
        ))
        db

  -- The answer to a request that the throttle has let through.
  abbrev Hides : ResetDb → Answered ResetDb → Type 0
  Hides db a = (a.response ≡ accepted_response) × ((a.state ≡ db) ⊎ IsSent db a.state)

  issued-Hides :
      (db : ResetDb)
      → str_eq draw.raw_token "" ≡ false
      → IsDocumented mail
      → Hides db (issued db (issue db))
  unfolding answer after_issue delivery_error_response
  issued-Hides db drawn documented = elim (issue-cases db) [
    | inl unknown ↦ subst (λ run. Hides db (issued db run)) (sym unknown) (refl, inl refl)
    | inr (issuance, db', issuing, named) ↦
        let drawn' : str_eq issuance.raw_token "" ≡ false =
          subst (λ raw. str_eq raw "" ≡ false) (sym named) drawn in
        subst (λ run. Hides db (issued db run)) (sym issuing)
          (elim (deliver-cases mail documented issuance drawn') [
            | inl sent ↦
                subst (λ r. Hides db (settled db issuance db' r)) (sym sent)
                  (refl, inr (issuance, issuing, sent))
            | inr failed ↦
                subst (λ r. Hides db (settled db issuance db' r)) (sym failed) (refl, inl refl)
          ])
  ]

  abbrev answered : ResetDb → Answered ResetDb
  answered db =
      answer
        (request_password_reset mail text c digest_token token_ttl draw client email throttle).1 db

  answered-allowed : (db : ResetDb) → decision.allowed ≡ true → answered db ≡ issued db (issue db)
  unfolding answer request_password_reset
  answered-allowed db allowed = rw (request_password_reset, allowed) refl

  answered-denied :
      (db : ResetDb)
      → decision.allowed ≡ false
      → ((answered db).response ≡ throttled_response decision) × ((answered db).state ≡ db)
  unfolding answer request_password_reset
  answered-denied db denied =
      (rw (request_password_reset, denied) refl, rw (request_password_reset, denied) refl)

  -- A request for a password reset, with the token that was drawn and a mail service that answers as
  -- documented: where the throttle denies it, the answer is 429 and the rows stay as they are. Else it
  -- is 202 with the same message, whether or not an account has the address and whether or not the mail
  -- goes out, and the rows stay as they are unless a token was issued and its mail was sent.
  pub response_hides_account :
      (db : ResetDb)
      → str_eq draw.raw_token "" ≡ false
      → IsDocumented mail
      → ((answered db).response
          ≡ (if decision.allowed then accepted_response else throttled_response decision))
        × (((answered db).state ≡ db) ⊎ ((decision.allowed ≡ true) × IsSent db (answered db).state))
  response_hides_account db drawn documented = elim (Bool-cases decision.allowed) [
    | inl allowed ↦
        let (response, kept) =
          subst (Hides db) (sym (answered-allowed db allowed)) (issued-Hides db drawn documented) in
        (rw allowed response, elim kept [ inl same ↦ inl same | inr sent ↦ inr (allowed, sent) ])
    | inr denied ↦
        let (response, same) = answered-denied db denied in (rw denied response, inl same)
  ]
