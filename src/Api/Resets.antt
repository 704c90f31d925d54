-- ===== src/Api/Resets.antt =====
-- backend/app/api/routes/auth.py: `request_password_reset` and `confirm_password_reset`, with the
-- delivery of services/password_reset_delivery_coordinator.py, core/password_reset_links.py and
-- infrastructure/aws/ses_password_reset_delivery.py. `urllib` and the client of SES are parameters; the
-- texts of the mail are left out.
pub mod Uniform
use text.Mathlib.Text.{◌==◌ as str_eq}
use opsflow.Prelude.{
  ℕ, not, String, Option, none, some, List, [], ◌∷◌, Result, ok, err, if◌then◌else◌,
}
use opsflow.Prelude.Int.{ℤ, pos}
use opsflow.Auth.Tokens.{Crypto}
use opsflow.Throttle.Keys.{TextRuntime}
use opsflow.Throttle.Reset.{
  ResetThrottle, BlockReason, ip, account, ip_and_account, PasswordResetThrottleDecision,
  check_and_record,
}
use opsflow.PasswordReset.Service.{
  ResetDb, ResetError, invalid_credential, password_rejected, PasswordResetIssueResult,
  PasswordResetCompletionResult, request_reset, confirm_reset,
}
use opsflow.Api.{
  password_reset_throttled, password_reset_credential_invalid, password_reset_password_rejected,
  no_body, accepted_message, Response, respond, refused, Ending, returns, raises_http,
  raises_delivery_error, raises_error, Handler,
}
use opsflow.Api.Cookies.{CookieSettings, clear_auth_cookies}
use opsflow.Api.Events.{
  success, failure, blocked, info, warning, error, number_value, no_value, DetailValue,
  SecurityEvent,
}

pub record DeliveryMessage : Type 0 where
  pub recipient_email : String
  pub reset_url : String
  pub expires_at : ℕ

-- `PasswordResetDeliveryError`, or an error of another class.
pub data DeliveryError : Type 0 where
  delivery_error other_error : DeliveryError

-- What `send_email` does: it returns, raises an error of boto3, or another one.
pub data SesAnswer : Type 0 where
  accepted client_error unexpected : SesAnswer

-- `strip`, the URL with the token in its query, and the client with the configured sender.
pub record Mail : Type 0 where
  pub strip : String → String
  pub url_with_token : String → String
  pub send_email : DeliveryMessage → SesAnswer

module _ (mail : Mail) where
  -- `PasswordResetLinkBuilder.build`; an empty token is a `ValueError`.
  unfoldable pub build_link : String → Result DeliveryError String
  build_link raw_token =
      if str_eq raw_token "" then err other_error else ok (mail.url_with_token raw_token)

  -- `SesPasswordResetDelivery.send_password_reset`
  unfoldable pub send_password_reset : DeliveryMessage → Result DeliveryError (Unit {0})
  send_password_reset message =
      let recipient_email = mail.strip message.recipient_email in
      if str_eq recipient_email ""
      then err delivery_error
      else (elim (mail.send_email (record message { recipient_email = recipient_email })) [
        | accepted ↦ ok tt
        | client_error ↦ err delivery_error
        | unexpected ↦ err other_error
      ])

  -- `PasswordResetDeliveryCoordinator.deliver`
  unfoldable pub deliver : PasswordResetIssueResult → Result DeliveryError (Unit {0})
  unfolding build_link send_password_reset
  deliver issuance = elim (build_link issuance.raw_token) [
    | err e ↦ err e
    | ok reset_url ↦ send_password_reset (record {
      recipient_email = issuance.email;
      reset_url = reset_url;
      expires_at = issuance.expires_at;
    })
  ]

abbrev pub block_reason : Option BlockReason → String
block_reason none = "unknown"
block_reason (some ip) = "ip"
block_reason (some account) = "account"
block_reason (some ip_and_account) = "ip_and_account"

abbrev pub seconds_value : Option ℤ → DetailValue
seconds_value none = no_value
seconds_value (some seconds) = number_value seconds

-- `request.client.host if request.client is not None else "unknown"`
abbrev pub client_address : Option String → String
client_address none = "unknown"
client_address (some host) = host

-- The draws of a request: the readings of the clocks, the new id and the random token.
pub record ResetDraw : Type 0 where
  pub attempt_time : ℕ
  pub now : ℕ
  pub token_id : ℕ
  pub raw_token : String

abbrev pub throttled_event : String → PasswordResetThrottleDecision → SecurityEvent
throttled_event email decision = record {
  event = "auth.password_reset.throttled";
  outcome = blocked;
  level = warning;
  user_id = none;
  account_identifier = some email;
  reason = some (block_reason decision.blocked_by);
  details = ("retry_after_seconds", seconds_value decision.retry_after_seconds) ∷ [];
}

abbrev pub requested_event : String → SecurityEvent
requested_event email = record {
  event = "auth.password_reset.requested";
  outcome = success;
  level = info;
  user_id = none;
  account_identifier = some email;
  reason = none;
  details = [];
}

abbrev pub delivery_failed_event : ℕ → SecurityEvent
delivery_failed_event user_id = record {
  event = "auth.password_reset.delivery_failed";
  outcome = failure;
  level = error;
  user_id = some user_id;
  account_identifier = none;
  reason = some "delivery_provider_failure";
  details = [];
}

abbrev pub accepted_response : Response
accepted_response = respond 202 accepted_message []

abbrev pub throttled_response : PasswordResetThrottleDecision → Response
throttled_response decision = record (refused 429 password_reset_throttled) {
  retry_after = decision.retry_after_seconds;
}

-- The `try` around `deliver`, and what follows it.
abbrev pub after_delivery :
    String → ℕ → Result DeliveryError (Unit {0}) → Ending × List SecurityEvent
after_delivery email user_id (ok _) = (returns accepted_response, requested_event email ∷ [])
after_delivery email user_id (err delivery_error) =
    (raises_delivery_error, delivery_failed_event user_id ∷ [])
after_delivery email user_id (err other_error) = (raises_error, [])

module _ (mail : Mail) where
  -- What follows `request_reset`.
  unfoldable pub after_issue :
      String → Option PasswordResetIssueResult → Ending × List SecurityEvent
  after_issue email none = (returns accepted_response, requested_event email ∷ [])
  after_issue email (some issuance) = after_delivery email issuance.user_id (deliver mail issuance)

  module _ (text : TextRuntime) (c : Crypto) (digest_token : String → String) (token_ttl : ℕ) where
    -- The throttle is the process's, and keeps what it has recorded however the request ends.
    unfoldable pub request_password_reset :
        ResetDraw → Option String → String → ResetThrottle → ResetThrottle × Handler ResetDb
    unfolding after_issue
    request_password_reset draw client email throttle =
        let (decision, throttle') =
          check_and_record text draw.attempt_time (client_address client) email throttle in
        (
          throttle',
          λ db.
              if not decision.allowed
              then (
                raises_http (throttled_response decision),
                throttled_event email decision ∷ [],
                db,
              )
              else (let (issuance, db') =
                    request_reset c digest_token draw.now token_ttl draw.token_id draw.raw_token
                      email db in
                  let (ending, events) = after_issue email issuance in (ending, events, db')),
        )

abbrev pub confirmation_failed : String → SecurityEvent
confirmation_failed reason = record {
  event = "auth.password_reset.failed";
  outcome = failure;
  level = warning;
  user_id = none;
  account_identifier = none;
  reason = some reason;
  details = [];
}

module _ (settings : CookieSettings) where
  unfoldable pub after_confirmation :
      Result ResetError PasswordResetCompletionResult → Ending × List SecurityEvent
  unfolding clear_auth_cookies
  after_confirmation (err invalid_credential) = (
    raises_http (refused 400 password_reset_credential_invalid),
    confirmation_failed "invalid_or_expired_reset_credential" ∷ [],
  )
  after_confirmation (err password_rejected) = (
    raises_http (refused 400 password_reset_password_rejected),
    confirmation_failed "replacement_password_rejected" ∷ [],
  )
  after_confirmation (ok result) = (
    returns (respond 204 no_body (clear_auth_cookies settings)),
    (record {
      event = "auth.password_reset.completed";
      outcome = success;
      level = warning;
      user_id = some result.user_id;
      account_identifier = none;
      reason = none;
      details = ("sessions_revoked", number_value (pos result.revoked_sessions)) ∷ [];
    })
        ∷ [],
  )

  unfoldable pub confirm_password_reset :
      Crypto
      → (String → String)
      → ℕ
      → (token new_password replacement_hash : String) → Handler ResetDb
  unfolding after_confirmation
  confirm_password_reset c digest_token now token new_password replacement_hash db =
      let (result, db') = confirm_reset c digest_token now token new_password replacement_hash db in
      let (ending, events) = after_confirmation result in (ending, events, db')
