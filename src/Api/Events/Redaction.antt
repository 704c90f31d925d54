-- ===== src/Api/Events/Redaction.antt =====
-- backend/app/core/security_events.py: what an event becomes before it is logged. HMAC, `str.strip`,
-- `str.lower`, `str.isalnum` and the text of a UUID are parameters.
use Prim.Native.Char.{Char, code}
use Prim.Native.String.{◌++◌ as str_append}
use text.Mathlib.Text.{◌==◌ as str_eq, starts_with}
use opsflow.Prelude.{
  ℕ, Bool, false, ◌||◌, String, Option, none, some, List, [], ◌∷◌, ◌==◌, if◌then◌else◌,
}
use opsflow.Dict.{Dict, insert}
use opsflow.Execution.{first_characters}
use opsflow.Throttle.Keys.{TextRuntime, normalized}
use opsflow.Api.Events.{
  SecurityOutcome, Level, DetailValue, text_value, number_value, boolean_value, no_value,
  SecurityEvent,
}

abbrev pub redacted_detail_value : String
redacted_detail_value = "[REDACTED]"

abbrev pub sensitive_detail_key_markers : List String
sensitive_detail_key_markers =
    "password" ∷ "passwd" ∷ "token" ∷ "secret" ∷ "authorization" ∷ "cookie" ∷ "apikey"
    ∷ "privatekey" ∷ "signingkey" ∷ "hmackey" ∷ "bearer" ∷ "credential" ∷ []

abbrev pub space : Char
space = Char.char b' ' tt

abbrev pub is_control : Char → Bool
is_control ch = (code ch == 13) || ((code ch == 10) || (code ch == 9))

-- The three `replace` of `_clean_text`.
unfoldable pub without_controls : String → String
without_controls String.[] = String.[]
without_controls (String.◌∷◌ ch rest) =
    String.◌∷◌ (if is_control ch then space else ch) (without_controls rest)

unfoldable pub clean_text : String → String
unfolding without_controls
clean_text value = first_characters 256 (without_controls value)

unfoldable pub clean_value : DetailValue → DetailValue
unfolding clean_text
clean_value (text_value s) = text_value (clean_text s)
clean_value (number_value n) = number_value n
clean_value (boolean_value b) = boolean_value b
clean_value no_value = no_value

-- `marker in text`
unfoldable pub is_infix : String → String → Bool
is_infix marker String.[] = str_eq marker ""
is_infix marker (String.◌∷◌ ch rest) =
    starts_with (String.◌∷◌ ch rest) marker || is_infix marker rest

abbrev pub any_infix : List String → String → Bool
any_infix [] key = false
any_infix (marker ∷ markers) key = is_infix marker key || any_infix markers key

module _ (isalnum : Char → Bool) (lower : Char → String) where
  -- `_normalize_detail_key`
  unfoldable pub normalize_detail_key : String → String
  normalize_detail_key String.[] = ""
  normalize_detail_key (String.◌∷◌ ch rest) =
      let normalized = normalize_detail_key rest in
      if isalnum ch then str_append (lower ch) normalized else normalized

  -- `_is_sensitive_detail_key`
  unfoldable pub is_sensitive_detail_key : String → Bool
  unfolding normalize_detail_key is_infix
  is_sensitive_detail_key key =
      let normalized = normalize_detail_key key in
      if str_eq normalized "" then false else any_infix sensitive_detail_key_markers normalized

  -- The loop of `_sanitize_details`, with the details that are sanitized already.
  unfoldable pub sanitize_from : Dict DetailValue → List (String × DetailValue) → Dict DetailValue
  unfolding is_sensitive_detail_key clean_text clean_value
  sanitize_from sanitized [] = sanitized
  sanitize_from sanitized ((key, value) ∷ details) =
      let cleaned_key = clean_text key in
      let cleaned =
        if is_sensitive_detail_key cleaned_key
        then text_value redacted_detail_value
        else clean_value value in
      sanitize_from (insert cleaned_key cleaned sanitized) details

  unfoldable pub sanitize_details : List (String × DetailValue) → Dict DetailValue
  unfolding sanitize_from
  sanitize_details details = sanitize_from [] details

-- What is read of a request: the host of its client, its method and its path.
pub record RequestInfo : Type 0 where
  pub host : Option String
  pub method : String
  pub path : String

-- `_client_address`
abbrev pub client_address_of : RequestInfo → String
client_address_of request = elim request.host [ none ↦ "unknown" | some host ↦ host ]

-- What `emit` logs of an event.
pub record Logged : Type 0 where
  pub client_address : Option String
  pub http_method : Option String
  pub http_path : Option String
  pub event : String
  pub outcome : SecurityOutcome
  pub severity : Level
  pub user_id : Option String
  pub account_fingerprint : Option String
  pub reason : Option String
  pub details : Dict DetailValue

-- The parameters of the logger: `hmac_sha256` under the configured key, and Python's texts.
pub record Logger : Type 0 where
  pub python : TextRuntime
  pub hmac_key : String
  pub uuid_text : ℕ → String
  pub isalnum : Char → Bool
  pub lower : Char → String

unfoldable pub account_fingerprint : Logger → String → String
account_fingerprint logger account_identifier =
    logger.python.hmac_sha256 logger.hmac_key
      (str_append "account:" (normalized logger.python account_identifier))

-- The payload of `emit`, without its id and time. An error while it is made or logged is
-- caught, and nothing is logged.
unfoldable pub emit : Logger → Option RequestInfo → SecurityEvent → Logged
unfolding clean_text account_fingerprint sanitize_details
emit logger request e = record {
  client_address = elim request [ none ↦ none | some r ↦ some (client_address_of r) ];
  http_method = elim request [ none ↦ none | some r ↦ some (clean_text r.method) ];
  http_path = elim request [ none ↦ none | some r ↦ some (clean_text r.path) ];
  event = clean_text e.event;
  outcome = e.outcome;
  severity = e.level;
  user_id = elim e.user_id [ none ↦ none | some id ↦ some (clean_text (logger.uuid_text id)) ];
  account_fingerprint = elim e.account_identifier [
    | none ↦ none
    | some account_identifier ↦ some (account_fingerprint logger account_identifier)
  ];
  reason = elim e.reason [ none ↦ none | some reason ↦ some (clean_text reason) ];
  details = sanitize_details logger.isalnum logger.lower e.details;
}
