-- ===== src/ServiceIdentity/Verifier.antt =====
-- backend/app/core/service_token_verifier.py and incident-service/app/core/service_identity.py: class
-- JwtServiceTokenVerifier, and the scope checks of the two api/dependencies.py. The clock's reading is
-- an argument.
use text.Mathlib.Text.{◌==◌ as str_eq}
use opsflow.Prelude.{
  ℕ, ◌+◌, Bool, true, false, not, ◌&&◌, ◌||◌, String, Option, none, some, List, [], ◌∷◌, Result, ok,
  err, leb, ltb, ◌==◌, length,
}
use opsflow.Dict.{Dict, lookup, insert}
use opsflow.ServiceIdentity.{
  ServiceScope, scope_of, has_scope, ServicePrincipal, Claim, missing, other, str, number, Payload,
  Decoded, invalid_signature_error, invalid_issuer_error, invalid_audience_error, other_error,
  payload, Runtime, IdentityError, configuration_error, configuration_text, ◌>>=◌, ◌>>◌, guard,
  seconds, minimum_service_token_ttl_seconds, maximum_service_token_ttl_seconds,
}
use opsflow.ServiceIdentity.Provider.{rsa_key}

-- `ServiceAuthenticationFailureReason`
pub data FailureReason : Type 0 where
  malformed_credential invalid_algorithm invalid_token_type missing_key_id unknown_key :
      FailureReason
  invalid_signature invalid_issuer invalid_audience invalid_claim_contract invalid_token_use :
      FailureReason
  invalid_lifetime invalid_scope_contract : FailureReason

pub record Verifier : Type 0 where
  pub public_keys : Dict ℕ
  pub expected_issuer : String
  pub expected_audience : String
  pub clock_skew_seconds : ℕ

abbrev pub maximum_clock_skew_seconds : ℕ
maximum_clock_skew_seconds = 30

abbrev pub maximum_verification_keys : ℕ
maximum_verification_keys = 2

abbrev pub text_claim {κ} : {E : Type κ} → Claim → E → Result E String
text_claim (str text) e = ok text
text_claim missing e = err e
text_claim other e = err e
text_claim (number _) e = err e

abbrev pub given {ℓ κ} : {E : Type κ} {A : Type ℓ} → Option A → E → Result E A
given none e = err e
given (some a) e = ok a

abbrev pub is_text : String → Claim → Bool
is_text text (str other_text) = str_eq other_text text
is_text text missing = false
is_text text other = false
is_text text (number _) = false

abbrev pub decoded_payload : Decoded → Result FailureReason Payload
decoded_payload invalid_signature_error = err invalid_signature
decoded_payload invalid_issuer_error = err invalid_issuer
decoded_payload invalid_audience_error = err invalid_audience
decoded_payload other_error = err invalid_claim_contract
decoded_payload (payload claims) = ok claims

abbrev pub mentions : String → List String → Bool
mentions name [] = false
mentions name (first ∷ names) = str_eq first name || mentions name names

abbrev pub are_distinct : List String → Bool
are_distinct [] = true
are_distinct (name ∷ names) = not (mentions name names) && are_distinct names

abbrev pub are_none : List String → Bool
are_none [] = true
are_none (_ ∷ _) = false

unfoldable pub scopes_of : List String → Option (List ServiceScope)
unfolding scope_of
scopes_of [] = some []
scopes_of (name ∷ names) = elim (scope_of name) [
  | none ↦ none
  | some scope ↦ (elim (scopes_of names) [ none ↦ none | some scopes ↦ some (scope ∷ scopes) ])
]

module _ (py : Runtime) where
  -- The loop of `__init__` over the keys.
  unfoldable pub load_keys : List (String × String) → Dict ℕ → Result IdentityError (Dict ℕ)
  unfolding configuration_text insert
  load_keys [] loaded = ok loaded
  load_keys ((key_id, pem) ∷ keys) loaded = configuration_text py key_id >>= λ normalized_key_id.
      rsa_key (py.load_public_key pem) >>= λ key.
      load_keys keys (insert normalized_key_id key loaded)

  -- `__init__`
  unfoldable pub new_verifier :
      List (String × String)
      → (expected_issuer expected_audience : String) → (clock_skew_seconds : ℕ)
      → Result IdentityError Verifier
  unfolding configuration_text load_keys
  new_verifier public_keys expected_issuer expected_audience clock_skew_seconds = do
    issuer ← configuration_text py expected_issuer
    audience ← configuration_text py expected_audience
    guard (leb clock_skew_seconds maximum_clock_skew_seconds) configuration_error
    guard (ltb 0 (length public_keys)) configuration_error
    guard (leb (length public_keys) maximum_verification_keys) configuration_error
    loaded_keys ← load_keys public_keys []
    ok (record {
      public_keys = loaded_keys;
      expected_issuer = issuer;
      expected_audience = audience;
      clock_skew_seconds = clock_skew_seconds;
    })

  -- `_numeric_date`
  unfoldable pub numeric_date : Claim → Result FailureReason ℕ
  numeric_date missing = err invalid_claim_contract
  numeric_date other = err invalid_claim_contract
  numeric_date (str _) = err invalid_claim_contract
  numeric_date (number value) = given (py.from_timestamp value) invalid_claim_contract

  -- `_scopes`
  unfoldable pub token_scopes : Claim → Result FailureReason (List ServiceScope)
  unfolding scopes_of
  token_scopes claim = do
    text ← text_claim claim invalid_scope_contract
    guard (not (are_none (py.split text)) && are_distinct (py.split text)) invalid_scope_contract
    given (scopes_of (py.split text)) invalid_scope_contract

  -- `_principal_from_payload`
  unfoldable pub principal_from_payload :
      Verifier → ℕ → Payload → Result FailureReason ServicePrincipal
  unfolding numeric_date token_scopes
  principal_from_payload verifier now claims = do
    issuer ← text_claim claims.iss invalid_claim_contract
    subject ← text_claim claims.sub invalid_claim_contract
    audience ← text_claim claims.aud invalid_claim_contract
    guard
        (str_eq issuer verifier.expected_issuer
          && (str_eq subject verifier.expected_issuer
              && str_eq audience verifier.expected_audience))
        invalid_claim_contract
    guard (is_text "service" claims.token_use) invalid_token_use
    token_id_value ← text_claim claims.jti invalid_claim_contract
    token_id ← given (py.uuid token_id_value) invalid_claim_contract
    issued_at ← numeric_date claims.iat
    not_before ← numeric_date claims.nbf
    expires_at ← numeric_date claims.exp
    guard (not_before == issued_at) invalid_lifetime
    guard
        (leb (issued_at + seconds minimum_service_token_ttl_seconds) expires_at
          && leb expires_at (issued_at + seconds maximum_service_token_ttl_seconds))
        invalid_lifetime
    guard
        (not (
          ltb (now + seconds verifier.clock_skew_seconds) issued_at
          || (ltb (now + seconds verifier.clock_skew_seconds) not_before
              || leb (expires_at + seconds verifier.clock_skew_seconds) now)))
        invalid_lifetime
    scopes ← token_scopes claims.scope
    ok (record {
      issuer = issuer;
      subject = subject;
      audience = audience;
      token_id = token_id;
      issued_at = issued_at;
      not_before = not_before;
      expires_at = expires_at;
      scopes = scopes;
    })

  -- `verify_token`
  unfoldable pub verify_token : Verifier → ℕ → String → Result FailureReason ServicePrincipal
  unfolding principal_from_payload lookup
  verify_token verifier now token = do
    guard (not (str_eq (py.strip token) "")) malformed_credential
    header ← given (py.unverified_header token) malformed_credential
    guard (is_text "RS256" header.alg) invalid_algorithm
    guard (is_text "JWT" header.typ) invalid_token_type
    key_id ← text_claim header.kid missing_key_id
    guard (not (str_eq key_id "")) missing_key_id
    public_key ← given (lookup key_id verifier.public_keys) unknown_key
    claims ←
        decoded_payload
          (py.decode public_key verifier.expected_audience verifier.expected_issuer token)
    principal_from_payload verifier now claims

  -- The verifier of the Core Backend, of the same code.
  unfoldable pub verify_backend_token :
      Verifier → ℕ → String → Result FailureReason ServicePrincipal
  unfolding verify_token
  verify_backend_token verifier now token = verify_token verifier now token

-- `require_service_scope` of incident-service/app/api/dependencies.py; `false` is the response 403.
unfoldable pub require_service_scope : ServiceScope → ServicePrincipal → Bool
require_service_scope required_scope principal = has_scope required_scope principal.scopes
