-- ===== src/ServiceIdentity.antt =====
-- Service tokens between the Core Backend and the Incident Service. Both services have a provider and
-- a verifier with the same code: backend/app/core/service_identity.py and service_token_verifier.py,
-- incident-service/app/core/service_token_provider.py and service_identity.py. A datetime is a number
-- of microseconds, a duration of the settings a number of seconds.
pub mod Provider
pub mod Verifier
pub mod Accepted
pub mod Roundtrip
use text.Mathlib.Text.{◌==◌ as str_eq}
use opsflow.Prelude.{
  ℕ, ◌*◌, Bool, true, false, not, ◌&&◌, ◌||◌, String, Option, none, some, List, [], ◌∷◌, Result, ok,
  err, if◌then◌else◌,
}

pub data ServiceScope : Type 0 where
  incidents_read incidents_write services_read : ServiceScope

abbrev pub scope_value : ServiceScope → String
scope_value incidents_read = "incidents:read"
scope_value incidents_write = "incidents:write"
scope_value services_read = "services:read"

-- `ServiceScope(name)`
unfoldable pub scope_of : String → Option ServiceScope
scope_of name =
    if str_eq name "incidents:read"
    then some incidents_read
    else (if str_eq name "incidents:write"
        then some incidents_write
        else (if str_eq name "services:read" then some services_read else none))

abbrev pub same_scope : ServiceScope → ServiceScope → Bool
same_scope incidents_read incidents_read = true
same_scope incidents_write incidents_write = true
same_scope services_read services_read = true
same_scope incidents_read incidents_write = false
same_scope incidents_read services_read = false
same_scope incidents_write incidents_read = false
same_scope incidents_write services_read = false
same_scope services_read incidents_read = false
same_scope services_read incidents_write = false

abbrev pub has_scope : ServiceScope → List ServiceScope → Bool
has_scope scope [] = false
has_scope scope (other ∷ others) = same_scope other scope || has_scope scope others

pub record ServicePrincipal : Type 0 where
  pub issuer : String
  pub subject : String
  pub audience : String
  pub token_id : ℕ
  pub issued_at : ℕ
  pub not_before : ℕ
  pub expires_at : ℕ
  pub scopes : List ServiceScope

-- A claim of a decoded token, or a field of its header; a number is read by `from_timestamp`.
pub data Claim : Type 0 where
  missing other : Claim
  str : String → Claim
  number : ℕ → Claim

pub record Header : Type 0 where
  pub alg : Claim
  pub typ : Claim
  pub kid : Claim

pub record Payload : Type 0 where
  pub iss : Claim
  pub sub : Claim
  pub aud : Claim
  pub jti : Claim
  pub token_use : Claim
  pub scope : Claim
  pub iat : Claim
  pub nbf : Claim
  pub exp : Claim

-- What the provider signs, with the algorithm and the fields of the header.
pub record ServiceClaims : Type 0 where
  pub iss : String
  pub sub : String
  pub aud : String
  pub iat : ℕ
  pub nbf : ℕ
  pub exp : ℕ
  pub jti : String
  pub token_use : String
  pub scope : String
  pub algorithm : String
  pub typ : String
  pub kid : String

-- `jwt.decode` with the checks of the signature, of the issuer and of the audience.
pub data Decoded : Type 0 where
  invalid_signature_error invalid_issuer_error invalid_audience_error other_error : Decoded
  payload : Payload → Decoded

-- A PEM key as it is loaded: an RSA key is a number that is only compared, with its size in bits.
pub data LoadedKey : Type 0 where
  unreadable not_rsa : LoadedKey
  rsa : (key key_size : ℕ) → LoadedKey

-- PyJWT, the loading of keys, and Python's text and UUID functions.
pub record Runtime : Type 0 where
  pub strip : String → String
  pub split : String → List String
  pub join : List String → String
  pub uuid : String → Option ℕ
  pub uuid_text : ℕ → String
  pub from_timestamp : ℕ → Option ℕ
  pub load_public_key : String → LoadedKey
  pub load_private_key : String → LoadedKey
  pub unverified_header : String → Option Header
  -- with the key, the audience and the issuer
  pub decode : ℕ → String → String → String → Decoded
  -- with the key; `none` is an error
  pub encode : ℕ → ServiceClaims → Option String

-- `ServiceIdentityConfigurationError` and `ServiceTokenCreationError`
pub data IdentityError : Type 0 where
  configuration_error creation_error : IdentityError

-- `_require_non_empty_text`, `_configuration_text` and `_required_text`
unfoldable pub configuration_text : Runtime → String → Result IdentityError String
configuration_text py value =
    let normalized_value = py.strip value in
    if str_eq normalized_value "" then err configuration_error else ok normalized_value

infixl 5 ◌>>=◌ ◌>>◌
abbrev pub ◌>>=◌ {ℓ κ μ} :
    {E : Type μ} {A : Type ℓ} {B : Type κ} → Result E A → (A → Result E B) → Result E B
ok a >>= f = f a
err e >>= f = err e

abbrev pub ◌>>◌ {ℓ μ} : {E : Type μ} {B : Type ℓ} → Result E (Unit {0}) → Result E B → Result E B
m >> k = m >>= λ _. k

abbrev pub guard {μ} : {E : Type μ} → Bool → E → Result E (Unit {0})
guard true e = ok tt
guard false e = err e

abbrev pub seconds : ℕ → ℕ
seconds n = n * 1000000

abbrev pub minimum_service_token_ttl_seconds : ℕ
minimum_service_token_ttl_seconds = 30

abbrev pub maximum_service_token_ttl_seconds : ℕ
maximum_service_token_ttl_seconds = 120

abbrev pub minimum_rsa_key_size : ℕ
minimum_rsa_key_size = 2048
