-- ===== src/ServiceIdentity/Provider.antt =====
-- backend/app/core/service_identity.py and incident-service/app/core/service_token_provider.py: class
-- JwtServiceTokenProvider. The clock's reading and the new token id are arguments.
use opsflow.Prelude.{
  ℕ, ◌+◌, Bool, true, false, not, ◌&&◌, String, Option, none, some, List, [], ◌∷◌, ◌++◌, Result, ok,
  err, leb, map, if◌then◌else◌,
}
use opsflow.ServiceIdentity.{
  ServiceScope, incidents_read, incidents_write, services_read, scope_value, has_scope,
  ServiceClaims, LoadedKey, unreadable, not_rsa, rsa, Runtime, IdentityError, configuration_error,
  creation_error, configuration_text, ◌>>=◌, ◌>>◌, guard, seconds,
  minimum_service_token_ttl_seconds, maximum_service_token_ttl_seconds, minimum_rsa_key_size,
}

pub record Provider : Type 0 where
  pub key_id : String
  pub issuer : String
  pub private_key : ℕ
  pub ttl_seconds : ℕ

-- The check of a key that is loaded, of a provider and of a verifier.
abbrev pub rsa_key : LoadedKey → Result IdentityError ℕ
rsa_key unreadable = err configuration_error
rsa_key not_rsa = err configuration_error
rsa_key (rsa key key_size) =
    if leb minimum_rsa_key_size key_size then ok key else err configuration_error

abbrev pub if_given : ServiceScope → List ServiceScope → List ServiceScope
if_given scope scopes = if has_scope scope scopes then scope ∷ [] else []

-- The set of the scopes, in the order of their sorted values.
unfoldable pub normalized_scopes : List ServiceScope → List ServiceScope
normalized_scopes scopes =
    if_given incidents_read scopes
    ++ (if_given incidents_write scopes ++ if_given services_read scopes)

abbrev pub is_empty : List ServiceScope → Bool
is_empty [] = true
is_empty (_ ∷ _) = false

module _ (py : Runtime) where
  -- `__init__`
  unfoldable pub new_provider :
      (private_key_pem key_id issuer : String) → (ttl_seconds : ℕ) → Result IdentityError Provider
  unfolding configuration_text
  new_provider private_key_pem key_id issuer ttl_seconds = do
    normalized_key_id ← configuration_text py key_id
    normalized_issuer ← configuration_text py issuer
    guard
        (leb minimum_service_token_ttl_seconds ttl_seconds
          && leb ttl_seconds maximum_service_token_ttl_seconds)
        configuration_error
    private_key ← rsa_key (py.load_private_key private_key_pem)
    ok (record {
      key_id = normalized_key_id;
      issuer = normalized_issuer;
      private_key = private_key;
      ttl_seconds = ttl_seconds;
    })

  abbrev pub service_claims :
      Provider → (issued_at token_id : ℕ) → String → List ServiceScope → ServiceClaims
  service_claims provider issued_at token_id audience scopes = record {
    iss = provider.issuer;
    sub = provider.issuer;
    aud = audience;
    iat = issued_at;
    nbf = issued_at;
    exp = issued_at + seconds provider.ttl_seconds;
    jti = py.uuid_text token_id;
    token_use = "service";
    scope = py.join (map scope_value scopes);
    algorithm = "RS256";
    typ = "JWT";
    kid = provider.key_id;
  }

  abbrev pub created : Option String → Result IdentityError String
  created none = err creation_error
  created (some token) = ok token

  -- `create_token`
  unfoldable pub create_token :
      Provider → (issued_at token_id : ℕ) → String → List ServiceScope → Result IdentityError String
  unfolding configuration_text normalized_scopes
  create_token provider issued_at token_id audience scopes = do
    normalized_audience ← configuration_text py audience
    guard (not (is_empty (normalized_scopes scopes))) creation_error
    created (
        py.encode provider.private_key (
          service_claims provider issued_at token_id normalized_audience
            (normalized_scopes scopes)))

  -- The provider of the Incident Service, of the same code.
  unfoldable pub create_incident_service_token :
      Provider → (issued_at token_id : ℕ) → String → List ServiceScope → Result IdentityError String
  unfolding create_token
  create_incident_service_token provider issued_at token_id audience scopes =
      create_token provider issued_at token_id audience scopes
