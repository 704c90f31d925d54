-- ===== src/Examples/IdentityRuns.antt =====
-- Runs of the theorems about service tokens, with a runtime that knows one token.
use opsflow.Prelude.{ℕ, ◌*◌, ◌≡◌, refl, String, some, [], ◌∷◌, ok, map, arith}
use opsflow.Dict.{lookup}
use opsflow.ServiceIdentity.{
  ServiceScope, incidents_read, has_scope, scope_value, ServicePrincipal, str, number, Header,
  Payload, payload, rsa, Runtime,
}
use opsflow.ServiceIdentity.Provider.{
  Provider, new_provider, create_token, normalized_scopes, service_claims,
}
use opsflow.ServiceIdentity.Verifier.{Verifier, new_verifier, verify_token, require_service_scope}
use opsflow.ServiceIdentity.Accepted.{IsAccepted, verify_token-IsAccepted}
use opsflow.ServiceIdentity.Roundtrip.{Signed, verify_token-create_token}

abbrev signed_header : Header
signed_header = record { alg = str "RS256"; typ = str "JWT"; kid = str "key-1" }

abbrev signed_payload : Payload
signed_payload = record {
  iss = str "core-backend";
  sub = str "core-backend";
  aud = str "incident-service";
  jti = str "9";
  token_use = str "service";
  scope = str "incidents:read";
  iat = number 1000;
  nbf = number 1000;
  exp = number 1060;
}

abbrev runtime : Runtime
runtime = record {
  strip = λ s. s;
  split = λ s. "incidents:read" ∷ [];
  join = λ names. "incidents:read";
  uuid = λ s. some 9;
  uuid_text = λ n. "9";
  from_timestamp = λ n. some (n * 1000000);
  load_public_key = λ pem. rsa 7 2048;
  load_private_key = λ pem. rsa 8 4096;
  unverified_header = λ token. some signed_header;
  decode = λ key audience issuer token. payload signed_payload;
  encode = λ key claims. some "signed";
}

abbrev provider : Provider
provider = record { key_id = "key-1"; issuer = "core-backend"; private_key = 8; ttl_seconds = 60 }

abbrev verifier : Verifier
verifier = record {
  public_keys = ("key-1", 7) ∷ [];
  expected_issuer = "core-backend";
  expected_audience = "incident-service";
  clock_skew_seconds = 5;
}

made_provider : new_provider runtime "pem" "key-1" "core-backend" 60 ≡ ok provider
unfolding new_provider
made_provider = refl

made_verifier :
    new_verifier runtime (("key-1", "pem") ∷ []) "core-backend" "incident-service" 5 ≡ ok verifier
unfolding new_verifier
made_verifier = refl

-- Issued in the middle of a second.
abbrev issue_time : ℕ
issue_time = 1000500000

issued_token :
    create_token runtime provider issue_time 9 "incident-service"
      (incidents_read ∷ incidents_read ∷ [])
    ≡ ok "signed"
unfolding create_token
issued_token = refl

token-Signed :
    Signed runtime 7
      (service_claims runtime provider issue_time 9 "incident-service"
        (normalized_scopes (incidents_read ∷ incidents_read ∷ [])))
      "signed"
token-Signed = record {
  not_blank = refl;
  headed = refl;
  decodes = refl;
  issued = refl;
  started = refl;
  expires = refl;
}

asked_scopes :
    runtime.split
      (runtime.join (map scope_value (normalized_scopes (incidents_read ∷ incidents_read ∷ []))))
    ≡ map scope_value (normalized_scopes (incidents_read ∷ incidents_read ∷ []))
unfolding normalized_scopes
asked_scopes = refl

known_key : lookup "key-1" verifier.public_keys ≡ some 7
unfolding lookup
known_key = refl

verify_token-create_token_example :
    (p : ServicePrincipal) × (verify_token runtime verifier 1063000000 "signed" ≡ ok p)
    × (p.issuer ≡ "core-backend")
    × (p.token_id ≡ 9)
    × ((scope : ServiceScope)
        → require_service_scope scope p ≡ has_scope scope (incidents_read ∷ incidents_read ∷ []))
verify_token-create_token_example =
    verify_token-create_token runtime "pem" "key-1" "core-backend" "incident-service" "signed" 60
      provider verifier issue_time 1063000000 9 7 (incidents_read ∷ incidents_read ∷ [])
      made_provider issued_token token-Signed refl asked_scopes known_key refl refl (omega arith)
      (omega arith)

abbrev principal : ServicePrincipal
principal = record {
  issuer = "core-backend";
  subject = "core-backend";
  audience = "incident-service";
  token_id = 9;
  issued_at = 1000000000;
  not_before = 1000000000;
  expires_at = 1060000000;
  scopes = incidents_read ∷ [];
}

verified_token : verify_token runtime verifier 1064999999 "signed" ≡ ok principal
unfolding verify_token
verified_token = refl

verify_token-IsAccepted_example :
    (header : Header) × (key_id : String) × (public_key : ℕ) × (claims : Payload)
    × (runtime.unverified_header "signed" ≡ some header)
    × (header.kid ≡ str key_id)
    × (lookup key_id verifier.public_keys ≡ some public_key)
    × (runtime.decode public_key verifier.expected_audience verifier.expected_issuer "signed"
        ≡ payload claims)
    × IsAccepted verifier 1064999999 principal
verify_token-IsAccepted_example =
    verify_token-IsAccepted runtime verifier 1064999999 "signed" principal verified_token
