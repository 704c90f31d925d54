-- ===== src/ServiceIdentity/Roundtrip.antt =====
-- A token of a provider at the verifier of the other service.
use text.Mathlib.Text.{◌==◌ as str_eq}
use text.Mathlib.TextEquality.{eq_iff}
use opsflow.Prelude.{
  ℕ, ◌+◌, ◌*◌, ◌/◌, ◌≤◌, ◌≡◌, refl, sym, ◌∙◌, Bool, true, false, ◌&&◌, String, some, List, [], ◌∷◌,
  ◌++◌, ok, leb, ltb, ==_refl, map, arith, if◌then◌else◌,
}
use opsflow.Dict.{lookup}
use opsflow.ServiceIdentity.{
  ServiceScope, incidents_read, incidents_write, services_read, scope_value, has_scope,
  ServicePrincipal, str, number, payload, ServiceClaims, Runtime, LoadedKey, unreadable, not_rsa,
  rsa, seconds, configuration_text,
}
use opsflow.ServiceIdentity.Provider.{
  Provider, new_provider, normalized_scopes, is_empty, service_claims, create_token,
}
use opsflow.ServiceIdentity.Verifier.{
  Verifier, numeric_date, token_scopes, scopes_of, are_distinct, are_none, principal_from_payload,
  verify_token, require_service_scope,
}

-- What PyJWT and Python do with one token: the claims come back as they were signed, a time as its
-- whole seconds, under the public key, audience and issuer.
pub record Signed (py : Runtime) (public_key : ℕ) (claims : ServiceClaims) (token : String)
    : Type 0 where
  pub not_blank : str_eq (py.strip token) "" ≡ false
  pub headed :
      py.unverified_header token
      ≡ some (record { alg = str claims.algorithm; typ = str claims.typ; kid = str claims.kid })
  pub decodes :
      py.decode public_key claims.aud claims.iss token
      ≡ payload (record {
        iss = str claims.iss;
        sub = str claims.sub;
        aud = str claims.aud;
        jti = str claims.jti;
        token_use = str claims.token_use;
        scope = str claims.scope;
        iat = number (claims.iat / 1000000);
        nbf = number (claims.nbf / 1000000);
        exp = number (claims.exp / 1000000);
      })
  pub issued : py.from_timestamp (claims.iat / 1000000) ≡ some (seconds (claims.iat / 1000000))
  pub started : py.from_timestamp (claims.nbf / 1000000) ≡ some (seconds (claims.nbf / 1000000))
  pub expires : py.from_timestamp (claims.exp / 1000000) ≡ some (seconds (claims.exp / 1000000))

str_eq_refl : (s : String) → str_eq s s ≡ true
str_eq_refl s = (eq_iff s s).1 refl

-- The scopes that a verifier reads are those that were asked for.
has_scope-normalized_scopes :
    (scope : ServiceScope) (scopes : List ServiceScope)
    → has_scope scope (normalized_scopes scopes) ≡ has_scope scope scopes
unfolding normalized_scopes
has_scope-normalized_scopes incidents_read scopes = ground arith
has_scope-normalized_scopes incidents_write scopes = ground arith
has_scope-normalized_scopes services_read scopes = ground arith

scopes_of-scope_value :
    (scopes : List ServiceScope) → scopes_of (map scope_value scopes) ≡ some scopes
unfolding scopes_of
scopes_of-scope_value [] = refl
scopes_of-scope_value (incidents_read ∷ scopes) = rw (scopes_of-scope_value scopes) refl
scopes_of-scope_value (incidents_write ∷ scopes) = rw (scopes_of-scope_value scopes) refl
scopes_of-scope_value (services_read ∷ scopes) = rw (scopes_of-scope_value scopes) refl

normalized_distinct :
    (scopes : List ServiceScope) → are_distinct (map scope_value (normalized_scopes scopes)) ≡ true
unfolding normalized_scopes
normalized_distinct scopes =
    by_given (has_scope incidents_read scopes) (has_scope incidents_write scopes)
      (has_scope services_read scopes)
  where
    by_given :
        (a b c : Bool)
        → are_distinct (
            map scope_value (
              (if a then incidents_read ∷ [] else [])
              ++ ((if b then incidents_write ∷ [] else [])
                  ++ (if c then services_read ∷ [] else []))))
          ≡ true
    by_given true true true = refl
    by_given true true false = refl
    by_given true false true = refl
    by_given true false false = refl
    by_given false true true = refl
    by_given false true false = refl
    by_given false false true = refl
    by_given false false false = refl

none_names : (scopes : List ServiceScope) → are_none (map scope_value scopes) ≡ is_empty scopes
none_names [] = refl
none_names (_ ∷ _) = refl

module _ (py : Runtime) where
  token_scopes_lem :
      (scopes : List ServiceScope)
      → is_empty scopes ≡ false
      → are_distinct (map scope_value scopes) ≡ true
      → py.split (py.join (map scope_value scopes)) ≡ map scope_value scopes
      → token_scopes py (str (py.join (map scope_value scopes))) ≡ ok scopes
  unfolding token_scopes
  token_scopes_lem scopes some_scope distinct split =
      let some_name = none_names scopes ∙ some_scope in
      rw (split, some_name, distinct, scopes_of-scope_value scopes) refl

  -- A payload that passes every check.
  principal_lem :
      (verifier : Verifier) (now issued expires : ℕ) (n m : ℕ) (jti : String) (token_id : ℕ)
      (scope : String) (scopes : List ServiceScope)
      → py.uuid jti ≡ some token_id
      → py.from_timestamp n ≡ some issued
      → py.from_timestamp m ≡ some expires
      → token_scopes py (str scope) ≡ ok scopes
      → (leb (issued + seconds 30) expires && leb expires (issued + seconds 120)) ≡ true
      → (ltb (now + seconds verifier.clock_skew_seconds) issued) ≡ false
      → (leb (expires + seconds verifier.clock_skew_seconds) now) ≡ false
      → principal_from_payload py verifier now (record {
        iss = str verifier.expected_issuer;
        sub = str verifier.expected_issuer;
        aud = str verifier.expected_audience;
        jti = str jti;
        token_use = str "service";
        scope = str scope;
        iat = number n;
        nbf = number n;
        exp = number m;
      })
        ≡ ok (record {
          issuer = verifier.expected_issuer;
          subject = verifier.expected_issuer;
          audience = verifier.expected_audience;
          token_id = token_id;
          issued_at = issued;
          not_before = issued;
          expires_at = expires;
          scopes = scopes;
        })
  unfolding principal_from_payload numeric_date
  principal_lem verifier now issued expires n m jti token_id scope scopes id_read issued_read
        expires_read scopes_read lifetime started live =
      rw
        (
          str_eq_refl verifier.expected_issuer,
          str_eq_refl verifier.expected_audience,
          id_read,
          issued_read,
          expires_read,
          ==_refl issued,
          lifetime,
          started,
          live,
          scopes_read,
        )
        refl

  new_provider-inversion :
      (pem key_id issuer : String) (ttl_seconds : ℕ) (provider : Provider)
      → new_provider py pem key_id issuer ttl_seconds ≡ ok provider
      → (30 ≤ provider.ttl_seconds)
        × (provider.ttl_seconds ≤ 120)
        × (str_eq provider.key_id "" ≡ false)
  unfolding new_provider configuration_text
  new_provider-inversion pem key_id issuer ttl_seconds provider h =
      by_key (py.load_private_key pem) refl
    where
      by_key :
          (loaded : LoadedKey)
          → py.load_private_key pem ≡ loaded
          → (30 ≤ provider.ttl_seconds)
            × (provider.ttl_seconds ≤ 120)
            × (str_eq provider.key_id "" ≡ false)
      by_key unreadable e = absurd (ground arith)
      by_key not_rsa e = absurd (ground arith)
      by_key (rsa key key_size) e = (ground arith, ground arith, ground arith)

  create_token-inversion :
      (provider : Provider) (issued_at token_id : ℕ) (audience token : String)
      (scopes : List ServiceScope)
      → create_token py provider issued_at token_id audience scopes ≡ ok token
      → is_empty (normalized_scopes scopes) ≡ false
  unfolding create_token configuration_text
  create_token-inversion provider issued_at token_id audience token scopes h = ground arith

  -- The checks of the times, of a token as it is decoded.
  lifetime_holds :
      (issued_at ttl_seconds now skew : ℕ)
      → 30 ≤ ttl_seconds
      → ttl_seconds ≤ 120
      → issued_at ≤ now + seconds skew
      → now + seconds 1 ≤ issued_at + seconds ttl_seconds + seconds skew
      → ((leb
              (seconds (issued_at / 1000000) + seconds 30)
              (seconds ((issued_at + seconds ttl_seconds) / 1000000))
            && leb
                (seconds ((issued_at + seconds ttl_seconds) / 1000000))
                (seconds (issued_at / 1000000) + seconds 120))
          ≡ true)
        × (ltb (now + seconds skew) (seconds (issued_at / 1000000)) ≡ false)
        × (leb (seconds ((issued_at + seconds ttl_seconds) / 1000000) + seconds skew) now ≡ false)
  lifetime_holds issued_at ttl_seconds now skew least most started live =
      let whole : (issued_at + ttl_seconds * 1000000) / 1000000
          ≡ issued_at / 1000000 + ttl_seconds =
        omega arith in
      rw whole (ground arith, ground arith, ground arith)

  -- A token that one service's provider creates is accepted by the other service's verifier where that
  -- knows the provider's key, issuer and the audience, from its issue on until one second before its
  -- lifetime ends, with the clock skew allowed on both sides. The principal names the issuer and the
  -- token's id, and has exactly the scopes that were asked for.
  pub verify_token-create_token :
      (pem key_id issuer audience token : String) (ttl_seconds : ℕ) (provider : Provider)
      (verifier : Verifier) (issued_at now token_id public_key : ℕ) (scopes : List ServiceScope)
      → new_provider py pem key_id issuer ttl_seconds ≡ ok provider
      → create_token py provider issued_at token_id audience scopes ≡ ok token
      → Signed py public_key
          (service_claims py provider issued_at token_id
            (py.strip audience)
            (normalized_scopes scopes))
          token
      → py.uuid (py.uuid_text token_id) ≡ some token_id
      → py.split (py.join (map scope_value (normalized_scopes scopes)))
        ≡ map scope_value (normalized_scopes scopes)
      → lookup provider.key_id verifier.public_keys ≡ some public_key
      → provider.issuer ≡ verifier.expected_issuer
      → py.strip audience ≡ verifier.expected_audience
      → issued_at ≤ now + seconds verifier.clock_skew_seconds
      → now + seconds 1
        ≤ issued_at + seconds provider.ttl_seconds + seconds verifier.clock_skew_seconds
      → (p : ServicePrincipal) × (verify_token py verifier now token ≡ ok p)
        × (p.issuer ≡ provider.issuer)
        × (p.token_id ≡ token_id)
        × ((scope : ServiceScope) → require_service_scope scope p ≡ has_scope scope scopes)
  unfolding verify_token require_service_scope
  verify_token-create_token pem key_id issuer audience token ttl_seconds provider verifier issued_at
        now token_id public_key scopes made issued signed id_read split known same_issuer
        same_audience started live =
      let (least, most, named) =
        new_provider-inversion pem key_id issuer ttl_seconds provider made in
      let some_scope =
        create_token-inversion provider issued_at token_id audience token scopes issued in
      let (lifetime, after, before) =
        lifetime_holds issued_at provider.ttl_seconds now verifier.clock_skew_seconds least most
          started live in
      let read =
        token_scopes_lem (normalized_scopes scopes) some_scope (normalized_distinct scopes) split in
      let passed =
        principal_lem verifier now (seconds (issued_at / 1000000))
          (seconds ((issued_at + seconds provider.ttl_seconds) / 1000000)) (issued_at / 1000000)
          ((issued_at + seconds provider.ttl_seconds) / 1000000) (py.uuid_text token_id) token_id
          (py.join (map scope_value (normalized_scopes scopes))) (normalized_scopes scopes) id_read
          signed.issued signed.expires read lifetime after before in
      (
        record {
          issuer = verifier.expected_issuer;
          subject = verifier.expected_issuer;
          audience = verifier.expected_audience;
          token_id = token_id;
          issued_at = seconds (issued_at / 1000000);
          not_before = seconds (issued_at / 1000000);
          expires_at = seconds ((issued_at + seconds provider.ttl_seconds) / 1000000);
          scopes = normalized_scopes scopes;
        },
        rw
            (
              signed.not_blank,
              signed.headed,
              named,
              known,
              ← same_audience,
              ← same_issuer,
              signed.decodes,
            )
            (rw (same_audience, same_issuer) passed),
        sym same_issuer,
        refl,
        λ scope. has_scope-normalized_scopes scope scopes,
      )
