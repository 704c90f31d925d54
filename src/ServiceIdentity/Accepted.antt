-- ===== src/ServiceIdentity/Accepted.antt =====
-- What a verifier has checked of a token that it accepts.
use text.Mathlib.Text.{◌==◌ as str_eq}
use text.Mathlib.TextEquality.{eq_iff}
use opsflow.Prelude.{
  ℕ, ◌+◌, ◌≤◌, ◌<◌, ◌≡◌, subst, refl, Bool, true, false, not, ◌&&◌, ◌||◌, String, Option, none,
  some, Result, ok, err, leb, ltb, ◌==◌, arith,
}
use opsflow.Dict.{lookup}
use opsflow.ServiceIdentity.{
  ServicePrincipal, Claim, missing, other, str, number, Header, Payload, Decoded,
  invalid_signature_error, invalid_issuer_error, invalid_audience_error, other_error, payload,
  Runtime, ◌>>=◌, ◌>>◌, guard, seconds,
}
use opsflow.ServiceIdentity.Verifier.{
  malformed_credential, invalid_algorithm, invalid_token_type, missing_key_id, unknown_key,
  Verifier, text_claim, given, is_text, numeric_date, token_scopes, principal_from_payload,
  decoded_payload, verify_token,
}

-- Inversion of a chain of checks.
>>=-inversion {ℓ κ μ} :
    {E : Type μ} {A : Type ℓ} {B : Type κ} (m : Result E A) (f : A → Result E B) {b : B}
    → (m >>= f) ≡ ok b
    → (a : A) × (m ≡ ok a) × (f a ≡ ok b)
>>=-inversion (ok a) f h = (a, refl, h)
>>=-inversion (err e) f h = cc

guard-inversion {ℓ μ} :
    {E : Type μ} {B : Type ℓ} (test : Bool) (e : E) (k : Result E B) {b : B}
    → (guard test e >> k) ≡ ok b
    → (test ≡ true) × (k ≡ ok b)
guard-inversion true e k h = (refl, h)
guard-inversion false e k h = cc

given-inversion {ℓ κ} :
    {E : Type κ} {A : Type ℓ} (o : Option A) (e : E) (a : A) → given o e ≡ ok a → o ≡ some a
given-inversion none e a h = cc
given-inversion (some b) e a h = cc

text_claim-inversion {κ} :
    {E : Type κ} (claim : Claim) (e : E) (text : String)
    → text_claim claim e ≡ ok text
    → claim ≡ str text
text_claim-inversion (str t) e text h = cc
text_claim-inversion missing e text h = cc
text_claim-inversion other e text h = cc
text_claim-inversion (number _) e text h = cc

decoded_payload-inversion :
    (d : Decoded) (claims : Payload) → decoded_payload d ≡ ok claims → d ≡ payload claims
decoded_payload-inversion invalid_signature_error claims h = cc
decoded_payload-inversion invalid_issuer_error claims h = cc
decoded_payload-inversion invalid_audience_error claims h = cc
decoded_payload-inversion other_error claims h = cc
decoded_payload-inversion (payload c) claims h = cc

-- The claims of an accepted token.
abbrev pub IsAccepted : Verifier → ℕ → ServicePrincipal → Type 0
IsAccepted verifier now p =
    (p.issuer ≡ verifier.expected_issuer)
    × (p.subject ≡ verifier.expected_issuer)
    × (p.audience ≡ verifier.expected_audience)
    × (p.not_before ≡ p.issued_at)
    × (p.issued_at + seconds 30 ≤ p.expires_at)
    × (p.expires_at ≤ p.issued_at + seconds 120)
    × (p.issued_at ≤ now + seconds verifier.clock_skew_seconds)
    × (now < p.expires_at + seconds verifier.clock_skew_seconds)

ok-injective {μ ℓ} :
    {E : Type μ} {A : Type ℓ} (a b : A) → ◌≡◌ {A = Result E A} (ok a) (ok b) → a ≡ b
ok-injective a b h = cc

-- The Boolean checks, as they stand in the code, of the claims that the principal shows.
checked :
    (verifier : Verifier) (now : ℕ) (p : ServicePrincipal)
    → (str_eq p.issuer verifier.expected_issuer
        && (str_eq p.subject verifier.expected_issuer
            && str_eq p.audience verifier.expected_audience))
      ≡ true
    → (p.not_before == p.issued_at) ≡ true
    → (leb (p.issued_at + seconds 30) p.expires_at && leb p.expires_at (p.issued_at + seconds 120))
      ≡ true
    → not (
        ltb (now + seconds verifier.clock_skew_seconds) p.issued_at
        || (ltb (now + seconds verifier.clock_skew_seconds) p.not_before
            || leb (p.expires_at + seconds verifier.clock_skew_seconds) now))
      ≡ true
    → IsAccepted verifier now p
checked verifier now p expected same lifetime current =
    let iss = (eq_iff p.issuer verifier.expected_issuer).0 in
    let sub = (eq_iff p.subject verifier.expected_issuer).0 in
    let aud = (eq_iff p.audience verifier.expected_audience).0 in
    (
      ground arith,
      ground arith,
      ground arith,
      ground arith,
      ground arith,
      ground arith,
      ground arith,
      ground arith,
    )

module _ (py : Runtime) (verifier : Verifier) (now : ℕ) where
  principal-IsAccepted :
      (claims : Payload) (p : ServicePrincipal)
      → principal_from_payload py verifier now claims ≡ ok p
      → IsAccepted verifier now p
  unfolding principal_from_payload
  principal-IsAccepted claims p h =
      let (issuer, _, h1) = >>=-inversion (text_claim claims.iss _) _ h in
      let (subject, _, h2) = >>=-inversion (text_claim claims.sub _) _ h1 in
      let (audience, _, h3) = >>=-inversion (text_claim claims.aud _) _ h2 in
      let (expected, h4) = guard-inversion _ _ _ h3 in
      let (_, h5) = guard-inversion _ _ _ h4 in
      let (jti, _, h6) = >>=-inversion (text_claim claims.jti _) _ h5 in
      let (token_id, _, h7) = >>=-inversion (given (py.uuid jti) _) _ h6 in
      let (issued_at, _, h8) = >>=-inversion (numeric_date py claims.iat) _ h7 in
      let (not_before, _, h9) = >>=-inversion (numeric_date py claims.nbf) _ h8 in
      let (expires_at, _, h10) = >>=-inversion (numeric_date py claims.exp) _ h9 in
      let (same, h11) = guard-inversion _ _ _ h10 in
      let (lifetime, h12) = guard-inversion _ _ _ h11 in
      let (current, h13) = guard-inversion _ _ _ h12 in
      let (scopes, _, h14) = >>=-inversion (token_scopes py claims.scope) _ h13 in
      subst (IsAccepted verifier now) (ok-injective _ p h14) (
        checked verifier now
          (record {
            issuer = issuer;
            subject = subject;
            audience = audience;
            token_id = token_id;
            issued_at = issued_at;
            not_before = not_before;
            expires_at = expires_at;
            scopes = scopes;
          })
          expected same lifetime current)

  -- A token that is accepted names a configured key in its header, and is decoded under that key for
  -- the configured audience and issuer. The principal has the configured issuer, as its subject too,
  -- and the configured audience; its lifetime is between 30 and 120 seconds, starts at its issue, and
  -- holds the present time, up to the configured clock skew on both sides.
  pub verify_token-IsAccepted :
      (token : String) (p : ServicePrincipal)
      → verify_token py verifier now token ≡ ok p
      → (header : Header) × (key_id : String) × (public_key : ℕ) × (claims : Payload)
        × (py.unverified_header token ≡ some header)
        × (header.kid ≡ str key_id)
        × (lookup key_id verifier.public_keys ≡ some public_key)
        × (py.decode public_key verifier.expected_audience verifier.expected_issuer token
            ≡ payload claims)
        × IsAccepted verifier now p
  unfolding verify_token
  verify_token-IsAccepted token p h =
      let (_, h1) = guard-inversion (not (str_eq (py.strip token) "")) malformed_credential _ h in
      let (header, e2, h2) = >>=-inversion (given (py.unverified_header token) _) _ h1 in
      let (_, h3) = guard-inversion (is_text "RS256" header.alg) invalid_algorithm _ h2 in
      let (_, h4) = guard-inversion (is_text "JWT" header.typ) invalid_token_type _ h3 in
      let (key_id, e5, h5) = >>=-inversion (text_claim header.kid _) _ h4 in
      let (_, h6) = guard-inversion (not (str_eq key_id "")) missing_key_id _ h5 in
      let (public_key, e7, h7) =
        >>=-inversion (given (lookup key_id verifier.public_keys) _) _ h6 in
      let (claims, e8, h8) =
        >>=-inversion
          (decoded_payload
            (py.decode public_key verifier.expected_audience verifier.expected_issuer token))
          _ h7 in
      (
        header,
        key_id,
        public_key,
        claims,
        given-inversion (py.unverified_header token) malformed_credential header e2,
        text_claim-inversion header.kid missing_key_id key_id e5,
        given-inversion (lookup key_id verifier.public_keys) unknown_key public_key e7,
        decoded_payload-inversion
            (py.decode public_key verifier.expected_audience verifier.expected_issuer token) claims
            e8,
        principal-IsAccepted claims p h8,
      )
