-- ===== src/Auth/Moves.antt =====
-- backend/app/services/authentication_service.py: a rotation moves the session to its next token.
use opsflow.Prelude.{
  ℕ, ◌≡◌, refl, ◌∙◌, sym, subst, ==_refl, eq_of_==, true, false, String, Option, none, some, Result,
  ok, err, leb, ◌==◌, Bool-cases, Option-cases, inl, inr, arith, if◌then◌else◌,
}
use opsflow.Auth.Action.{Db, AuthError}
use opsflow.Auth.Sessions
use opsflow.Auth.Sessions.{AuthSession, SessionTable, is_none, update_current_token, revoke}
use opsflow.Auth.Sessions.Laws.{get_by_id-update_current_token, id-get_by_id}
use opsflow.Auth.Users.{User}
use opsflow.Auth.Tokens.{Crypto, RefreshTokenClaims, decode_refresh_token, create_refresh_token}
use opsflow.Auth.Service.{
  Lifetimes, RefreshRotationResult, rotate_session, rotate_refresh_token_with_csrf,
}
use opsflow.Auth.Refresh.{usable, active_user, is_usable, checked_session, csrf_holds}
use opsflow.Auth.Rotation.{
  rotation_result, rotate_session-reuse, settled, rotate_session-current, proceed, rotate-run,
}

-- A session in the table that passed every check, whose row now names the replacement.
unfoldable pub Moved :
    Crypto → ℕ → ℕ → RefreshTokenClaims → RefreshRotationResult → Db → Db → Type 0
Moved c now replacement claims r db db' =
    (session : AuthSession) × (claims.session_id ≡ r.session_id)
    × (claims.token_id ≡ r.previous_refresh_token_id)
    × (is_usable session claims now ≡ true)
    × (Sessions.get_by_id r.session_id db.sessions ≡ some session)
    × (session.current_jti ≡ r.previous_refresh_token_id)
    × (session.revoked_at ≡ none)
    × (leb session.expires_at now ≡ false)
    × (r.refresh_token_id ≡ replacement)
    × (r.refresh_token
        ≡ create_refresh_token c now r.user.id r.session_id replacement session.expires_at)
    × (db'.users ≡ db.users)
    × (Sessions.get_by_id r.session_id db'.sessions
        ≡ some (record session { current_jti = replacement; last_used_at = now }))
    × ((i : ℕ)
        → Sessions.get_by_id i db'.sessions ≡ (
            if i == r.session_id
            then some (record session { current_jti = replacement; last_used_at = now })
            else Sessions.get_by_id i db.sessions))

-- What a token has passed that is usable.
pub usable-inversion :
    (c : Crypto) (now : ℕ) (token : String) (cookie header : Option String) (table : SessionTable)
    (claims : RefreshTokenClaims) (session : AuthSession)
    → usable c now token cookie header table ≡ ok (claims, session)
    → (decode_refresh_token c now token ≡ some claims)
      × (csrf_holds c claims.session_id cookie header ≡ true)
      × (Sessions.get_by_id claims.session_id table ≡ some session)
      × (is_usable session claims now ≡ true)
unfolding usable checked_session
usable-inversion c now token cookie header table claims session h = ground arith

-- The table after an update of the current token of a row that is there.
row_after :
    (jti now : ℕ) (session : AuthSession) (table : SessionTable)
    → Sessions.get_by_id session.id table ≡ some session
    → Sessions.get_by_id session.id (update_current_token session.id jti now table)
      ≡ some (record session { current_jti = jti; last_used_at = now })
row_after jti now session table found =
    let here = ==_refl session.id in
    ground (arith, get_by_id-update_current_token session.id session.id jti now table)

every_row_after :
    (jti now : ℕ) (session : AuthSession) (i : ℕ) (table : SessionTable)
    → Sessions.get_by_id session.id table ≡ some session
    → Sessions.get_by_id i (update_current_token session.id jti now table) ≡ (
        if i == session.id
        then some (record session { current_jti = jti; last_used_at = now })
        else Sessions.get_by_id i table)
every_row_after jti now session i table found = elim (Bool-cases (i == session.id)) [
  | inl same ↦
      let here = row_after jti now session table found in
      rw (eq_of_== _ _ same, ==_refl session.id) here
  | inr other ↦ rw other elim (Option-cases (Sessions.get_by_id i table)) [
    | inl e ↦ ground (arith, get_by_id-update_current_token i session.id jti now table)
    | inr (row, e) ↦
        let there = id-get_by_id i table e in
        ground (arith, get_by_id-update_current_token i session.id jti now table)
  ]
]

module _ (c : Crypto) (lifetimes : Lifetimes) (now replacement access_id : ℕ)
    (claims : RefreshTokenClaims) (session : AuthSession) (db : Db)
    (found : Sessions.get_by_id claims.session_id db.sessions ≡ some session)
    (passed : is_usable session claims now ≡ true) where
  moved :
      (user : User)
      → (session.current_jti == claims.token_id) ≡ true
      → Moved c now replacement claims
          (rotation_result c lifetimes now replacement access_id claims session user)
          db
          (record db { sessions = update_current_token session.id replacement now db.sessions })
  unfolding Moved is_usable
  moved user e =
      let there = id-get_by_id claims.session_id db.sessions found in
      let here = subst (λ i. Sessions.get_by_id i db.sessions ≡ some session) (sym there) found in
      (
        session,
        sym there,
        refl,
        passed,
        here,
        eq_of_== _ _ e,
        ground arith,
        ground arith,
        refl,
        refl,
        refl,
        row_after replacement now session db.sessions here,
        λ i. every_row_after replacement now session i db.sessions here,
      )

  settled-Moved :
      (found_user : Result AuthError User) (r : RefreshRotationResult) (db' : Db)
      → (session.current_jti == claims.token_id) ≡ true
      → settled c lifetimes now replacement access_id claims session db found_user ≡ (ok r, db')
      → Moved c now replacement claims r db db'
  settled-Moved (err e) r db' t h = ground arith
  settled-Moved (ok user) r db' t h = let to = moved user t in ground arith

  rotate_session-Moved :
      (r : RefreshRotationResult) (db' : Db)
      → rotate_session c lifetimes now replacement access_id (claims, session) db ≡ (ok r, db')
      → Moved c now replacement claims r db db'
  rotate_session-Moved r db' h = elim (Bool-cases (session.current_jti == claims.token_id)) [
    | inl e ↦
        settled-Moved (active_user claims.user_id db.users) r db' e (
          sym (rotate_session-current c lifetimes now replacement access_id claims session db e)
          ∙ h)
    | inr e ↦
        let run = rotate_session-reuse c lifetimes now replacement access_id claims session db e in
        ground arith
  ]

-- A rotation that returns was given a token that decodes, with a CSRF token that holds for its
-- session. It has moved the session from that token to the replacement, kept the session's expiry,
-- and changed no other session and no user. Its new token names the replacement and the same expiry.
pub rotation_moves :
    (c : Crypto) (lifetimes : Lifetimes) (now replacement access_id : ℕ) (token : String)
    (cookie header : Option String) (db db' : Db) (r : RefreshRotationResult)
    → rotate_refresh_token_with_csrf c lifetimes now replacement access_id token cookie header db
      ≡ (ok r, db')
    → (claims : RefreshTokenClaims) × (decode_refresh_token c now token ≡ some claims)
      × (csrf_holds c claims.session_id cookie header ≡ true)
      × Moved c now replacement claims r db db'
rotation_moves c lifetimes now replacement access_id token cookie header db db' r h =
    from _ (usable-inversion c now token cookie header db.sessions)
      (sym (rotate-run c lifetimes now replacement access_id token cookie header db) ∙ h)
  where
    from :
        (outcome : Result AuthError (RefreshTokenClaims × AuthSession))
        → ((claims : RefreshTokenClaims) (session : AuthSession)
            → outcome ≡ ok (claims, session)
            → (decode_refresh_token c now token ≡ some claims)
              × (csrf_holds c claims.session_id cookie header ≡ true)
              × (Sessions.get_by_id claims.session_id db.sessions ≡ some session)
              × (is_usable session claims now ≡ true))
        → proceed c lifetimes now replacement access_id token cookie header db outcome ≡ (ok r, db')
        → (claims : RefreshTokenClaims) × (decode_refresh_token c now token ≡ some claims)
          × (csrf_holds c claims.session_id cookie header ≡ true)
          × Moved c now replacement claims r db db'
    from (err e) passed run = ground arith
    from (ok (claims, session)) passed run =
        let (decoded, held, found, is_passed) = passed claims session refl in
        let to =
          rotate_session-Moved c lifetimes now replacement access_id claims session db found
            is_passed r db' run in
        (claims, decoded, held, to)
