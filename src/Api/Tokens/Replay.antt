-- ===== src/Api/Tokens/Replay.antt =====
-- backend/app/api/routes/auth.py: a refresh token that is sent again, through the endpoint.
use opsflow.Prelude.{
  ℕ, ◌≡◌, ◌≢◌, refl, ◌∙◌, ap, sym, subst, String, some, List, Result, ok, err, leb, Option-cases,
  inl, inr, arith, false,
}
use opsflow.Auth.Action.{
  Db, AuthError, invalid_credentials, inactive_user, reauthentication_failed,
  password_change_refused, invalid_csrf_token, refresh_token_reuse,
}
use opsflow.Auth.Sessions
use opsflow.Auth.Sessions.{AuthSession}
use opsflow.Auth.Tokens.{Crypto, RefreshTokenClaims, decode_refresh_token}
use opsflow.Auth.Service.{Lifetimes, RefreshRotationResult, rotate_refresh_token_with_csrf}
use opsflow.Auth.Moves.{Moved, rotation_moves}
use opsflow.Auth.Reuse.{replay_revokes}
use opsflow.Api.{refresh_credentials_invalid, unauthenticated, Ending, Answered, answer}
use opsflow.Api.Cookies.{
  CookieSettings, get_refresh_cookie, get_csrf_cookie, set_refresh_cookie, clear_auth_cookies,
}
use opsflow.Api.Events.{SecurityEvent}
use opsflow.Api.Tokens.{
  Credentials, RefreshDraw, on_refresh_error, after_rotation, refresh_access_token,
}

Moved-names :
    (c : Crypto) (now replacement : ℕ) (claims : RefreshTokenClaims) (r : RefreshRotationResult)
    (db db' : Db)
    → Moved c now replacement claims r db db'
    → (claims.session_id ≡ r.session_id) × (claims.token_id ≡ r.previous_refresh_token_id)
unfolding Moved
Moved-names c now replacement claims r db db'
      (session, to_session, to_token, _, _, _, _, _, _, _, _, _, _) =
    (to_session, to_token)

module _ (settings : CookieSettings) (c : Crypto) (lifetimes : Lifetimes)
    (request : Credentials) where
  -- The request after a rotation that ended so.
  abbrev ended :
      RefreshDraw → Result AuthError RefreshRotationResult × Db → Ending × List SecurityEvent × Db
  ended draw (result, db') = (
    (after_rotation settings c draw.cookie_time result).0,
    (after_rotation settings c draw.cookie_time result).1,
    db',
  )

  abbrev rotate : RefreshDraw → String → Db → Result AuthError RefreshRotationResult × Db
  rotate draw token db =
      rotate_refresh_token_with_csrf c lifetimes draw.now draw.replacement draw.access_id token
        (get_csrf_cookie settings request.cookies) request.csrf_header db

  refresh-run :
      (draw : RefreshDraw) (token : String) (db : Db)
      → get_refresh_cookie settings request.cookies ≡ some token
      → refresh_access_token settings c lifetimes draw request db
        ≡ ended draw (rotate draw token db)
  unfolding refresh_access_token
  refresh-run draw token db sent = rw (refresh_access_token, sent) refl

  -- A response 200 stands for a rotation, and commits it.
  rotated :
      (draw : RefreshDraw) (run : Result AuthError RefreshRotationResult × Db) (db : Db)
      → (answer (λ _. ended draw run) db).response.status ≡ 200
      → (r : RefreshRotationResult) × (run ≡ (ok r, (answer (λ _. ended draw run) db).state))
  unfolding answer after_rotation on_refresh_error
  rotated draw (ok r, db') db h =
      elim (Option-cases (set_refresh_cookie settings c draw.cookie_time r.refresh_token)) [
        | inl refused ↦ absurd (ground arith)
        | inr (cookie, set) ↦ (r, ground arith)
      ]
  rotated draw (err invalid_csrf_token, db') db h = absurd (ground arith)
  rotated draw (err (refresh_token_reuse user_id id), db') db h = absurd (ground arith)
  rotated draw (err invalid_credentials, db') db h = absurd (ground arith)
  rotated draw (err inactive_user, db') db h = absurd (ground arith)
  rotated draw (err reauthentication_failed, db') db h = absurd (ground arith)
  rotated draw (err password_change_refused, db') db h = absurd (ground arith)

  abbrev refresh : RefreshDraw → Db → Answered Db
  refresh draw db = answer (refresh_access_token settings c lifetimes draw request) db

  refresh-ended :
      (draw : RefreshDraw) (token : String) (db : Db)
      → get_refresh_cookie settings request.cookies ≡ some token
      → refresh draw db ≡ answer (λ _. ended draw (rotate draw token db)) db
  unfolding answer
  refresh-ended draw token db sent =
      ap (λ (e : Ending × List SecurityEvent × Db). answer (λ _. e) db)
        (refresh-run draw token db sent)

  -- A refresh with the response 200 has committed a rotation.
  refreshed :
      (draw : RefreshDraw) (token : String) (db : Db)
      → get_refresh_cookie settings request.cookies ≡ some token
      → (refresh draw db).response.status ≡ 200
      → (r : RefreshRotationResult) × (rotate draw token db ≡ (ok r, (refresh draw db).state))
  refreshed draw token db sent success =
      let run = refresh-ended draw token db sent in
      let (r, rotation) =
        rotated draw (rotate draw token db) db
          (subst (λ (a : Answered Db). a.response.status ≡ 200) run success) in
      (r, rotation ∙ ap (λ (a : Answered Db). (ok r, a.state)) (sym run))

  reused :
      (later : RefreshDraw) (token : String) (db db' : Db) (user_id session_id : ℕ)
      → get_refresh_cookie settings request.cookies ≡ some token
      → rotate later token db ≡ (err (refresh_token_reuse user_id session_id), db')
      → ((refresh later db).response ≡ record (unauthenticated refresh_credentials_invalid) {
        cookies = clear_auth_cookies settings;
      })
        × ((refresh later db).state ≡ db')
  unfolding answer after_rotation on_refresh_error
  reused later token db db' user_id session_id sent run =
      let whole =
        refresh-ended later token db sent ∙ ap (λ p. answer (λ _. ended later p) db) run in
      (ap (λ (a : Answered Db). a.response) whole, ap (λ (a : Answered Db). a.state) whole)

  -- A refresh token that a refresh has replaced, and that is sent again while it still decodes and the
  -- session has not expired: the answer is 401 and deletes both cookies, and the session is revoked in
  -- what is committed, at that time.
  pub replay_answered :
      (draw later : RefreshDraw) (token : String) (claims : RefreshTokenClaims) (db : Db)
      → get_refresh_cookie settings request.cookies ≡ some token
      → decode_refresh_token c draw.now token ≡ some claims
      → decode_refresh_token c later.now token ≡ some claims
      → draw.replacement ≢ claims.token_id
      → ((session : AuthSession)
          → Sessions.get_by_id claims.session_id db.sessions ≡ some session
          → leb session.expires_at later.now ≡ false)
      → (refresh draw db).response.status ≡ 200
      → ((refresh later (refresh draw db).state).response
          ≡ record (unauthenticated refresh_credentials_invalid) {
            cookies = clear_auth_cookies settings;
          })
        × ((row : AuthSession) × (Sessions.get_by_id claims.session_id
                (refresh later (refresh draw db).state).state.sessions
              ≡ some row)
            × (row.revoked_at ≡ some later.now))
  replay_answered draw later token claims db sent decoded again ne fresh success =
      let cookie = get_csrf_cookie settings request.cookies in
      let (r, rotation) = refreshed draw token db sent success in
      let (named, as_decoded, _, moved) =
        rotation_moves c lifetimes draw.now draw.replacement draw.access_id token cookie
          request.csrf_header db (refresh draw db).state r rotation in
      let same : named ≡ claims = ground arith in
      let (to_session, to_token) =
        subst
          (λ (n : RefreshTokenClaims).
            (n.session_id ≡ r.session_id) × (n.token_id ≡ r.previous_refresh_token_id))
          same (Moved-names c draw.now draw.replacement named r db (refresh draw db).state moved) in
      let (row, db', run, found, at, _) =
        replay_revokes c lifetimes draw.now later.now draw.replacement later.replacement
          draw.access_id later.access_id token cookie request.csrf_header db (refresh draw db).state
          r rotation (λ e. ne (e ∙ sym to_token)) (again ∙ sym decoded)
          (λ session there. fresh session (
            subst (λ i. Sessions.get_by_id i db.sessions ≡ some session) (sym to_session) there)) in
      let (response, state) =
        reused later token (refresh draw db).state db' row.user_id r.session_id sent run in
      (
        response,
        (
          row,
          subst (λ (s : Db). Sessions.get_by_id claims.session_id s.sessions ≡ some row) (sym state)
              (subst (λ i. Sessions.get_by_id i db'.sessions ≡ some row) (sym to_session) found),
          at,
        ),
      )
