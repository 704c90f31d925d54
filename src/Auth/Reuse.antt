-- ===== src/Auth/Reuse.antt =====
-- backend/app/services/authentication_service.py: a refresh token that is used again.
use opsflow.Prelude.{
  ℕ, ◌≡◌, ◌≢◌, refl, ◌∙◌, sym, ap, subst, ==_ne, true, false, String, Option, none, some, ok, err,
  leb, arith,
}
use opsflow.Auth.Action.{Db, refresh_token_reuse}
use opsflow.Auth.Sessions
use opsflow.Auth.Sessions.{
  AuthSession, SessionTable, is_none, update_current_token, revoke, revoked_row,
}
use opsflow.Auth.Sessions.Laws.{get_by_id-revoke, id-get_by_id}
use opsflow.Auth.Tokens.{Crypto, RefreshTokenClaims, decode_refresh_token}
use opsflow.Auth.Service.{Lifetimes, RefreshRotationResult, rotate_refresh_token_with_csrf}
use opsflow.Auth.Refresh.{usable, is_usable, csrf_holds, checked_session}
use opsflow.Auth.Rotation.{proceed, rotate-run, rotate_session-reuse}
use opsflow.Auth.Moves.{Moved, rotation_moves}

module _ (c : Crypto) (now : ℕ) (token : String) (cookie header : Option String)
    (table : SessionTable) {claims : RefreshTokenClaims} {session : AuthSession} where
  usable_by :
      decode_refresh_token c now token ≡ some claims
      → csrf_holds c claims.session_id cookie header ≡ true
      → Sessions.get_by_id claims.session_id table ≡ some session
      → is_usable session claims now ≡ true
      → usable c now token cookie header table ≡ ok (claims, session)
  unfolding usable checked_session
  usable_by d ch f u = ground arith

still_usable :
    (claims : RefreshTokenClaims) (session : AuthSession) (now jti at later : ℕ)
    → is_usable session claims now ≡ true
    → leb session.expires_at later ≡ false
    → is_usable (record session { current_jti = jti; last_used_at = at }) claims later ≡ true
unfolding is_usable
still_usable claims session now jti at later h fresh = ground arith

-- The row of a live session after it is revoked.
revoked_after :
    (i now : ℕ) (reason : String) (table : SessionTable) (row : AuthSession)
    → Sessions.get_by_id i table ≡ some row
    → row.id ≡ i
    → row.revoked_at ≡ none
    → Sessions.get_by_id i (revoke i now reason table) ≡ some (revoked_row now reason row)
revoked_after i now reason table row found there live =
    ground (arith, get_by_id-revoke i i now reason table)

-- A rotation for a usable token that is not the current one.
reuse_run :
    (c : Crypto) (lifetimes : Lifetimes) (now replacement access_id : ℕ) (token : String)
    (cookie header : Option String) (db : Db) (claims : RefreshTokenClaims) (session : AuthSession)
    → usable c now token cookie header db.sessions ≡ ok (claims, session)
    → session.current_jti ≢ claims.token_id
    → rotate_refresh_token_with_csrf c lifetimes now replacement access_id token cookie header db
      ≡ (
        err (refresh_token_reuse session.user_id session.id),
        record db { sessions = revoke session.id now "refresh_token_reuse" db.sessions },
      )
reuse_run c lifetimes now replacement access_id token cookie header db claims session h ne =
    rotate-run c lifetimes now replacement access_id token cookie header db
    ∙ ap (proceed c lifetimes now replacement access_id token cookie header db) h
    ∙ rotate_session-reuse c lifetimes now replacement access_id claims session db (==_ne _ _ ne)

-- A token that a rotation has replaced, and that is presented again while it still decodes and the
-- session has not expired: the error is `RefreshTokenReuseError`, and the session is revoked at that
-- time, for that reason.
pub replay_revokes :
    (c : Crypto) (lifetimes : Lifetimes) (now later replacement next access_id next_access_id : ℕ)
    (token : String) (cookie header : Option String) (db db' : Db) (r : RefreshRotationResult)
    → rotate_refresh_token_with_csrf c lifetimes now replacement access_id token cookie header db
      ≡ (ok r, db')
    → replacement ≢ r.previous_refresh_token_id
    → decode_refresh_token c later token ≡ decode_refresh_token c now token
    → ((session : AuthSession)
        → Sessions.get_by_id r.session_id db.sessions ≡ some session
        → leb session.expires_at later ≡ false)
    → (row : AuthSession) × (db'' : Db) × (rotate_refresh_token_with_csrf c lifetimes later next
          next_access_id token cookie header db'
        ≡ (err (refresh_token_reuse row.user_id r.session_id), db''))
      × (Sessions.get_by_id r.session_id db''.sessions ≡ some row)
      × (row.revoked_at ≡ some later)
      × (row.revocation_reason ≡ some "refresh_token_reuse")
unfolding Moved
replay_revokes c lifetimes now later replacement next access_id next_access_id token cookie header
      db db' r h ne same fresh =
    let (claims, decoded, held, to) =
      rotation_moves c lifetimes now replacement access_id token cookie header db db' r h in
    let (session, sid, jti, passed, found, _, live, _, _, _, _, found', _) = to in
    let row = record session { current_jti = replacement; last_used_at = now } in
    let there = id-get_by_id r.session_id db'.sessions found' in
    let found_by = subst (λ i. Sessions.get_by_id i db'.sessions ≡ some row) (sym sid) found' in
    let unexpired = fresh session found in
    let still : is_usable row claims later ≡ true =
      still_usable claims session now replacement now later passed unexpired in
    let reused =
      usable_by c later token cookie header db'.sessions (same ∙ decoded) held found_by still in
    let run =
      reuse_run c lifetimes later next next_access_id token cookie header db' claims row reused
        (λ e. ne (e ∙ jti)) in
    let revoked = revoked_row later "refresh_token_reuse" row in
    let after = record db' { sessions = revoke row.id later "refresh_token_reuse" db'.sessions } in
    (
      revoked,
      after,
      run ∙ ap (λ i. (err (refresh_token_reuse row.user_id i), after)) there,
      subst
          (λ i.
            Sessions.get_by_id r.session_id (revoke i later "refresh_token_reuse" db'.sessions)
            ≡ some revoked)
          (sym there)
          (revoked_after r.session_id later "refresh_token_reuse" db'.sessions row found' there
            live),
      refl,
      refl,
    )
