-- ===== src/Auth/Login/Outcome.antt =====
-- What each response to a login stands for.
use text.Mathlib.TextEquality.{eq_iff}
use opsflow.Prelude.{
  ◌+◌, ◌≡◌, refl, sym, ◌∙◌, ap, true, false, String, none, some, Result, ok, err, Bool-cases,
  Option-cases, inl, inr, arith,
}
use opsflow.Dict.{lookup, lookup-pop}
use opsflow.Auth.Action.{Db, AuthError}
use opsflow.Auth.Sessions.{AuthSession, create}
use opsflow.Auth.Users.{User, UserAuthRecord, get_auth_record_by_email}
use opsflow.Auth.Tokens.{Crypto, create_access_token, create_refresh_token, create_csrf_token}
use opsflow.Auth.Service.{
  Lifetimes, AuthenticationResult, require_active_user, issue_authentication_result,
}
use opsflow.Auth.Login.{
  authenticate, LoginState, LoginOutcome, throttled, rejected, raised, logged_in, LoginDraw,
  issue_login, login_for_access_token,
}
use opsflow.Throttle.Keys.{TextRuntime}
use opsflow.Throttle.Login.{
  LoginThrottle, account_key, begin_attempt, record_failure, record_success,
}

-- The credential that a login proves.
abbrev pub HasPassword : Crypto → String → String → Db → UserAuthRecord → Type 0
HasPassword c username password db row =
    (get_auth_record_by_email (c.lower (c.strip username)) db.users ≡ some row)
    × (row.user.is_active ≡ true)
    × (c.verify_password password row.hashed_password ≡ true)

abbrev pub new_session : Lifetimes → LoginDraw → User → AuthSession
new_session lifetimes draw user = record {
  id = draw.session_id;
  user_id = user.id;
  current_jti = draw.token_id;
  created_at = draw.now;
  last_used_at = draw.now;
  expires_at = draw.now + lifetimes.refresh_token;
  revoked_at = none;
  revocation_reason = none;
}

authenticate-inversion :
    (c : Crypto) (username password : String) (db : Db) (user : User)
    → (authenticate c username password db).0 ≡ ok user
    → (row : UserAuthRecord) × HasPassword c username password db row × (row.user ≡ user)
unfolding authenticate
authenticate-inversion c username password db user h =
    elim (Option-cases (get_auth_record_by_email (c.lower (c.strip username)) db.users)) [
      | inl missing ↦ absurd (ground arith)
      | inr (row, found) ↦ (row, (found, ground arith, ground arith), ground arith)
    ]

abbrev pub issue_of : Crypto → Lifetimes → LoginDraw → User → AuthenticationResult
issue_of c lifetimes draw user = record {
  access_token = create_access_token c draw.now lifetimes.access_token draw.access_id user.id;
  refresh_token =
      create_refresh_token c draw.now user.id draw.session_id draw.token_id
        (draw.now + lifetimes.refresh_token);
  csrf_token = create_csrf_token c draw.nonce draw.session_id;
  user = user;
  session_id = draw.session_id;
  refresh_token_id = draw.token_id;
}

-- An active user is issued one session.
issued_run :
    (c : Crypto) (lifetimes : Lifetimes) (draw : LoginDraw) (user : User) (db : Db)
    → user.is_active ≡ true
    → issue_authentication_result c lifetimes draw.now draw.session_id draw.token_id draw.access_id
        draw.nonce user db
      ≡ (
        ok (issue_of c lifetimes draw user),
        record db { sessions = create (new_session lifetimes draw user) db.sessions },
      )
unfolding issue_authentication_result require_active_user
issued_run c lifetimes draw user db active = ground arith

-- A success leaves no failure of the account.
forgotten :
    (text : TextRuntime) (username : String) (t : LoginThrottle)
    → lookup
        (account_key text (record_success text username t) username)
        (record_success text username t).account_failures
      ≡ none
unfolding record_success
forgotten text username t =
    let key = account_key text t username in
    lookup-pop key key t.account_failures ∙ rw ((eq_iff key key).1 refl) refl

module _ (text : TextRuntime) (c : Crypto) (lifetimes : Lifetimes) (draw : LoginDraw)
    (client_address username password : String) (s : LoginState) where
  -- Every outcome, with the state after it.
  abbrev pub Stands : LoginOutcome × LoginState → Type 0
  Stands (throttled, s') =
      ((begin_attempt text draw.attempt_time client_address username s.throttle).0.allowed ≡ false)
      × (s'.db ≡ s.db)
  Stands (rejected, s') =
      (s'.db ≡ s.db)
      × (s'.throttle
          ≡ record_failure text draw.failure_time username
              (begin_attempt text draw.attempt_time client_address username s.throttle).1)
  Stands (raised, s') = ⊥
  Stands (logged_in issued, s') =
      ((begin_attempt text draw.attempt_time client_address username s.throttle).0.allowed ≡ true)
      × ((row : UserAuthRecord) × HasPassword c username password s.db row
          × (issued.user ≡ row.user)
          × (s'.db ≡ record (s.db) {
            sessions = create (new_session lifetimes draw row.user) s.db.sessions;
          })
          × (lookup (account_key text s'.throttle username) s'.throttle.account_failures ≡ none))

  issue_login-Stands :
      (user : User) (row : UserAuthRecord)
      → (begin_attempt text draw.attempt_time client_address username s.throttle).0.allowed ≡ true
      → HasPassword c username password s.db row
      → row.user ≡ user
      → Stands (
          issue_login text c lifetimes draw username user (record s {
            throttle = (begin_attempt text draw.attempt_time client_address username s.throttle).1;
          }))
  unfolding issue_login
  issue_login-Stands user row allowed proved same =
      let throttle = (begin_attempt text draw.attempt_time client_address username s.throttle).1 in
      by_issue
        (issue_authentication_result c lifetimes draw.now draw.session_id draw.token_id
          draw.access_id draw.nonce user s.db)
        (issued_run c lifetimes draw user s.db (ap (λ u. u.is_active) (sym same) ∙ proved.1))
    where
      by_issue :
          (run : Result AuthError AuthenticationResult × Db)
          → run ≡ (
            ok (issue_of c lifetimes draw user),
            record (s.db) { sessions = create (new_session lifetimes draw user) s.db.sessions },
          )
          → Stands (elim run.0 [
            | ok issued ↦ (
              logged_in issued,
              record {
                throttle =
                    record_success text username
                      (begin_attempt text draw.attempt_time client_address username s.throttle).1;
                db = run.1;
              },
            )
            | err _ ↦ (
              raised,
              record {
                throttle =
                    record_success text username
                      (begin_attempt text draw.attempt_time client_address username s.throttle).1;
                db = s.db;
              },
            )
          ])
      by_issue run e = rw e (
        allowed,
        (
          row,
          proved,
          sym same,
          ap (λ q. q.1) e
              ∙ ap
                  (λ (u : User). record (s.db) {
                    sessions = create (new_session lifetimes draw u) s.db.sessions;
                  })
                  (sym same),
          forgotten text username
              (begin_attempt text draw.attempt_time client_address username s.throttle).1,
        ),
      )

  -- A login that is throttled changes no row; a login that is rejected changes no row and is recorded
  -- as a failure of the account; no error of the issue leaves the handler; and a login that succeeds
  -- was let through by the throttle, was for an active user whose stored hash verifies the password,
  -- adds one session of that user, and leaves no recorded failure of the account.
  pub login-Stands :
      Stands (login_for_access_token text c lifetimes draw client_address username password s)
  unfolding login_for_access_token
  login-Stands =
      elim (Bool-cases
        (begin_attempt text draw.attempt_time client_address username s.throttle).0.allowed) [
          | inl allowed ↦
              rw allowed (by_authenticate (authenticate c username password s.db).0 refl allowed)
          | inr refused ↦ rw refused (refused, refl)
        ]
    where
      by_authenticate :
          (r : Result AuthError User)
          → (authenticate c username password s.db).0 ≡ r
          → (begin_attempt text draw.attempt_time client_address username s.throttle).0.allowed
            ≡ true
          → Stands (elim r [
            | ok user ↦ issue_login text c lifetimes draw username user (record s {
              throttle =
                  (begin_attempt text draw.attempt_time client_address username s.throttle).1;
            })
            | err _ ↦ (
              rejected,
              record s {
                throttle =
                    record_failure text draw.failure_time username
                      (begin_attempt text draw.attempt_time client_address username s.throttle).1;
              },
            )
          ])
      by_authenticate (err _) e allowed = (refl, refl)
      by_authenticate (ok user) e allowed =
          let (row, proved, same) = authenticate-inversion c username password s.db user e in
          issue_login-Stands user row allowed proved same
