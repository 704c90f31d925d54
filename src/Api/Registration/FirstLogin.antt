-- ===== src/Api/Registration/FirstLogin.antt =====
-- backend/app/api/routes/auth.py: what a registration leaves behind.
use text.Mathlib.Text.{◌==◌ as str_eq}
use text.Mathlib.TextEquality.{eq_iff}
use opsflow.Prelude.{
  List, ◌≡◌, refl, sym, subst, ap, ◌∙◌, true, String, none, some, [], ◌∷◌, ok, arith, Option-cases,
  Bool-cases, inl, inr, if◌then◌else◌,
}
use opsflow.Auth.Action.{Db}
use opsflow.Auth.Users.{viewer, User, UserAuthRecord, UserTable, get_auth_record_by_email}
use opsflow.Auth.Tokens.{Crypto}
use opsflow.Auth.Login.{authenticate}
use opsflow.Api.Events.{SecurityEvent}
use opsflow.Api.{current, detail, respond, returns, raises_http, Ending, Answered, answer}
use opsflow.Api.Registration.{NewUser, add, display_name, register_account}

get_auth_record-add :
    (email : String) (row : UserAuthRecord) (table : UserTable)
    → get_auth_record_by_email email (add row table)
      ≡ (elim (get_auth_record_by_email email table) [
        | some found ↦ some found
        | none ↦ if str_eq row.user.email email then some row else none
      ])
unfolding get_auth_record_by_email add
get_auth_record-add email row [] = refl
get_auth_record-add email row (r ∷ rows) = ground (arith, get_auth_record-add email row rows)

module _ (c : Crypto) (draw : NewUser) (email : String) (db : Db) where
  abbrev address : String
  address = c.lower (c.strip email)

  abbrev new_row : UserAuthRecord
  new_row = record {
    user = record {
      id = draw.id;
      email = c.lower (c.strip address);
      full_name = c.strip (display_name c address);
      role = viewer;
      is_active = true;
      created_at = draw.now;
      updated_at = draw.now;
    };
    hashed_password = draw.hashed_password;
  }

  abbrev after : Db
  after = record db { users = add new_row db.users }

  free-run :
      get_auth_record_by_email (c.lower (c.strip address)) db.users ≡ none
      → register_account c draw email db
        ≡ (returns (respond 201 (current new_row.user) []), [], after)
  unfolding register_account
  free-run free = rw (register_account, free) refl

  taken-run :
      (row : UserAuthRecord)
      → get_auth_record_by_email (c.lower (c.strip address)) db.users ≡ some row
      → register_account c draw email db ≡ (raises_http (respond 409 detail []), [], db)
  unfolding register_account
  taken-run row taken = rw (register_account, taken) refl

  abbrev registered : Answered Db
  registered = answer (register_account c draw email) db

  free-answer :
      get_auth_record_by_email (c.lower (c.strip address)) db.users ≡ none
      → registered
        ≡ record { response = respond 201 (current new_row.user) []; events = []; state = after }
  unfolding answer
  free-answer free =
      ap (λ (e : Ending × List SecurityEvent × Db). answer (λ _. e) db) (free-run free)

  -- An address is free where the registration was answered 201.
  address_was_free :
      registered.response.status ≡ 201
      → get_auth_record_by_email (c.lower (c.strip address)) db.users ≡ none
  unfolding answer
  address_was_free created =
      elim (Option-cases (get_auth_record_by_email (c.lower (c.strip address)) db.users)) [
        | inl free ↦ free
        | inr (row, taken) ↦
            let answered =
              ap (λ (e : Ending × List SecurityEvent × Db). (answer (λ _. e) db).response.status)
                (taken-run row taken) in
            absurd (ground arith)
      ]

  abbrev Kept : UserAuthRecord → String → Db → Type 0
  Kept row other db' =
      get_auth_record_by_email other db'.users
      ≡ (if str_eq row.user.email other then some row else get_auth_record_by_email other db.users)

  new_row-Kept :
      (other : String)
      → get_auth_record_by_email (c.lower (c.strip address)) db.users ≡ none
      → Kept new_row other after
  new_row-Kept other free =
      let stored = c.lower (c.strip address) in
      let added = get_auth_record-add other new_row db.users in
      elim (Bool-cases (str_eq stored other)) [
        | inl same ↦
            let here : get_auth_record_by_email other db.users ≡ none =
              subst (λ (e : String). get_auth_record_by_email e db.users ≡ none)
                ((eq_iff stored other).0 same) free in
            ground arith
        | inr differs ↦ elim (Option-cases (get_auth_record_by_email other db.users)) [
          | inl missing ↦ ground arith
          | inr (row, there) ↦ ground arith
        ]
      ]

  logs_in :
      (password : String)
      → c.lower (c.strip address) ≡ address
      → c.verify_password password draw.hashed_password ≡ true
      → get_auth_record_by_email (c.lower (c.strip address)) db.users ≡ none
      → authenticate c email password after ≡ (ok new_row.user, after)
  unfolding authenticate
  logs_in password normal verifies free =
      let own = (eq_iff (c.lower (c.strip address)) address).1 normal in
      let mine : get_auth_record_by_email address after.users ≡ some new_row =
        new_row-Kept address free ∙ rw own refl in
      rw (mine, verifies) refl

  -- A registration with the response 201, of an address that is normal once it is normalized: the new
  -- user is an active viewer, the login with that address and any password that the new hash verifies
  -- finds that user, and the credential of every other address and every session are as they were.
  pub registered_can_log_in :
      (password other : String)
      → c.lower (c.strip address) ≡ address
      → c.verify_password password draw.hashed_password ≡ true
      → registered.response.status ≡ 201
      → (user : User) × (registered.response.body ≡ current user)
        × (user.role ≡ viewer)
        × (user.email ≡ address)
        × (authenticate c email password registered.state ≡ (ok user, registered.state))
        × (registered.state.sessions ≡ db.sessions)
        × (get_auth_record_by_email other registered.state.users ≡ (
            if str_eq user.email other
            then some (record { user = user; hashed_password = draw.hashed_password })
            else get_auth_record_by_email other db.users))
  registered_can_log_in password other normal verifies created =
      let free = address_was_free created in
      let run = free-answer free in
      (
        new_row.user,
        ap (λ (a : Answered Db). a.response.body) run,
        refl,
        normal,
        subst
            (λ (a : Answered Db).
              authenticate c email password a.state ≡ (ok new_row.user, a.state))
            (sym run) (logs_in password normal verifies free),
        ap (λ (a : Answered Db). a.state.sessions) run,
        subst (λ (a : Answered Db). Kept new_row other a.state) (sym run) (new_row-Kept other free),
      )
