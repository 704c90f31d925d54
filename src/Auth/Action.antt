-- ===== src/Auth/Action.antt =====
-- A service method on the database session: it returns or raises, and leaves the rows as it has
-- written them. Commit and rollback are the request's.
use mathlib.Core.Path.{ap}
use opsflow.Prelude.{◌≡◌, refl, arith, Bool, Option, none, some, Result, ok, err, if◌then◌else◌}
use opsflow.Auth.Sessions.{SessionTable}
use opsflow.Auth.Users.{UserTable}

pub record Db : Type 0 where
  pub users : UserTable
  pub sessions : SessionTable

-- The exceptions of authentication_service.py.
pub data AuthError : Type 0 where
  invalid_credentials inactive_user reauthentication_failed password_change_refused : AuthError
  invalid_csrf_token : AuthError
  -- with the user id and the session id
  refresh_token_reuse : (user_id session_id : Prim.Native.Nat.ℕ) → AuthError

abbrev pub Action : Type 0 → Type 0
Action A = Db → Result AuthError A × Db

infixl 5 ◌>>=◌ ◌>>◌
abbrev pub ◌>>=◌ : {A B : Type 0} → Action A → (A → Action B) → Action B
◌>>=◌ m f db = let (r, db') = m db in elim r [ ok a ↦ f a db' | err e ↦ (err e, db') ]

abbrev pub ◌>>◌ : {A B : Type 0} → Action A → Action B → Action B
m >> k = m >>= λ _. k

module _ {A : Type 0} where
  abbrev pub pure : A → Action A
  pure a db = (ok a, db)

  abbrev pub raise : AuthError → Action A
  raise e db = (err e, db)

  abbrev pub or_raise : Option A → AuthError → Action A
  or_raise none e = raise e
  or_raise (some a) e = pure a

  abbrev pub gets : (Db → A) → Action A
  gets f db = (ok (f db), db)

abbrev pub raise_if : Bool → AuthError → Action Unit
raise_if b e db = (if b then err e else ok tt, db)

abbrev pub update_sessions : (SessionTable → SessionTable) → Action Unit
update_sessions f db = (ok tt, record db { sessions = f db.sessions })

-- The run of a bind, where the run of its first action is known.
pub >>=-run :
    {A B : Type 0} (m : Action A) (f : A → Action B) (db : Db) {db' : Db} {r : Result AuthError A}
    → m db ≡ (r, db')
    → (m >>= f) db ≡ (elim r [ ok a ↦ f a db' | err e ↦ (err e, db') ])
>>=-run m f db h = ap (λ p. elim p.0 [ ok a ↦ f a p.1 | err e ↦ (err e, p.1) ]) h

-- A bind that returns: its first action has returned, and so has its second.
pub >>=-inversion :
    {A B : Type 0} (m : Action A) (f : A → Action B) (db db' : Db) (b : B)
    → (m >>= f) db ≡ (ok b, db')
    → (a : A) × (mid : Db) × (m db ≡ (ok a, mid)) × (f a mid ≡ (ok b, db'))
>>=-inversion {A} m f db db' b h = from (m db).0 (m db).1 refl h
  where
    from :
        (r : Result AuthError A) (mid : Db)
        → m db ≡ (r, mid)
        → (elim r [ ok a ↦ f a mid | err e ↦ (err e, mid) ]) ≡ (ok b, db')
        → (a : A) × (mid : Db) × (m db ≡ (ok a, mid)) × (f a mid ≡ (ok b, db'))
    from (ok a) mid e h' = (a, mid, e, h')
    from (err x) mid e h' = ground arith
