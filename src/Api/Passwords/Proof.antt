-- ===== src/Api/Passwords/Proof.antt =====
-- backend/app/api/routes/auth.py: what a reauthentication is good for.
use Prim.Native.String
use text.Mathlib.Text.{◌==◌ as str_eq}
use opsflow.Prelude.{
  ℕ, ◌≡◌, refl, sym, subst, ◌∙◌, ==_refl, true, String, Option, none, some, Result, ok, err, arith,
  inl, inr, Bool-cases, if◌then◌else◌,
}
use opsflow.Auth.Action.{Db, reauthentication_failed, >>=-run}
use opsflow.Auth.Users.{User, UserAuthRecord, get_auth_record_by_email}
use opsflow.Auth.Tokens.{
  Crypto, Payload, str, create_reauthentication_fingerprint, decode_reauthentication_token,
  reauthentication_credential_matches,
}
use opsflow.Auth.Tokens.Proofs.{create_reauthentication_token}
use opsflow.Auth.Service.{require_active_user}
use opsflow.Auth.Resolve.{reauthenticate, reauthenticate-inversion}
use opsflow.Auth.Password.{
  PasswordChangeResult, current_credential, replace_credential, change_password,
}

module _ (c : Crypto) (encode_reauth : Payload → String) (now lifetime token_id later : ℕ)
    (user : User) where
  abbrev email : String
  email = c.lower (c.strip user.email)

  abbrev token_for : String → String
  token_for hash = create_reauthentication_token c encode_reauth now lifetime token_id user.id hash

  -- What `jwt.decode` gives of a proof that it accepts: the claims that the proof was made of.
  abbrev pub IsReadBack : String → Payload → Type 0
  IsReadBack hash decoded =
      (decoded.type ≡ str "reauth")
      × (decoded.sub ≡ str (c.uuid_text user.id))
      × (decoded.jti ≡ str (c.uuid_text token_id))
      × (decoded.cv ≡ str (create_reauthentication_fingerprint c hash))

  -- What a change of the password does with a proof, as it is decoded, that was made of a hash.
  abbrev pub proved :
      Option Payload
      → (hash : String) (current : UserAuthRecord) (new replacement : String) → Db
      → Result opsflow.Auth.Action.AuthError PasswordChangeResult × Db
  proved none hash current new replacement db = (err reauthentication_failed, db)
  proved (some decoded) hash current new replacement db =
      if str_eq (create_reauthentication_fingerprint c current.hashed_password)
        (create_reauthentication_fingerprint c hash)
      then replace_credential c later user new replacement current db
      else (err reauthentication_failed, db)

  -- The texts of UUIDs are read back, a fingerprint has the 64 digits of its digest, and a proof that
  -- decodes is read back.
  module _ (user_uuid : c.uuid (c.uuid_text user.id) ≡ some user.id)
      (token_uuid : c.uuid (c.uuid_text token_id) ≡ some token_id)
      (digits : (hash : String) → String.count (create_reauthentication_fingerprint c hash) ≡ 64)
      (read_back : (hash : String) (decoded : Payload)
        → c.decode_reauth later (token_for hash) ≡ some decoded
        → IsReadBack hash decoded) where
    decoded_claims :
        (hash : String) (decoded : Payload)
        → c.decode_reauth later (token_for hash) ≡ some decoded
        → decode_reauthentication_token c later (token_for hash)
          ≡ some (record {
            user_id = user.id;
            token_id = token_id;
            credential_fingerprint = create_reauthentication_fingerprint c hash;
          })
    unfolding decode_reauthentication_token
    decoded_claims hash decoded read =
        let (type, sub, jti, cv) = read_back hash decoded read in
        rw
          (
            decode_reauthentication_token,
            read,
            type,
            sub,
            user_uuid,
            jti,
            token_uuid,
            cv,
            digits hash,
          )
          refl

    credential_run :
        (row : UserAuthRecord) (db : Db) (hash : String) (decoded : Payload)
        → c.decode_reauth later (token_for hash) ≡ some decoded
        → user.is_active ≡ true
        → get_auth_record_by_email email db.users ≡ some row
        → row.user.id ≡ user.id
        → current_credential c later user (token_for hash) db ≡ (
          (if reauthentication_credential_matches c row.hashed_password
                (create_reauthentication_fingerprint c hash)
              then ok row
              else err reauthentication_failed),
          db,
        )
    unfolding current_credential require_active_user
    credential_run row db hash decoded read active found own =
        let mine = ==_refl user.id in let claims = decoded_claims hash decoded read in ground arith

    change_run :
        (answer : Option Payload) (hash : String) (current : UserAuthRecord)
        (new replacement : String) (db : Db)
        → c.decode_reauth later (token_for hash) ≡ answer
        → user.is_active ≡ true
        → get_auth_record_by_email email db.users ≡ some current
        → current.user.id ≡ user.id
        → change_password c later user (token_for hash) new replacement db
          ≡ proved answer hash current new replacement db
    unfolding change_password decode_reauthentication_token reauthentication_credential_matches
        require_active_user
    change_run none hash current new replacement db read active found own =
        rw (change_password, current_credential, active, read) refl
    change_run (some decoded) hash current new replacement db read active found own =
        let run =
          >>=-run (current_credential c later user (token_for hash))
            (replace_credential c later user new replacement) db
            (credential_run current db hash decoded read active found own) in
        run
        ∙ (elim (Bool-cases (
            str_eq (create_reauthentication_fingerprint c current.hashed_password)
              (create_reauthentication_fingerprint c hash))) [
                | inl same ↦ rw same refl
                | inr differs ↦ rw differs refl
              ])

    -- A proof is issued for a password that the stored hash of an active user verifies, and writes
    -- nothing. At a later time, where the user's address leads to the user's record, a change of the
    -- password with the proof goes on to the new password if the proof still decodes and the stored
    -- hash has the fingerprint of the hash that it was made of. Else, an expired proof included, it is
    -- refused and writes nothing. This is with a decoding that gives back the claims of a proof that it
    -- accepts, texts of UUIDs that are read back, and fingerprints of 64 digits.
    pub proof_follows_hash :
        (password token : String) (db db' later_db : Db) (current : UserAuthRecord)
        (new replacement : String)
        → reauthenticate c encode_reauth now lifetime token_id user password db ≡ (ok token, db')
        → get_auth_record_by_email email later_db.users ≡ some current
        → current.user.id ≡ user.id
        → (row : UserAuthRecord) × (get_auth_record_by_email email db.users ≡ some row)
          × (user.is_active ≡ true)
          × (c.verify_password password row.hashed_password ≡ true)
          × (db ≡ db')
          × (change_password c later user token new replacement later_db
              ≡ proved
                  (c.decode_reauth later token)
                  row.hashed_password
                  current
                  new
                  replacement
                  later_db)
    proof_follows_hash password token db db' later_db current new replacement issued there mine =
        let (row, found, active, verified, own, made, same) =
          reauthenticate-inversion c encode_reauth now lifetime token_id user password token db db'
            issued in
        (
          row,
          found,
          active,
          verified,
          same,
          subst
              (λ t.
                change_password c later user t new replacement later_db
                ≡ proved (c.decode_reauth later t) row.hashed_password current new replacement
                    later_db)
              (sym made)
              (change_run (c.decode_reauth later (token_for row.hashed_password))
                row.hashed_password current new replacement later_db refl active there mine),
        )
