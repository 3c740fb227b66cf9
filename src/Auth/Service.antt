-- ===== src/Auth/Service.antt =====
-- auth.go. SHA-256, argon2, `lower` of Postgres and the new tokens are given, and do not fail.
use open_blog.Base.{
  ℕ, ◌+◌, Bool, ◌||◌, ◌==◌, nat_eq, text_eq_instance, if◌then◌else◌, Option, none, some, [], ◌∷◌,
  Text, codes, ltb, or_else, to_lower, trim_space,
}
use open_blog.Store.Errors.{Error, Result, ok, err}
use open_blog.Store.Rows.{Db, Session, User}
use open_blog.Store.Tx.{Read, nil_id, no_rows_as, scoped, scoped_rw}
use open_blog.Store.Accounts.{
  insert_session, get_session_by_token_hash, delete_session_by_token_hash,
}
use open_blog.Store.Users.{get_user_by_email, has_pending_invitation, create_user}

-- Thirty days in nanoseconds.
abbrev pub token_ttl : ℕ
token_ttl = 2_592_000_000_000_000

-- `sha256.Sum256`, the test of a password against an encoded hash, the encoding of a new one,
-- `lower` of Postgres, and the lower case of code points above ASCII.
pub record AuthExternal : Type 0 where
  pub token_hash : Text → Text
  pub verify_password : (encoded password : Text) → Bool
  pub hash_password : Text → Text
  pub sql_lower : Text → Text
  pub lower_table : ℕ → ℕ

abbrev pub tokened : Text → Result (Unit {0}) × Db → Result Text × Db
tokened token (ok _, db) = (ok token, db)
tokened token (err e, db) = (err e, db)

-- The session as `Verify` reads it.
abbrev pub checked : (now : ℕ) → Result Session → Result (ℕ × ℕ)
checked now (err e) = err e
checked now (ok s) =
    if ltb now s.expires_at
    then ok (s.user_id, or_else s.scope nil_id)
    else err Error.session_expired

-- What stands before the first "@", where that is not at the beginning.
unfoldable pub before_at : Text → Text
before_at [] = []
before_at (c ∷ s) = let rest = c ∷ before_at s in if c == b'@' then [] else rest

abbrev pub display_name_of : (email : Text) → (local : Text) → Text
display_name_of email [] = email
display_name_of email (c ∷ local) = c ∷ local

module _ (ext : AuthExternal) where
  open ext use {token_hash, verify_password, hash_password, sql_lower, lower_table}

  unfoldable pub normalize_email : Text → Text
  normalize_email email = to_lower lower_table (trim_space email)

  -- `Issue`, with the new token and the time.
  unfoldable pub issue :
      (now : ℕ) → (user ttl : ℕ) → (scope : Option ℕ) → (token : Text) → Db → Result Text × Db
  issue now user ttl scope token db =
      if user == nil_id
      then (err Error.invalid_user_id, db)
      else tokened token (
          scoped_rw
            (insert_session (record {
              token_hash = token_hash token;
              user_id = user;
              scope = scope;
              expires_at = now + ttl;
            }))
            db)

  -- `Verify`: the user and the scope, with `uuid.Nil` for none.
  unfoldable pub verify : (now : ℕ) → (token : Text) → Read (ℕ × ℕ)
  verify now token db =
      checked now
        (no_rows_as Error.no_session (scoped (get_session_by_token_hash (token_hash token)) db))

  unfoldable pub logout : (token : Text) → Db → Result (Unit {0}) × Db
  logout token db = scoped_rw (delete_session_by_token_hash (token_hash token)) db

  -- `verifyBestEffort`: without a stored hash the dummy hash is verified, and the result is the same.
  abbrev pub verify_best_effort : Option Text → Text → Result (Unit {0})
  verify_best_effort none password = err Error.invalid_credentials
  verify_best_effort (some stored) password =
      if verify_password stored password then ok tt else err Error.invalid_credentials

  abbrev pub login_checked : ℕ → Result (Unit {0}) → Result ℕ
  login_checked user (ok _) = ok user
  login_checked user (err e) = err e

  abbrev pub login_user : (password : Text) → Result User → Result ℕ
  login_user password (ok u) = login_checked u.id (verify_best_effort u.password_hash password)
  login_user password (err Error.no_rows) = login_checked nil_id (verify_best_effort none password)
  login_user password (err e) = err e

  abbrev pub issue_for : (now : ℕ) → (token : Text) → Result ℕ → Db → Result Text × Db
  issue_for now token (ok user) db = issue now user token_ttl none token db
  issue_for now token (err e) db = (err e, db)

  unfoldable pub login : (now : ℕ) → (email password token : Text) → Db → Result Text × Db
  login now email password token db =
      issue_for now token
        (login_user password (scoped (get_user_by_email sql_lower (normalize_email email)) db)) db

  abbrev pub created : ℕ → Result (Unit {0}) × Db → Result ℕ × Db
  created id (ok _, db) = (ok id, db)
  created id (err e, db) = (err e, db)

  abbrev pub sign_up : (id : ℕ) → (email encoded : Text) → Db → Result ℕ × Db
  sign_up id email encoded db = created id (
      scoped_rw
        (create_user sql_lower id email (display_name_of email (before_at email)) (some encoded))
        db)

  abbrev pub sign_up_if : (id : ℕ) → (email password : Text) → Result Bool → Db → Result ℕ × Db
  sign_up_if id email password (err e) db = (err e, db)
  sign_up_if id email password (ok invited) db =
      if invited then (err Error.invited, db) else sign_up id email (hash_password password) db

  -- `Signup`, with the new id. (`HasPendingInvitation` normalizes the address once more.)
  unfoldable pub signup : (now id : ℕ) → (email password : Text) → Db → Result ℕ × Db
  signup now id email password db =
      let address : Text = normalize_email email in
      if address == codes "" || password == codes ""
      then (err Error.missing_credentials, db)
      else sign_up_if id address password
          (scoped (has_pending_invitation sql_lower now (normalize_email address)) db) db
