-- ===== src/Store/Users.antt =====
-- The queries on users and invitations of internal/store/queries.go. `sql_lower` is Postgres' `lower`.
use open_blog.Base.{
  ℕ, Bool, false, not, ◌&&◌, ◌||◌, ◌==◌, nat_eq, text_eq_instance, if◌then◌else◌, Option, none,
  some, ◌∷◌, any, find, Text, ltb, is_some,
}
use open_blog.Store.Errors.{Error, ok, err}
use open_blog.Store.Rows.{User, Invitation}
use open_blog.Store.Tx.{Read, Tx, row}

module _ (sql_lower : Text → Text) where
  abbrev pub has_email : Text → User → Bool
  has_email email u = sql_lower u.email == sql_lower email

  unfoldable pub get_user_by_email : Text → Read User
  get_user_by_email email db = row (find (has_email email) db.users)

  abbrev pub email_is : Text → Option Text → Bool
  email_is email none = false
  email_is email (some e) = sql_lower e == sql_lower email

  abbrev pub is_pending : (now : ℕ) → Text → Invitation → Bool
  is_pending now email i =
      email_is email i.email && (not (is_some i.consumed_at) && ltb now i.expires_at)

  unfoldable pub has_pending_invitation : (now : ℕ) → Text → Read Bool
  has_pending_invitation now email db = ok (any (is_pending now email) db.invitations)

  -- INSERT, with the primary key and the unique index on lower(email).
  unfoldable pub create_user :
      (id : ℕ) → (email display_name : Text) → (password_hash : Option Text) → Tx (Unit {0})
  create_user id email display_name password_hash db =
      let inserted : User = record {
        id = id;
        email = email;
        password_hash = password_hash;
        display_name = display_name;
        super_admin = false;
      } in
      if any (λ u. u.id == id || has_email email u) db.users
      then err Error.unique_violation
      else ok (tt, record db { users = inserted ∷ db.users })
