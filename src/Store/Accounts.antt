-- ===== src/Store/Accounts.antt =====
-- The queries on users, memberships, sessions, invitations and identities of
-- internal/store/store.go and internal/store/queries.go. None of these tables has row-level security.
use open_blog.Base.{
  ℕ, Bool, not, ◌&&◌, ◌==◌, nat_eq, string_eq, text_eq_instance, Option, none, some, ◌∷◌,
  if◌then◌else◌, any, find, select, update_where, Text, String,
}
use open_blog.Store.Errors.{Error, Result, ok, err}
use open_blog.Store.Rows.{User, Membership, Session}
use open_blog.Store.Tx.{Read, Tx, row}

-- `select super_admin from users where id = $1`; no row is `ErrNotMember`.
abbrev super_of : Option User → Result Bool
super_of none = err Error.not_member
super_of (some u) = ok u.super_admin

unfoldable pub is_super_admin : ℕ → Read Bool
is_super_admin user db = super_of (find (λ u. u.id == user) db.users)

abbrev pub role_of : Option Membership → Result String
role_of none = err Error.not_member
role_of (some m) = ok m.role

abbrev pub is_membership : (tenant user : ℕ) → Membership → Bool
is_membership tenant user m = m.user_id == user && m.tenant_id == tenant

unfoldable pub membership_role : (user tenant : ℕ) → Read String
membership_role user tenant db = role_of (find (is_membership tenant user) db.memberships)

abbrev pub with_role : String → Membership → Membership
with_role role m = record m { role = role }

unfoldable pub set_membership_role : (tenant user : ℕ) → String → Tx (Unit {0})
set_membership_role tenant user role db =
    if any (is_membership tenant user) db.memberships
    then ok (
      tt,
      record db {
        memberships = update_where (is_membership tenant user) (with_role role) db.memberships;
      },
    )
    else err Error.no_rows

unfoldable pub remove_membership : (tenant user : ℕ) → Tx (Unit {0})
remove_membership tenant user db =
    if any (is_membership tenant user) db.memberships
    then ok (
      tt,
      record db { memberships = select (λ m. not (is_membership tenant user m)) db.memberships },
    )
    else err Error.no_rows

-- INSERT … ON CONFLICT (tenant_id, user_id) DO NOTHING, with the foreign keys.
unfoldable pub add_membership_if_absent : (tenant user : ℕ) → String → Tx (Unit {0})
add_membership_if_absent tenant user role db =
    let inserted : Membership = record { tenant_id = tenant; user_id = user; role = role } in
    if any (is_membership tenant user) db.memberships
    then ok (tt, db)
    else if not (any (λ t. t.id == tenant) db.tenants && any (λ u. u.id == user) db.users)
    then err Error.foreign_key_violation
    else ok (tt, record db { memberships = inserted ∷ db.memberships })

abbrev pub has_hash : Text → Session → Bool
has_hash hash s = s.token_hash == hash

unfoldable pub insert_session : Session → Tx (Unit {0})
insert_session s db =
    if any (has_hash s.token_hash) db.sessions
    then err Error.unique_violation
    else if not (any (λ u. u.id == s.user_id) db.users)
    then err Error.foreign_key_violation
    else ok (tt, record db { sessions = s ∷ db.sessions })

unfoldable pub get_session_by_token_hash : Text → Read Session
get_session_by_token_hash hash db = row (find (has_hash hash) db.sessions)

unfoldable pub delete_session_by_token_hash : Text → Tx (Unit {0})
delete_session_by_token_hash hash db =
    ok (tt, record db { sessions = select (λ s. not (has_hash hash s)) db.sessions })

abbrev pub scoped_to : Option ℕ → Session → Session
scoped_to scope s = record s { scope = scope }

unfoldable pub set_session_scope : Text → Option ℕ → Tx (Unit {0})
set_session_scope hash scope db =
    if any (has_hash hash) db.sessions
    then ok
        (tt, record db { sessions = update_where (has_hash hash) (scoped_to scope) db.sessions })
    else err Error.no_rows
