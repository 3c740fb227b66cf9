-- ===== src/Authz/Roles.antt =====
-- role.go, capability.go, ownership.go, scope.go and actor.go of internal/authz.
use open_blog.Base.{
  ℕ, Bool, true, false, not, ◌||◌, ◌==◌, nat_eq, string_eq, if◌then◌else◌, Option, none, some, leb,
  ltb, String, is_some,
}
use open_blog.Store.Errors.{Error, Result, ok, err}
use open_blog.Store.Rows.{Db}
use open_blog.Store.Tx.{Scope, nil_id, Read}
use open_blog.Store.Accounts.{is_super_admin, membership_role}

-- `type Role int`, ordered author < editor < admin < owner. Like the source's it has other values.
abbrev pub Role : Type 0
Role = ℕ

abbrev pub author : Role
author = 0

abbrev pub editor : Role
editor = 1

abbrev pub admin : Role
admin = 2

abbrev pub owner : Role
owner = 3

unfoldable pub role_text : Role → String
role_text r =
    if r == editor
    then "editor"
    else if r == admin
    then "admin"
    else if r == owner
    then "owner"
    else "author"

unfoldable pub parse_role : String → Result Role
parse_role s =
    if s == "author"
    then ok author
    else if s == "editor"
    then ok editor
    else if s == "admin"
    then ok admin
    else if s == "owner"
    then ok owner
    else err Error.unknown_role

pub data Capability : Type 0 where
  create_draft edit_own_draft upload_media run_import edit_any_post publish_archive : Capability
  view_members invite_members remove_members change_roles tenant_settings : Capability

unfoldable pub role_for : Capability → Role
role_for edit_any_post = editor
role_for publish_archive = editor
role_for view_members = editor
role_for invite_members = admin
role_for remove_members = admin
role_for change_roles = admin
role_for tenant_settings = owner
role_for _ = author

pub record Actor : Type 0 where
  pub user_id : ℕ
  pub tenant : Option ℕ
  pub role : Role
  pub platform : Bool

unfoldable pub can : Actor → Capability → Bool
can a cap =
    if a.platform
    then true
    else if not (is_some a.tenant) || ltb owner a.role
    then false
    else leb (role_for cap) a.role

unfoldable pub require : Actor → Capability → Result (Unit {0})
unfolding can
require a cap = if can a cap then ok tt else err Error.forbidden

unfoldable pub owns_post : Actor → (author_id : ℕ) → Bool
owns_post a author_id =
    if a.platform || not (a.role == author) then true else author_id == a.user_id

abbrev pub scope_at : Option ℕ → Bool → Scope
scope_at (some t) platform = record { tenant_id = t; platform = false }
scope_at none platform = record { tenant_id = nil_id; platform = platform }

unfoldable pub scope_from_actor : Actor → Scope
scope_from_actor a = scope_at a.tenant a.platform

abbrev pub member_actor : (user tenant : ℕ) → Bool → Result Role → Result Actor
member_actor user tenant super (err e) = err e
member_actor user tenant super (ok role) =
    ok (record { user_id = user; tenant = some tenant; role = role; platform = super })

-- The outcome of the membership read: a role, no membership, or another error.
abbrev pub actor_in : (user tenant : ℕ) → Bool → Result String → Result Actor
actor_in user tenant super (ok role) = member_actor user tenant super (parse_role role)
actor_in user tenant true (err Error.not_member) =
    ok (record { user_id = user; tenant = some tenant; role = owner; platform = true })
actor_in user tenant false (err Error.not_member) = err Error.not_member
actor_in user tenant super (err e) = err e

abbrev pub actor_for : (user tenant : ℕ) → Db → Result Bool → Result Actor
actor_for user tenant db (err e) = err e
actor_for user tenant db (ok super) =
    if tenant == nil_id
    then if super
      then ok (record { user_id = user; tenant = none; role = author; platform = true })
      else err Error.not_member
    else actor_in user tenant super (membership_role user tenant db)

unfoldable pub resolve_actor : (user tenant : ℕ) → Read Actor
unfolding parse_role
resolve_actor user tenant db = actor_for user tenant db (is_super_admin user db)
