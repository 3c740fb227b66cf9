-- ===== src/Api/Members.antt =====
-- internal/api/handlers.go: the members of a tenant.
use open_blog.Base.{
  ℕ, ◌+◌, Bool, true, false, not, ◌&&◌, ◌||◌, ◌==◌, nat_eq, string_eq, text_eq_instance, Option,
  none, some, [], Text, String, codes, trim_space, to_lower,
}
use open_blog.Store.Errors.{Result, ok, err}
use open_blog.Store.Rows.{Db}
use open_blog.Store.Accounts.{set_membership_role, remove_membership}
use open_blog.Store.Platform.{insert_invitation}
use open_blog.Authz.Roles.{
  Actor, require, owner, Capability.invite_members, Capability.change_roles,
  Capability.remove_members,
}
use open_blog.Api.Replies.{
  Reply, Body, Handler, Parsed, gate, when, with_request, with_path, commit, lacks, invalid, answer,
  error_reply, service_error, done_or,
}

pub record InviteRequest : Type 0 where
  pub email : Option Text
  pub role : String

abbrev scope_refused : Db → Reply × Db
scope_refused db = (invalid "no tenant in scope", db)

abbrev pub in_scope : (platform : Bool) → Option ℕ → (ℕ → Handler) → Handler
in_scope true t h = scope_refused
in_scope false none h = scope_refused
in_scope false (some t) h = h t

-- `requireTenantScope`: a super admin has none here, whatever the tenant.
unfoldable pub in_tenant : Actor → (ℕ → Handler) → Handler
in_tenant a h = in_scope a.platform a.tenant h

-- `validRole`.
abbrev pub valid_role : String → Bool
valid_role role = role == "author" || (role == "editor" || (role == "admin" || role == "owner"))

-- Who is not an owner may not name one.
abbrev pub oversteps : Actor → String → Bool
oversteps a role = role == "owner" && not (a.role == owner)

abbrev pub blank_email : Option Text → Bool
blank_email none = true
blank_email (some e) = trim_space e == []

abbrev pub address_of : (ℕ → ℕ) → Option Text → Option Text
address_of lower_table none = none
address_of lower_table (some e) = some (to_lower lower_table (trim_space e))

-- Seven days in nanoseconds.
abbrev pub invitation_ttl : ℕ
invitation_ttl = 604_800_000_000_000

abbrev pub created_or_error : (id : ℕ) → Result (Unit {0}) → Reply
created_or_error id (ok _) = answer 201 (Body.id_field id)
created_or_error id (err e) = service_error e

-- `handleMembersInvite`, with the time and the new id.
unfoldable pub members_invite :
    (lower_table : ℕ → ℕ) (now id : ℕ) → Actor → Parsed InviteRequest → Handler
unfolding require gate when with_request with_path commit in_tenant
members_invite lower_table now id a req = gate (lacks a invite_members) (
    in_tenant a (λ t. with_request req (λ r.
      gate (when (blank_email r.email) (invalid "email is required")) (
        gate (when (not (valid_role r.role)) (invalid "invalid role")) (
          gate
            (when (oversteps a r.role)
              (error_reply 403 "forbidden" (codes "only owners may invite owners")))
            (commit (created_or_error id) (
              insert_invitation id t (address_of lower_table r.email) r.role
                (now + invitation_ttl))))))))

-- `handleMembersSetRole`: the user of the path, and the role.
unfoldable pub members_set_role : Actor → (user : Option ℕ) → Parsed String → Handler
unfolding require gate when with_request with_path commit in_tenant
members_set_role a user req = gate (lacks a change_roles) (
    in_tenant a (λ t. with_path user "invalid user id" (λ u. with_request req (λ role.
      gate (when (not (valid_role role)) (invalid "invalid role")) (
        gate
          (when (oversteps a role)
            (error_reply 403 "forbidden" (codes "only owners may grant owner")))
          (commit (done_or "member not found") (set_membership_role t u role)))))))

-- `handleMembersRemove`.
unfoldable pub members_remove : Actor → (user : Option ℕ) → Handler
unfolding require gate when with_request with_path commit in_tenant
members_remove a user = gate (lacks a remove_members) (
    in_tenant a (λ t. with_path user "invalid user id" (λ u.
      gate (when (u == a.user_id) (invalid "cannot remove self"))
        (commit (done_or "member not found") (remove_membership t u)))))
