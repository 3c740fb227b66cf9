-- ===== src/Api/Walk.antt =====
-- What the statements of the members' handlers keep, the handlers keep.
use open_blog.Base.{ℕ, ◌≡◌, false, ◌==◌, nat_eq, Option, some, Text, String}
use open_blog.Store.Rows.{Db}
use open_blog.Store.Tx.Laws.{Keeps}
use open_blog.Store.Accounts.{set_membership_role, remove_membership}
use open_blog.Store.Platform.{insert_invitation}
use open_blog.Authz.Roles.{Actor}
use open_blog.Api.Replies.{Parsed}
use open_blog.Api.Members.{
  InviteRequest, oversteps, members_invite, members_set_role, members_remove,
}
use open_blog.Api.Laws.{
  Preserves, Preserves-when, Preserves-gate, Preserves-request, Preserves-path, Preserves-in_tenant,
  Preserves-commit,
}

ruleset handler_rules = (
  Preserves-when, Preserves-gate, Preserves-request, Preserves-path, Preserves-in_tenant,
  Preserves-commit,
)

module _ (R : Db → Db → Type 0) (still : (db : Db) → R db db) (a : Actor) where
  pub Preserves-members_invite :
      (lower_table : ℕ → ℕ) (now id : ℕ) (req : Parsed InviteRequest)
      → ((t : ℕ) (email : Option Text) (role : String) (expires : ℕ)
          → a.tenant ≡ some t
          → oversteps a role ≡ false
          → Keeps R (insert_invitation id t email role expires))
      → Preserves R (members_invite lower_table now id a req)
  unfolding members_invite
  Preserves-members_invite lower_table now id req k = search (handler_rules, k) depth 12

  pub Preserves-members_set_role :
      (user : Option ℕ) (req : Parsed String)
      → ((t u : ℕ) (role : String)
          → a.tenant ≡ some t
          → oversteps a role ≡ false
          → Keeps R (set_membership_role t u role))
      → Preserves R (members_set_role a user req)
  unfolding members_set_role
  Preserves-members_set_role user req k = search (handler_rules, k) depth 12

  pub Preserves-members_remove :
      (user : Option ℕ)
      → ((t u : ℕ) → a.tenant ≡ some t → (u == a.user_id) ≡ false → Keeps R (remove_membership t u))
      → Preserves R (members_remove a user)
  unfolding members_remove
  Preserves-members_remove user k = search (handler_rules, k) depth 12
