-- ===== src/Api/Escalation.antt =====
-- internal/api/handlers.go: what the handlers of the members may change.
use open_blog.Base.{
  ℕ, ◌≡◌, refl, arith, Bool, true, false, not, ◌&&◌, ◌==◌, nat_eq, string_eq, text_eq_instance,
  Option, List, [], ◌∷◌, Text, String, any, select, update_where,
}
use open_blog.Store.Rows.{Db, Membership, Invitation}
use open_blog.Store.Tx.Laws.{Keeps}
use open_blog.Store.Accounts.{is_membership, with_role, set_membership_role, remove_membership}
use open_blog.Store.Platform.{insert_invitation}
use open_blog.Authz.Roles.{Actor, owner}
use open_blog.Api.Replies.{Parsed}
use open_blog.Api.Members.{
  InviteRequest, oversteps, members_invite, members_set_role, members_remove,
}
use open_blog.Api.Walk.{
  Preserves-members_invite, Preserves-members_set_role, Preserves-members_remove,
}

abbrev pub is_owner_at : (tenant user : ℕ) → Membership → Bool
is_owner_at tenant user m = is_membership tenant user m && m.role == "owner"

-- The user owns the tenant.
abbrev pub is_owner : Db → (tenant user : ℕ) → Bool
is_owner db tenant user = any (is_owner_at tenant user) db.memberships

abbrev is_owner_invitation : Invitation → Bool
is_owner_invitation i = i.role == "owner"

-- The invitations to own a tenant.
abbrev pub owner_invitations : Db → List Invitation
owner_invitations db = select is_owner_invitation db.invitations

-- Nobody became an owner, and nobody was invited as one.
abbrev pub NoNewOwner : Db → Db → Type 0
NoNewOwner db db' =
    ((tenant user : ℕ) → (is_owner db' tenant user && not (is_owner db tenant user)) ≡ false)
    × (owner_invitations db' ≡ owner_invitations db)

never : (b : Bool) → (b && not b) ≡ false
never true = refl
never false = refl

NoNewOwner-still : (db : Db) → NoNewOwner db db
NoNewOwner-still db = ((λ t u. never (is_owner db t u)), refl)

set_role-owners :
    (p : Membership → Bool) (role : String) (tenant user : ℕ)
    → (role == "owner") ≡ false
    → (ms : List Membership)
    → (any (is_owner_at tenant user) (update_where p (with_role role) ms)
        && not (any (is_owner_at tenant user) ms))
      ≡ false
set_role-owners p role tenant user h [] = refl
set_role-owners p role tenant user h (m ∷ ms) =
    ground (arith, set_role-owners p role tenant user h ms)

select-owners :
    (p : Membership → Bool) (tenant user : ℕ) (ms : List Membership)
    → (any (is_owner_at tenant user) (select p ms) && not (any (is_owner_at tenant user) ms))
      ≡ false
select-owners p tenant user [] = refl
select-owners p tenant user (m ∷ ms) = ground (arith, select-owners p tenant user ms)

Keeps-set_role :
    (t u : ℕ) (role : String)
    → (role == "owner") ≡ false
    → Keeps NoNewOwner (set_membership_role t u role)
unfolding set_membership_role
Keeps-set_role t u role h = record {
  keeps = λ db a db' k.
      let e : db'.memberships ≡ update_where (is_membership t u) (with_role role) db.memberships =
        ground arith in
      let i : db'.invitations ≡ db.invitations = ground arith in
      (
        (λ tenant user.
            rw e (set_role-owners (is_membership t u) role tenant user h db.memberships)),
        rw i refl,
      );
}

Keeps-remove : (t u : ℕ) → Keeps NoNewOwner (remove_membership t u)
unfolding remove_membership
Keeps-remove t u = record {
  keeps = λ db a db' k.
      let e : db'.memberships ≡ select (λ m. not (is_membership t u m)) db.memberships =
        ground arith in
      let i : db'.invitations ≡ db.invitations = ground arith in
      (
        (λ tenant user.
            rw e (select-owners (λ m. not (is_membership t u m)) tenant user db.memberships)),
        rw i refl,
      );
}

Keeps-invite :
    (id t : ℕ) (email : Option Text) (role : String) (expires : ℕ)
    → (role == "owner") ≡ false
    → Keeps NoNewOwner (insert_invitation id t email role expires)
unfolding insert_invitation
Keeps-invite id t email role expires h = record {
  keeps = λ db a db' k.
      let e : db'.memberships ≡ db.memberships = ground arith in
      let i : owner_invitations db' ≡ owner_invitations db = ground arith in
      ((λ tenant user. rw e (never (is_owner db tenant user))), i);
}

not_owner :
    (a : Actor) (role : String)
    → (a.role == owner) ≡ false
    → oversteps a role ≡ false
    → (role == "owner") ≡ false
not_owner a role h o = ground arith

-- Whatever an actor who is no owner asks of the members' handlers, nobody owns a tenant afterwards who did
-- not before, and no invitation to own one is added.
pub members-NoNewOwner :
    (a : Actor) (lower_table : ℕ → ℕ) (now id : ℕ) (invite : Parsed InviteRequest) (user : Option ℕ)
    (role : Parsed String) (db : Db)
    → (a.role == owner) ≡ false
    → NoNewOwner db (members_invite lower_table now id a invite db).1
      × NoNewOwner db (members_set_role a user role db).1
      × NoNewOwner db (members_remove a user db).1
members-NoNewOwner a lower_table now id invite user role db h = (
  (Preserves-members_invite NoNewOwner NoNewOwner-still a lower_table now id invite
        (λ t email r expires e o. Keeps-invite id t email r expires (not_owner a r h o))).preserves
      db,
  (Preserves-members_set_role NoNewOwner NoNewOwner-still a user role
        (λ t u r e o. Keeps-set_role t u r (not_owner a r h o))).preserves
      db,
  (Preserves-members_remove NoNewOwner NoNewOwner-still a user
        (λ t u e o. Keeps-remove t u)).preserves
      db,
)
