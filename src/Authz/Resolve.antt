-- ===== src/Authz/Resolve.antt =====
-- What a resolved actor rests on (actor.go).
use open_blog.Base.{
  ℕ, ◌≡◌, ◌≢◌, refl, ◌↔◌, ◌⊎◌, inl, inr, Bool, true, false, some, none, String, arith, ◌==◌, nat_eq,
  Bool-cases, if◌then◌else◌,
}
use open_blog.Store.Errors.{Error, Result, ok, err}
use open_blog.Store.Rows.{Db}
use open_blog.Store.Tx.{nil_id, visible}
use open_blog.Store.Accounts.{is_super_admin, membership_role}
use open_blog.Authz.Roles.{
  Role, Actor, owner, author, parse_role, member_actor, actor_in, actor_for, resolve_actor,
  scope_from_actor,
}
use open_blog.Authz.Isolation.{visible-scope_from_actor}

-- The role that the tables give a user in a tenant: that of the membership, or owner for a super admin
-- who has none.
abbrev pub RoleGiven : (user tenant : ℕ) → Db → Bool → Role → Type 0
RoleGiven user tenant db super role =
    ((name : String) × (membership_role user tenant db ≡ ok name) × (parse_role name ≡ ok role))
    ⊎ ((membership_role user tenant db ≡ err Error.not_member) × (super ≡ true) × (role ≡ owner))

-- The actor that the tables give a user: platform-wide with no active tenant, or in the active one.
abbrev pub IsGiven : (user tenant : ℕ) → Db → Actor → Type 0
IsGiven user tenant db a =
    (a.user_id ≡ user)
    × (is_super_admin user db ≡ ok a.platform)
    × (((tenant ≡ nil_id) × (a.tenant ≡ none) × (a.platform ≡ true))
        ⊎ ((tenant ≢ nil_id)
            × (a.tenant ≡ some tenant)
            × RoleGiven user tenant db a.platform a.role))

module _ (user tenant : ℕ) (db : Db) where
  abbrev Settled : Bool → Actor → Type 0
  Settled super a =
      (a.user_id ≡ user)
      × (a.platform ≡ super)
      × (a.tenant ≡ some tenant)
      × RoleGiven user tenant db a.platform a.role

  member_actor_sound :
      (super : Bool) (name : String) (r : Result Role) (a : Actor)
      → membership_role user tenant db ≡ ok name
      → parse_role name ≡ r
      → member_actor user tenant super r ≡ ok a
      → Settled super a
  member_actor_sound super name (err x) a h k e = cc
  member_actor_sound super name (ok role) a h k e =
      (ground arith, ground arith, ground arith, inl (name, h, ground arith))

  actor_in_sound :
      (super : Bool) (m : Result String) (a : Actor)
      → membership_role user tenant db ≡ m
      → actor_in user tenant super m ≡ ok a
      → Settled super a
  actor_in_sound super (ok name) a h e = member_actor_sound super name (parse_role name) a h refl e
  actor_in_sound true (err Error.not_member) a h e =
      (ground arith, ground arith, ground arith, inr (h, ground arith, ground arith))
  actor_in_sound false (err Error.not_member) a h e = cc
  actor_in_sound super (err x) a h e = cc

  actor_for_sound :
      (r : Result Bool) (a : Actor)
      → is_super_admin user db ≡ r
      → actor_for user tenant db r ≡ ok a
      → IsGiven user tenant db a
  actor_for_sound (err x) a h e = cc
  actor_for_sound (ok super) a h e = elim (Bool-cases (tenant == nil_id)) [
    | inl z ↦ platform_wide super a h z (rw z at e)
    | inr z ↦
        let (u, p, t, g) =
          actor_in_sound super (membership_role user tenant db) a refl (rw z at e) in
        (u, rw p h, inr ((λ n. ground arith), t, g))
  ]
    where
      platform_wide :
          (super : Bool) (a : Actor)
          → is_super_admin user db ≡ ok super
          → (tenant == nil_id) ≡ true
          → (if super
              then ok (record { user_id = user; tenant = none; role = author; platform = true })
              else err Error.not_member)
            ≡ ok a
          → IsGiven user tenant db a
      platform_wide true a h z e =
          (ground arith, ground arith, inl (ground arith, ground arith, ground arith))
      platform_wide false a h z e = cc

-- A resolved actor is what the tables give: the user's own id, platform exactly if the user is a super
-- admin; with no active tenant, a super admin without a tenant; with an active tenant, that tenant and
-- the role of the user's membership there, or owner for a super admin without a membership.
pub resolve_actor-IsGiven :
    (user tenant : ℕ) (db : Db) (a : Actor)
    → resolve_actor user tenant db ≡ ok a
    → IsGiven user tenant db a
unfolding resolve_actor
resolve_actor-IsGiven user tenant db a h =
    actor_for_sound user tenant db (is_super_admin user db) a refl h

-- A user resolved in an active tenant sees the rows of that tenant and of no other, also as a super
-- admin.
pub resolve_actor-visible :
    (user tenant : ℕ) (db : Db) (a : Actor) (u : ℕ)
    → tenant ≢ nil_id
    → resolve_actor user tenant db ≡ ok a
    → (visible (scope_from_actor a) u ≡ true) ↔ (u ≡ tenant)
resolve_actor-visible user tenant db a u n h =
    ground (arith, resolve_actor-IsGiven user tenant db a h, visible-scope_from_actor a u)
