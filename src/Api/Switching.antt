-- ===== src/Api/Switching.antt =====
-- internal/api/handlers.go, internal/api/middleware.go: the active tenant after `handleSetTenant`.
use open_blog.Base.{
  ℕ, ◌≡◌, refl, sym, ap, arith, Bool, true, false, not, ◌&&◌, ◌==◌, nat_eq, string_eq,
  text_eq_instance, Option, none, some, Text, String, any, find, find-any, find-update_where,
  update_where, All, All-find, ltb, Bool-cases, inl, inr,
}
use open_blog.Store.Errors.{Result, ok}
use open_blog.Store.Rows.{Db, Session, Membership}
use open_blog.Store.Tx.{nil_id, scoped, scoped_rw}
use open_blog.Store.Accounts.{
  is_membership, role_of, has_hash, scoped_to, is_super_admin, membership_role, set_session_scope,
  get_session_by_token_hash,
}
use open_blog.Store.Platform.{known_role}
use open_blog.Authz.Roles.{Role, Actor, owner, parse_role, actor_in, member_actor, resolve_actor}
use open_blog.Auth.Service.{AuthExternal, verify}
use open_blog.Api.Replies.{parsed}
use open_blog.Api.Session.{
  Credentials, session_token, is_refused, not_in, actor_or_session, authenticate, handle_set_tenant,
}
use open_blog.Api.Admission.{IsAdmitted, authenticate-IsAdmitted}

-- The middleware admits the user in the tenant, with the same rights over the platform.
pub record StandsIn (tenant : ℕ) (a : Actor) (admitted : Option Actor) : Type 0 where
  pub actor : Actor
  pub is_admitted : admitted ≡ some actor
  pub user : actor.user_id ≡ a.user_id
  pub active : actor.tenant ≡ some tenant
  pub platform : actor.platform ≡ a.platform

known_role-parse_role :
    (name : String) → known_role name ≡ true → (role : Role) × (parse_role name ≡ ok role)
unfolding parse_role
known_role-parse_role name h = elim (Bool-cases (name == "author")) [
  | inl e ↦ (0, rw e refl)
  | inr e ↦ elim (Bool-cases (name == "editor")) [
    | inl f ↦ (1, rw (e, f) refl)
    | inr f ↦ elim (Bool-cases (name == "admin")) [
      | inl g ↦ (2, rw (e, f, g) refl)
      | inr g ↦ let o : (name == "owner") ≡ true = ground arith in (3, rw (e, f, g, o) refl)
    ]
  ]
]

module _ (tenant : ℕ) (a : Actor) where
  named-StandsIn :
      (super : Bool) (r : Result Role) (role : Role)
      → a.platform ≡ super
      → r ≡ ok role
      → StandsIn tenant a
          (actor_or_session a.user_id tenant (member_actor a.user_id tenant super r))
  named-StandsIn super r role p e = record {
    actor = record { user_id = a.user_id; tenant = some tenant; role = role; platform = super };
    is_admitted = rw e refl;
    user = refl;
    active = refl;
    platform = sym p;
  }

  member-StandsIn :
      (o : Option Membership)
      → ((m : Membership) → o ≡ some m → known_role m.role ≡ true)
      → (super : Bool) → a.platform ≡ super
      → (not super && is_refused (role_of o)) ≡ false
      → StandsIn tenant a
          (actor_or_session a.user_id tenant (actor_in a.user_id tenant super (role_of o)))
  member-StandsIn (some m) k true e h =
      let (role, p) = known_role-parse_role m.role (k m refl) in
      named-StandsIn true (parse_role m.role) role e p
  member-StandsIn (some m) k false e h =
      let (role, p) = known_role-parse_role m.role (k m refl) in
      named-StandsIn false (parse_role m.role) role e p
  member-StandsIn none k true e h = record {
    actor = record { user_id = a.user_id; tenant = some tenant; role = owner; platform = true };
    is_admitted = refl;
    user = refl;
    active = refl;
    platform = sym e;
  }
  member-StandsIn none k false e h = cc

  resolved-StandsIn :
      (db : Db)
      → All (λ m. known_role m.role ≡ true) db.memberships
      → (tenant == nil_id) ≡ false
      → is_super_admin a.user_id db ≡ ok a.platform
      → (not a.platform && is_refused (membership_role a.user_id tenant db)) ≡ false
      → StandsIn tenant a (actor_or_session a.user_id tenant (resolve_actor a.user_id tenant db))
  unfolding resolve_actor membership_role
  resolved-StandsIn db known z super h =
      rw (super, z)
        (member-StandsIn (find (is_membership tenant a.user_id) db.memberships)
          (λ m e.
            All-find (λ m. known_role m.role ≡ true) (is_membership tenant a.user_id) db.memberships
              known e)
          a.platform refl h)

-- The session with the tenant.
abbrev switched : (hash : Text) → (tenant : ℕ) → Db → Db
switched hash tenant db = record db {
  sessions = update_where (has_hash hash) (scoped_to (some tenant)) db.sessions;
}

module _ (auth_ext : AuthExternal) (now : ℕ) (c : Credentials) (tenant : ℕ) (a : Actor)
    (db : Db) where
  switched-StandsIn :
      (s : Session)
      → find (has_hash (auth_ext.token_hash (session_token c))) db.sessions ≡ some s
      → ltb now s.expires_at ≡ true
      → s.user_id ≡ a.user_id
      → StandsIn tenant a (actor_or_session a.user_id tenant (resolve_actor a.user_id tenant db))
      → StandsIn tenant a
          (authenticate auth_ext now c (switched (auth_ext.token_hash (session_token c)) tenant db))
  unfolding authenticate verify scoped get_session_by_token_hash resolve_actor membership_role
      is_super_admin
  switched-StandsIn s e live user h =
      let hash : Text = auth_ext.token_hash (session_token c) in
      rw
        (
          find-update_where (has_hash hash) (scoped_to (some tenant)) db.sessions s (λ y. refl) e,
          live,
          user,
        )
        h

  -- Who is admitted and switches to a tenant with success is admitted in that tenant from then on, by the same
  -- token at the same time, as the same user and with the same rights over the platform. The user's row says
  -- so of the platform, and the roles of memberships are those that their CHECK allows.
  pub set_tenant-StandsIn :
      All (λ m. known_role m.role ≡ true) db.memberships
      → is_super_admin a.user_id db ≡ ok a.platform
      → authenticate auth_ext now c db ≡ some a
      → (handle_set_tenant auth_ext (session_token c) a (parsed tenant) db).0.status ≡ 200
      → StandsIn tenant a (
          authenticate auth_ext now c
            (handle_set_tenant auth_ext (session_token c) a (parsed tenant) db).1)
  unfolding handle_set_tenant set_session_scope scoped_rw scoped
  set_tenant-StandsIn known super h k =
      let w : IsAdmitted (auth_ext.token_hash (session_token c)) now a db =
        authenticate-IsAdmitted auth_ext now c a db h in
      let user : w.session.user_id ≡ a.user_id = elim w.given [
        | inl g ↦ sym g.0
        | inr g ↦ sym (ap (λ (x : Actor). x.user_id) g.1)
      ] in
      let live : ltb now w.session.expires_at ≡ true = ground (arith, w.live) in
      let there : any (has_hash (auth_ext.token_hash (session_token c))) db.sessions ≡ true =
        find-any _ db.sessions w.stored in
      elim (Bool-cases (tenant == nil_id)) [
        | inl z ↦ let n : ◌≡◌ {A = ℕ} 422 200 = rw z at k in absurd (ground arith)
        | inr z ↦ elim (Bool-cases (not_in auth_ext a tenant db)) [
          | inl f ↦ let n : ◌≡◌ {A = ℕ} 403 200 = rw (z, f) at k in absurd (ground arith)
          | inr f ↦
              rw (z, f, there)
                (switched-StandsIn w.session w.stored live user
                  (resolved-StandsIn tenant a db known z super f))
        ]
      ]
