-- ===== src/Api/Isolation.antt =====
-- internal/api/handlers.go: the handlers of members and tenants and the rows of the other tenants.
use open_blog.Base.{
  ℕ, ◌≡◌, refl, arith, true, false, not, nat_eq, Option, none, some, [], Text, String, or_else,
}
use mathlib.Core.Path.{subst}
use open_blog.Store.Rows.{Db, JobData}
use open_blog.Store.Tx.Laws.{Keeps, Keeps-bind, Keeps-pure}
use open_blog.Store.Tenants.{update_tenant}
use open_blog.Store.Accounts.{set_membership_role, remove_membership}
use open_blog.Store.Platform.{insert_invitation}
use open_blog.Authz.Roles.{Actor}
use open_blog.Api.Replies.{Handler, Parsed, done_or}
use open_blog.Api.Members.{InviteRequest, members_invite, members_set_role, members_remove}
use open_blog.Api.Tenants.{
  CreateRequest, UpdateRequest, is_own, tenant_or_error, tenant_manageable, forbidden_reply,
  managed, purge_site, tenants_create, tenants_update_tx, tenants_update, tenants_delete_tx,
  tenants_delete,
}
use open_blog.Api.Laws.{
  Preserves, Preserves-when, Preserves-path, Preserves-request, Preserves-commit,
}
use open_blog.Api.Walk.{
  Preserves-members_invite, Preserves-members_set_role, Preserves-members_remove,
}
use open_blog.Api.Elsewhere.{
  SameElsewhere, elsewhere-still, elsewhere-comp, Keeps-set_role, Keeps-remove, Keeps-invite,
  Keeps-update_tenant, Keeps-delete_tenant, Keeps-enqueue,
}

module _ (R : Db → Db → Type 0) (still : (db : Db) → R db db) where
  pub Preserves-managed :
      (a : Actor) (path : Option ℕ) (h : ℕ → Handler)
      → ((id : ℕ) → tenant_manageable a id ≡ true → Preserves R (h id))
      → Preserves R (managed a path h)
  unfolding managed
  Preserves-managed a path h k = Preserves-path R still path "invalid tenant id" _ (λ id.
      Preserves-when R still (not (tenant_manageable a id)) (forbidden_reply "forbidden") (h id)
        (λ e. k id (ground arith)))

own-eq : (id t : ℕ) (o : Option ℕ) → o ≡ some t → is_own id o ≡ true → t ≡ id
own-eq id t none e h = cc
own-eq id t (some u) e h = ground arith

-- An actor who is not of the platform manages no tenant but the own one, and only as its owner.
managed-own :
    (a : Actor) (t id : ℕ)
    → a.platform ≡ false
    → a.tenant ≡ some t
    → tenant_manageable a id ≡ true
    → t ≡ id
managed-own a t id p e h = own-eq id t a.tenant e (ground arith)

module _ (id_text : ℕ → Text) (t : ℕ) where
  Keeps-update_tx :
      (now job_id : ℕ) (r : UpdateRequest)
      → Keeps (SameElsewhere t) (tenants_update_tx id_text now job_id t r)
  unfolding tenants_update_tx
  Keeps-update_tx now job_id r =
      Keeps-bind (SameElsewhere t) (elsewhere-comp t)
        (update_tenant now t (or_else r.name []) (or_else r.settings [])) _
        (Keeps-update_tenant t now (or_else r.name []) (or_else r.settings []))
        (λ x.
          Keeps-bind (SameElsewhere t) (elsewhere-comp t)
            (purge_site id_text now job_id t (JobData.tenant_purge_data t x.content_version)) _
            (Keeps-enqueue t now job_id _ _ _)
            (λ u. Keeps-pure (SameElsewhere t) (elsewhere-still t) x))

  Keeps-delete_tx :
      (now job_id : ℕ) → Keeps (SameElsewhere t) (tenants_delete_tx id_text now job_id t)
  unfolding tenants_delete_tx
  Keeps-delete_tx now job_id =
      Keeps-bind (SameElsewhere t) (elsewhere-comp t)
        (purge_site id_text now job_id t (JobData.gone_purge_data t)) _
        (Keeps-enqueue t now job_id _ _ _) (λ u. Keeps-delete_tenant t)

-- The three operations of an actor on the members, and the three on the tenants, whatever the requests.
-- An actor who is not of the platform and whose active tenant is `t` leaves all rows of the other tenants the
-- same, and those of users and sessions, and creates no tenant.
pub admin-SameElsewhere :
    (id_text : ℕ → Text) (lower_table : ℕ → ℕ) (a : Actor) (t now id job_id : ℕ)
    (invite : Parsed InviteRequest) (user : Option ℕ) (role : Parsed String) (path : Option ℕ)
    (create : Parsed CreateRequest) (update : Parsed UpdateRequest) (db : Db)
    → a.platform ≡ false
    → a.tenant ≡ some t
    → SameElsewhere t db (members_invite lower_table now id a invite db).1
      × SameElsewhere t db (members_set_role a user role db).1
      × SameElsewhere t db (members_remove a user db).1
      × SameElsewhere t db (tenants_update id_text now job_id a path update db).1
      × SameElsewhere t db (tenants_delete id_text now job_id a path db).1
      × ((tenants_create now id a create db).1 ≡ db)
unfolding tenants_update tenants_delete tenants_create
admin-SameElsewhere id_text lower_table a t now id job_id invite user role path create update db p
      e =
    let R : Db → Db → Type 0 = SameElsewhere t in
    let still : (db : Db) → R db db = elsewhere-still t in
    let own : (u : ℕ) → a.tenant ≡ some u → t ≡ u = λ u h. ground arith in
    (
      (Preserves-members_invite R still a lower_table now id invite (λ u email r expires h o.
            subst (λ x. Keeps R (insert_invitation id x email r expires)) (own u h)
              (Keeps-invite t id email r expires))).preserves
          db,
      (Preserves-members_set_role R still a user role (λ u v r h o.
            subst (λ x. Keeps R (set_membership_role x v r)) (own u h)
              (Keeps-set_role t v r))).preserves
          db,
      (Preserves-members_remove R still a user (λ u v h o.
            subst (λ x. Keeps R (remove_membership x v)) (own u h) (Keeps-remove t v))).preserves
          db,
      (Preserves-managed R still a path _ (λ u m. Preserves-request R still update _ (λ r.
            Preserves-commit R still tenant_or_error _ (
              subst (λ x. Keeps R (tenants_update_tx id_text now job_id x r))
                (managed-own a t u p e m) (Keeps-update_tx id_text t now job_id r))))).preserves
          db,
      (Preserves-managed R still a path _ (λ u m.
            Preserves-commit R still (done_or "tenant not found") _ (
              subst (λ x. Keeps R (tenants_delete_tx id_text now job_id x))
                (managed-own a t u p e m) (Keeps-delete_tx id_text t now job_id)))).preserves
          db,
      (Preserves-when (λ d d'. d' ≡ d) (λ d. refl) (not a.platform)
            (forbidden_reply "platform role required") _ (λ n. absurd (ground arith))).preserves
          db,
    )
