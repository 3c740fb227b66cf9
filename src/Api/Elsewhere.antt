-- ===== src/Api/Elsewhere.antt =====
-- The rows that are not of one tenant, and the statements of the handlers that touch a tenant's rows.
use open_blog.Base.{
  ℕ, ◌≡◌, refl, sym, ◌∙◌, ap, arith, not, nat_eq, Option, none, some, List, [], ◌∷◌, Text, String,
  select, update_where, find, inl, inr,
}
use open_blog.Store.Errors.{ok, eq_of_ok}
use open_blog.Store.Rows.{Db, Membership, Tenant, JobPayload}
use open_blog.Store.Tx.Laws.{Keeps}
use open_blog.Store.Accounts.{is_membership, with_role, set_membership_role, remove_membership}
use open_blog.Store.Tenants.{is_tenant, bump_at, resettled, update_tenant}
use open_blog.Store.Platform.{without, insert_invitation, delete_tenant}
use open_blog.Jobs.Queue.{enqueue}
use open_blog.Posts.Errors.{unless_duplicate-eq-ok}
use open_blog.Posts.Service.{ignoring_duplicate}

module _ (t : ℕ) where
  -- The database without the rows of the tenant, and without the jobs.
  abbrev pub others : Db → Db
  others db = record db {
    tenants = without (λ r. r.id) t db.tenants;
    memberships = without (λ r. r.tenant_id) t db.memberships;
    invitations = without (λ r. r.tenant_id) t db.invitations;
    posts = without (λ r. r.tenant_id) t db.posts;
    images = without (λ r. r.tenant_id) t db.images;
    imports = without (λ r. r.tenant_id) t db.imports;
    jobs = [];
  }

  abbrev pub SameElsewhere : Db → Db → Type 0
  SameElsewhere db db' = others db' ≡ others db

  pub elsewhere-still : (db : Db) → SameElsewhere db db
  elsewhere-still db = refl

  pub elsewhere-comp : (a b c : Db) → SameElsewhere a b → SameElsewhere b c → SameElsewhere a c
  elsewhere-comp a b c p q = q ∙ p

  without-update_where :
      (u : ℕ) (role : String) (ms : List Membership)
      → without (λ m. m.tenant_id) t (update_where (is_membership t u) (with_role role) ms)
        ≡ without (λ m. m.tenant_id) t ms
  without-update_where u role [] = refl
  without-update_where u role (m ∷ ms) = ground (arith, without-update_where u role ms)

  without-select :
      (u : ℕ) (ms : List Membership)
      → without (λ m. m.tenant_id) t (select (λ m. not (is_membership t u m)) ms)
        ≡ without (λ m. m.tenant_id) t ms
  without-select u [] = refl
  without-select u (m ∷ ms) = ground (arith, without-select u ms)

  without-tenant :
      (f : Tenant → Tenant) (same : (x : Tenant) → (f x).id ≡ x.id) (ts : List Tenant)
      → without (λ x. x.id) t (update_where (is_tenant t) f ts) ≡ without (λ x. x.id) t ts
  without-tenant f same [] = refl
  without-tenant f same (x ∷ ts) = ground (arith, same x, without-tenant f same ts)

  without_idem :
      {A : Type 0} (g : A → ℕ) (xs : List A) → without g t (without g t xs) ≡ without g t xs
  without_idem g [] = refl
  without_idem g (x ∷ xs) = ground (arith, without_idem g xs)

  pub Keeps-set_role : (u : ℕ) (role : String) → Keeps SameElsewhere (set_membership_role t u role)
  unfolding set_membership_role
  Keeps-set_role u role = record {
    keeps = λ db a db' k.
        let e : db' ≡ record db {
          memberships = update_where (is_membership t u) (with_role role) db.memberships;
        } =
          ground arith in
        rw e (
          ap (λ ms. record (others db) { memberships = ms })
            (without-update_where u role db.memberships));
  }

  pub Keeps-remove : (u : ℕ) → Keeps SameElsewhere (remove_membership t u)
  unfolding remove_membership
  Keeps-remove u = record {
    keeps = λ db a db' k.
        let e : db'
            ≡ record db { memberships = select (λ m. not (is_membership t u m)) db.memberships } =
          ground arith in
        rw e (ap (λ ms. record (others db) { memberships = ms }) (without-select u db.memberships));
  }

  pub Keeps-invite :
      (id : ℕ) (email : Option Text) (role : String) (expires : ℕ)
      → Keeps SameElsewhere (insert_invitation id t email role expires)
  unfolding insert_invitation
  Keeps-invite id email role expires = record {
    keeps = λ db a db' k.
        let e : db' ≡ record db {
          invitations =
              record {
                id = id;
                tenant_id = t;
                email = email;
                role = role;
                expires_at = expires;
                consumed_at = none;
              }
              ∷ db.invitations;
        } =
          ground arith in
        rw e (ground arith);
  }

  bump_at-elsewhere :
      (now : ℕ) (f : Tenant → Tenant) (same : (x : Tenant) → (f x).id ≡ x.id) (o : Option Tenant)
      (out : Tenant) (db db' : Db)
      → bump_at now t f o db ≡ ok (out, db')
      → SameElsewhere db db'
  bump_at-elsewhere now f same none out db db' h = cc
  bump_at-elsewhere now f same (some x) out db db' h =
      let e : db' ≡ record db { tenants = update_where (is_tenant t) f db.tenants } =
        ground arith in
      rw e (ap (λ ts. record (others db) { tenants = ts }) (without-tenant f same db.tenants))

  pub Keeps-update_tenant :
      (now : ℕ) (name settings : Text) → Keeps SameElsewhere (update_tenant now t name settings)
  unfolding update_tenant
  Keeps-update_tenant now name settings = record {
    keeps = λ db a db' k.
        bump_at-elsewhere now (resettled now name settings) (λ x. refl)
          (find (is_tenant t) db.tenants) a db db' k;
  }

  pub Keeps-delete_tenant : Keeps SameElsewhere (delete_tenant t)
  unfolding delete_tenant
  Keeps-delete_tenant = record {
    keeps = λ db a db' k.
        let e : db' ≡ record (others db) { jobs = db.jobs } = sym (ap (λ x. x.1) (eq_of_ok k)) in
        rw (
          e,
          without_idem (λ r. r.id) db.tenants,
          without_idem (λ r. r.tenant_id) db.memberships,
          without_idem (λ r. r.tenant_id) db.invitations,
          without_idem (λ r. r.tenant_id) db.posts,
          without_idem (λ r. r.tenant_id) db.images,
          without_idem (λ r. r.tenant_id) db.imports,
        );
  }

  enqueue-elsewhere :
      (now id r : ℕ) (kind : String) (key : Text) (p : JobPayload) (db db' : Db)
      → enqueue now id kind key p db ≡ ok (r, db')
      → SameElsewhere db db'
  unfolding enqueue
  enqueue-elsewhere now id r kind key p db db' h = ground arith

  pub Keeps-enqueue :
      (now id : ℕ) (kind : String) (key : Text) (p : JobPayload)
      → Keeps SameElsewhere (ignoring_duplicate (enqueue now id kind key p))
  unfolding ignoring_duplicate
  Keeps-enqueue now id kind key p = record {
    keeps = λ db u db' h. elim (unless_duplicate-eq-ok db (enqueue now id kind key p db) h) [
      | inl same ↦ rw same.0 refl
      | inr (r, e) ↦ enqueue-elsewhere now id r kind key p db db' e
    ];
  }
