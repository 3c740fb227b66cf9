-- ===== src/Store/Platform.antt =====
-- The queries on invitations and tenants of internal/store/queries.go that the platform's and the members'
-- handlers run, with the cascades of migrations/0001_tables.sql. None of the two has row-level security.
use open_blog.Base.{
  ℕ, Bool, not, ◌||◌, ◌==◌, nat_eq, string_eq, text_eq_instance, Option, none, List, ◌∷◌,
  if◌then◌else◌, any, select, Text, String, codes,
}
use open_blog.Store.Errors.{Error, ok, err}
use open_blog.Store.Rows.{Invitation, Tenant}
use open_blog.Store.Tx.{Tx}
use open_blog.Tenancy.Resolver.{valid_slug}

-- check (role in ('owner','admin','editor','author')).
abbrev pub known_role : String → Bool
known_role role = role == "owner" || (role == "admin" || (role == "editor" || role == "author"))

-- An invitation by address, whose token hash is NULL.
unfoldable pub insert_invitation :
    (id tenant : ℕ) → Option Text → String → (expires_at : ℕ) → Tx (Unit {0})
insert_invitation id tenant email role expires_at db =
    let inserted : Invitation = record {
      id = id;
      tenant_id = tenant;
      email = email;
      role = role;
      expires_at = expires_at;
      consumed_at = none;
    } in
    if not (known_role role)
    then err Error.check_violation
    else if any (λ i. i.id == id) db.invitations
    then err Error.unique_violation
    else if not (any (λ t. t.id == tenant) db.tenants)
    then err Error.foreign_key_violation
    else ok (tt, record db { invitations = inserted ∷ db.invitations })

-- The slug is unique and has the shape of slugs; the other columns have their defaults.
unfoldable pub create_tenant : (now id : ℕ) → (slug name : Text) → Tx (Unit {0})
create_tenant now id slug name db =
    let inserted : Tenant = record {
      id = id;
      slug = slug;
      name = name;
      settings = codes "{}";
      content_version = 0;
      updated_at = now;
    } in
    if not (valid_slug slug)
    then err Error.check_violation
    else if any (λ t. t.id == id || t.slug == slug) db.tenants
    then err Error.unique_violation
    else ok (tt, record db { tenants = inserted ∷ db.tenants })

-- The rows that are not the tenant's.
abbrev pub without {ℓ} : {A : Type ℓ} → (A → ℕ) → ℕ → List A → List A
without tenant_of id rows = select (λ r. not (tenant_of r == id)) rows

-- Every table that refers to the tenant cascades; a missing tenant is no error.
unfoldable pub delete_tenant : ℕ → Tx (Unit {0})
delete_tenant id db = ok (
  tt,
  record db {
    tenants = without (λ t. t.id) id db.tenants;
    memberships = without (λ m. m.tenant_id) id db.memberships;
    invitations = without (λ i. i.tenant_id) id db.invitations;
    posts = without (λ p. p.tenant_id) id db.posts;
    images = without (λ i. i.tenant_id) id db.images;
    imports = without (λ i. i.tenant_id) id db.imports;
  },
)
