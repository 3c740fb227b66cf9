-- ===== src/Api/Tenants.antt =====
-- internal/api/handlers.go: the tenants of the platform. The list of tenants is not here, since the rows hold
-- no time of creation to order them by.
use open_blog.Base.{
  ℕ, Bool, false, not, ◌&&◌, ◌||◌, ◌==◌, nat_eq, text_eq_instance, Option, none, some, [], ◌∷◌,
  Text, String, codes, or_else,
}
use open_blog.Store.Errors.{Error, Result, ok, err}
use open_blog.Store.Rows.{Tenant, JobData}
use open_blog.Store.Tx.{Tx, ◌>>=◌, pure, scoped}
use open_blog.Store.Tenants.{get_tenant, update_tenant}
use open_blog.Store.Platform.{create_tenant, delete_tenant}
use open_blog.Authz.Roles.{Actor, owner}
use open_blog.Jobs.Queue.{enqueue}
use open_blog.Posts.Service.{purge_job_kind, ignoring_duplicate}
use open_blog.Tenancy.Resolver.{valid_slug}
use open_blog.Api.Replies.{
  Reply, Body, Handler, Parsed, gate, when, with_request, with_path, commit, invalid, answer,
  error_reply, service_error, done_or, write_error,
}

pub record CreateRequest : Type 0 where
  pub slug : Text
  pub name : Text

-- What is absent is none.
pub record UpdateRequest : Type 0 where
  pub name : Option Text
  pub settings : Option Text

abbrev pub is_own : ℕ → Option ℕ → Bool
is_own id none = false
is_own id (some t) = t == id

-- `tenantManageable`.
abbrev pub tenant_manageable : Actor → ℕ → Bool
tenant_manageable a id = a.platform || (is_own id a.tenant && a.role == owner)

abbrev pub or_braces : Text → Text
or_braces [] = codes "{}"
or_braces (c ∷ s) = c ∷ s

-- `tenantOutFrom`.
abbrev pub tenant_out : Tenant → Tenant
tenant_out t = record t { settings = or_braces t.settings }

abbrev pub forbidden_reply : String → Reply
forbidden_reply message = error_reply 403 "forbidden" (codes message)

abbrev pub tenant_or_error : Result Tenant → Reply
tenant_or_error (ok t) = answer 200 (Body.tenant_row (tenant_out t))
tenant_or_error (err e) = write_error "tenant not found" e

abbrev pub created_tenant : (id : ℕ) → (slug : Text) → Result (Unit {0}) → Reply
created_tenant id slug (ok _) = answer 201 (Body.tenant_fields id slug)
created_tenant id slug (err Error.unique_violation) =
    error_reply 409 "conflict" (codes "slug already in use")
created_tenant id slug (err e) = service_error e

-- `handleTenantsCreate`, with the time and the new id.
unfoldable pub tenants_create : (now id : ℕ) → Actor → Parsed CreateRequest → Handler
unfolding gate when with_request commit
tenants_create now id a req =
    gate (when (not a.platform) (forbidden_reply "platform role required")) (
      with_request req (λ r.
        gate (when (r.slug == [] || r.name == []) (invalid "slug and name are required")) (
          gate (when (not (valid_slug r.slug)) (invalid "invalid slug"))
            (commit (created_tenant id r.slug) (create_tenant now id r.slug r.name)))))

-- The tenant of the path, where the actor may manage it.
unfoldable pub managed : Actor → (path : Option ℕ) → (ℕ → Handler) → Handler
unfolding with_path gate when
managed a path h =
    with_path path "invalid tenant id"
      (λ id. gate (when (not (tenant_manageable a id)) (forbidden_reply "forbidden")) (h id))

-- `handleTenantsGet`.
unfoldable pub tenants_get : Actor → (path : Option ℕ) → Handler
unfolding managed
tenants_get a path = managed a path (λ id db. (tenant_or_error (scoped (get_tenant id) db), db))

module _ (id_text : ℕ → Text) where
  -- The purge of the tenant's whole site; a job that is there is as good.
  abbrev pub purge_site : (now job_id id : ℕ) → JobData → Tx (Unit {0})
  purge_site now job_id id content = ignoring_duplicate (
      enqueue now job_id purge_job_kind (id_text id) (record { tenant_id = id; content = content }))

  unfoldable pub tenants_update_tx : (now job_id id : ℕ) → UpdateRequest → Tx Tenant
  tenants_update_tx now job_id id r = do
    t ← update_tenant now id (or_else r.name []) (or_else r.settings [])
    queued ← purge_site now job_id id (JobData.tenant_purge_data id t.content_version)
    pure t

  -- `handleTenantsUpdate`.
  unfoldable pub tenants_update :
      (now job_id : ℕ) → Actor → (path : Option ℕ) → Parsed UpdateRequest → Handler
  unfolding managed with_request commit tenants_update_tx
  tenants_update now job_id a path req =
      managed a path
        (λ id. with_request req (λ r. commit tenant_or_error (tenants_update_tx now job_id id r)))

  unfoldable pub tenants_delete_tx : (now job_id id : ℕ) → Tx (Unit {0})
  tenants_delete_tx now job_id id = do
    queued ← purge_site now job_id id (JobData.gone_purge_data id)
    delete_tenant id

  -- `handleTenantsDelete`.
  unfoldable pub tenants_delete : (now job_id : ℕ) → Actor → (path : Option ℕ) → Handler
  unfolding managed commit tenants_delete_tx
  tenants_delete now job_id a path =
      managed a path (λ id. commit (done_or "tenant not found") (tenants_delete_tx now job_id id))
