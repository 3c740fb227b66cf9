-- ===== src/Posts/Inversion.antt =====
-- What the parts of a successful operation on posts have found and written.
use open_blog.Base.{
  ◌==◌, nat_eq, List, ◌+◌, if◌then◌else◌, ℕ, ◌≡◌, refl, true, Option, none, some, ◌∷◌, Text, String,
  any, find-any, find, update_where, arith, string_eq, text_eq_instance,
}
use open_blog.Store.Errors.{Error, ok}
use open_blog.Store.Rows.{Db, Post, Tenant, JobRow, JobState, JobPayload, JobData}
use open_blog.Store.Rows.Payload.{job_payload}
use open_blog.Store.Tx.{Scope, row}
use open_blog.Store.Tx.Laws.{>>=-eq-ok}
use open_blog.Store.Posts.{is_row, get_post_by_id}
use open_blog.Store.Tenants.{is_tenant, bumped, bump_at, bump_content_version}
use open_blog.Authz.Roles.{Actor, Capability, can, require}
use open_blog.Jobs.Queue.{enqueue, holds_key, new_job}
use open_blog.Render.Html.{External}
use open_blog.Posts.Errors.{no_rows_as-eq-ok}
use open_blog.Posts.Service.{Fresh, purge, purge_job_kind, found_post, ignoring_duplicate}

row-eq-ok : {A : Type 0} (o : Option A) {a : A} → row o ≡ ok a → o ≡ some a
row-eq-ok none h = cc
row-eq-ok (some a) h = ground arith

pub found_post-eq-ok :
    (s : Scope) (id : ℕ) (db : Db) {p : Post}
    → found_post s id db ≡ ok p
    → find (is_row s id) db.posts ≡ some p
unfolding get_post_by_id
found_post-eq-ok s id db h =
    row-eq-ok (find (is_row s id) db.posts) (no_rows_as-eq-ok Error.post_not_found _ h)

pub require-eq-ok :
    (a : Actor) (cap : Capability) {u : Unit {0}} → require a cap ≡ ok u → can a cap ≡ true
unfolding require
require-eq-ok a cap h = ground arith

-- The queue after a purge of a post: a row with the tenant's key, in whatever state, keeps a new job out;
-- otherwise there is one with the version that the bump gives.
abbrev pub purge_jobs_at :
    Fresh → (tenant post : ℕ) → (key : Text) → List JobRow → Option Tenant → List JobRow
purge_jobs_at fresh tenant post key jobs none = jobs
purge_jobs_at fresh tenant post key jobs (some t) =
    if any (holds_key purge_job_kind key) jobs
    then jobs
    else record {
      id = fresh.job_id;
      kind = purge_job_kind;
      dedupe_key = some key;
      payload = job_payload (record {
        tenant_id = tenant;
        content = JobData.purge_data tenant post (t.content_version + 1);
      });
      state = JobState.queued;
      attempts = 0;
      run_after = fresh.now;
      lease_until = none;
      last_err = none;
    }
      ∷ jobs

-- What a purge leaves: the version of the tenant is one more, and the queue is as above.
abbrev pub purged_at : Fresh → (tenant : ℕ) → (key : Text) → (post : ℕ) → Db → Db
purged_at fresh tenant key post db = record db {
  tenants =
      update_where (λ t. t.id == tenant)
        (λ t. record t { content_version = t.content_version + 1; updated_at = fresh.now })
        db.tenants;
  jobs = purge_jobs_at fresh tenant post key db.jobs (find (is_tenant tenant) db.tenants);
}

abbrev pub purged : Fresh → (tenant : ℕ) → (key : Text) → Post → Db → Db
purged fresh tenant key p db = purged_at fresh tenant key p.id db

bump_at-eq-ok :
    (now id : ℕ) (f : Tenant → Tenant) (o : Option Tenant) {t : Tenant} (db : Db) {db' : Db}
    → bump_at now id f o db ≡ ok (t, db')
    → (x : Tenant) × (o ≡ some x)
      × (t ≡ f x)
      × (db' ≡ record db { tenants = update_where (is_tenant id) f db.tenants })
bump_at-eq-ok now id f none db h = cc
bump_at-eq-ok now id f (some x) db h = (x, refl, ground arith, ground arith)

-- Both outcomes of `Enqueue` that `purge` accepts.
enqueue-eq-ok :
    (now id : ℕ) (kind : String) (c : ℕ) (key : Text) (p : JobPayload) {u : Unit {0}} (db db' : Db)
    → ignoring_duplicate (enqueue now id kind (c ∷ key) p) db ≡ ok (u, db')
    → db' ≡ record db {
      jobs =
          if any (holds_key kind (c ∷ key)) db.jobs
          then db.jobs
          else new_job now id kind (some (c ∷ key)) (job_payload p) ∷ db.jobs;
    }
unfolding ignoring_duplicate enqueue
enqueue-eq-ok now id kind c key p db db' h = ground arith

pub bump-eq-ok :
    (now id : ℕ) {t : Tenant} (db : Db) {db' : Db}
    → bump_content_version now id db ≡ ok (t, db')
    → (x : Tenant) × (find (is_tenant id) db.tenants ≡ some x)
      × (t ≡ bumped now x)
      × (db' ≡ record db { tenants = update_where (is_tenant id) (bumped now) db.tenants })
unfolding bump_content_version
bump-eq-ok now id db h = bump_at-eq-ok now id (bumped now) (find (is_tenant id) db.tenants) db h

module _ (ext : External) (origin : Text) (id_text : ℕ → Text) where
  pub purge-eq-ok :
      (fresh : Fresh) (tenant c : ℕ) (key : Text) (p : Post) {u : Unit {0}} (db db' : Db)
      → id_text tenant ≡ c ∷ key
      → purge ext origin id_text fresh tenant p db ≡ ok (u, db')
      → (any (is_tenant tenant) db.tenants ≡ true) × (db' ≡ purged fresh tenant (c ∷ key) p db)
  unfolding purge
  purge-eq-ok fresh tenant c key p db db' k h =
      let (t, db1, e, h1) = >>=-eq-ok _ _ db h in
      let (x, f, r, w) = bump-eq-ok fresh.now tenant db e in
      let q = enqueue-eq-ok fresh.now fresh.job_id purge_job_kind c key _ db1 db' (rw k at h1) in
      (find-any (is_tenant tenant) db.tenants f, rw (q, w, r, f) refl)
