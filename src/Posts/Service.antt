-- ===== src/Posts/Service.antt =====
-- The operations of service.go. `now` and the new ids are what `time.Now` and the id generators give.
use open_blog.Base.{
  ℕ, Bool, true, false, not, ◌&&◌, ◌==◌, nat_eq, text_eq_instance, if◌then◌else◌, Option, none,
  some, List, [], ◌∷◌, Text, codes, trim_space, or_else, String,
}
use open_blog.Store.Errors.{Error, Result, ok, err}
use open_blog.Store.Rows.{Db, Post, PostStatus, JobData}
use open_blog.Store.Rows.PostStatus.{draft, published, archived}
use open_blog.Store.Tx.{
  Scope, nil_id, Read, Tx, ◌>>=◌, ◌>>◌, pure, guard, read, lift, no_rows_as, scoped, scoped_rw,
}
use open_blog.Store.Posts.{
  PostSummary, get_post_by_id, create_post, update_post, set_post_status, delete_post,
  list_post_summaries,
}
use open_blog.Store.Tenants.{bump_content_version}
use open_blog.Authz.Roles.{Actor, author, require, owns_post, scope_from_actor}
use open_blog.Authz.Roles.Capability.{create_draft, edit_own_draft, publish_archive}
use open_blog.Render.Html.{External}
use open_blog.Render.Sanitize.{render_gfm_hosts}
use open_blog.Jobs.Queue.{enqueue}
use open_blog.Posts.Slugs.{unique_slug}

abbrev pub purge_job_kind : String
purge_job_kind = "purge"

-- What `time.Now` and the id generators give to one call.
pub record Fresh : Type 0 where
  pub now : ℕ
  pub id : ℕ
  pub job_id : ℕ

pub record CreateInput : Type 0 where
  pub title : Text
  pub content_markdown : Text
  pub slug : Text
  pub excerpt : Text
  pub metadata : Text

-- `none` leaves a field as it is.
pub record UpdateInput : Type 0 where
  pub title : Option Text
  pub content_markdown : Option Text
  pub slug : Option Text
  pub excerpt : Option Text
  pub metadata : Option Text

pub record ListFilter : Type 0 where
  pub status : Option String
  pub author_id : Option ℕ

abbrev pub is_published : PostStatus → Bool
is_published published = true
is_published _ = false

abbrev pub is_draft : PostStatus → Bool
is_draft draft = true
is_draft _ = false

-- `errors.Is(err, jobs.ErrDuplicate)` becomes nil.
abbrev pub unless_duplicate : Db → Result (ℕ × Db) → Result (Unit {0} × Db)
unless_duplicate db (ok (id, db')) = ok (tt, db')
unless_duplicate db (err Error.duplicate_job) = ok (tt, db)
unless_duplicate db (err e) = err e

unfoldable pub ignoring_duplicate : Tx ℕ → Tx (Unit {0})
ignoring_duplicate m db = unless_duplicate db (m db)

-- `isUniqueViolation(err)` becomes `ErrSlugTaken`.
abbrev pub taken_if_violated {ℓ} : {A : Type ℓ} → Result A → Result A
taken_if_violated (ok a) = ok a
taken_if_violated (err Error.unique_violation) = err Error.slug_taken
taken_if_violated (err e) = err e

unfoldable pub or_taken : {A : Type 0} → Tx A → Tx A
or_taken m db = taken_if_violated (m db)

-- The row, or `ErrNotFound`.
abbrev pub found_post : Scope → ℕ → Read Post
found_post scope id db = no_rows_as Error.post_not_found (get_post_by_id scope id db)

-- A plain author is confined to drafts.
unfoldable pub confined : Actor → PostStatus → Bool
confined actor status = (not actor.platform && actor.role == author) && not (is_draft status)

-- `New`.
abbrev pub origin_of : Text → Text
origin_of [] = codes "media.example.com"
origin_of (c ∷ s) = c ∷ s

abbrev pub slug_base : CreateInput → Text
slug_base input = if input.slug == codes "" then input.title else input.slug

abbrev pub allows_in : Text → Option Bool → Bool
allows_in [] on = false
allows_in (c ∷ meta) none = false
allows_in (c ∷ meta) (some on) = on

abbrev pub time_if : Bool → ℕ → Option ℕ
time_if publishing now = if publishing then some now else none

abbrev pub merged : UpdateInput → Post → (slug html : Text) → Post
merged input p slug html = record p {
  title = or_else input.title p.title;
  slug = slug;
  excerpt = or_else input.excerpt p.excerpt;
  content_markdown = or_else input.content_markdown p.content_markdown;
  content_html = html;
}

-- The service over its external code, the configured media origin and the text of an id.
module _ (ext : External) (media_origin : Text) (id_text : ℕ → Text) where
  open ext use {lower_table, allow_external_images, to_jsonb}

  unfoldable pub metadata_allows_external_images : Text → Bool
  metadata_allows_external_images meta = allows_in meta (allow_external_images meta)

  unfoldable pub render : (md metadata : Text) → Result Text
  unfolding metadata_allows_external_images
  render md metadata = render_gfm_hosts ext md (
      if metadata_allows_external_images metadata then none else some (origin_of media_origin ∷ []))

  -- One bump of the tenant's version and one purge job, unless there is one already.
  unfoldable pub purge : Fresh → (tenant : ℕ) → Post → Tx (Unit {0})
  purge fresh tenant p = do
    t ← bump_content_version fresh.now tenant
    ignoring_duplicate (
        enqueue fresh.now fresh.job_id purge_job_kind (id_text tenant) (record {
          tenant_id = tenant;
          content = JobData.purge_data tenant p.id t.content_version;
        }))

  abbrev pub drafted : Fresh → Actor → Scope → CreateInput → (html slug : Text) → Post
  drafted fresh actor scope input html slug = record {
    id = fresh.id;
    tenant_id = scope.tenant_id;
    author_id = actor.user_id;
    slug = slug;
    title = input.title;
    excerpt = input.excerpt;
    content_markdown = input.content_markdown;
    content_html = html;
    status = draft;
    published_at = none;
    metadata = input.metadata;
    created_at = fresh.now;
    updated_at = fresh.now;
  }

  -- The checks before a transaction do not touch the database, so they stand in it here.
  unfoldable pub create_tx : Fresh → Actor → CreateInput → Tx Post
  create_tx fresh actor input = do
    lift (require actor create_draft)
    let scope = scope_from_actor actor
    guard (not (scope.tenant_id == nil_id)) Error.no_tenant
    html ← lift (render input.content_markdown input.metadata)
    slug ← read (unique_slug lower_table scope scope.tenant_id (slug_base input))
    or_taken (create_post to_jsonb scope fresh.now (drafted fresh actor scope input html slug))

  unfoldable pub create : Fresh → Actor → CreateInput → Db → Result Post × Db
  create fresh actor input db = scoped_rw (create_tx fresh actor input) db

  -- The slug of an update: frozen on a published post.
  abbrev pub new_slug : Scope → Post → Option Text → Tx Text
  new_slug scope p none = pure p.slug
  new_slug scope p (some desired) = do
    guard (not (is_published p.status)) Error.slug_immutable
    read (unique_slug lower_table scope scope.tenant_id desired)

  -- The metadata of the input reaches the renderer; `UpdatePost` does not store it.
  unfoldable pub update_tx : Fresh → Actor → ℕ → UpdateInput → Tx Post
  update_tx fresh actor id input = do
    lift (require actor edit_own_draft)
    let scope = scope_from_actor actor
    p ← read (found_post scope id)
    guard (owns_post actor p.author_id) Error.forbidden
    guard (not (confined actor p.status)) Error.forbidden
    slug ← new_slug scope p input.slug
    html ← lift (
        render (or_else input.content_markdown p.content_markdown)
          (or_else input.metadata p.metadata))
    out ← update_post scope fresh.now (merged input p slug html)
    if is_published out.status then purge fresh scope.tenant_id out else pure tt
    pure out

  unfoldable pub update : Fresh → Actor → ℕ → UpdateInput → Db → Result Post × Db
  update fresh actor id input db = scoped_rw (update_tx fresh actor id input) db

  unfoldable pub transition_tx : Fresh → Actor → ℕ → PostStatus → (publishing : Bool) → Tx Post
  transition_tx fresh actor id status publishing = do
    lift (require actor publish_archive)
    let scope = scope_from_actor actor
    p ← read (found_post scope id)
    guard (not (publishing && trim_space p.content_markdown == codes "")) Error.empty_content
    html ← lift (render p.content_markdown p.metadata)
    out ← set_post_status scope fresh.now id status (time_if publishing fresh.now) html
    purge fresh scope.tenant_id out
    pure out

  unfoldable pub publish : Fresh → Actor → ℕ → Db → Result Post × Db
  publish fresh actor id db = scoped_rw (transition_tx fresh actor id published true) db

  unfoldable pub unpublish : Fresh → Actor → ℕ → Db → Result Post × Db
  unpublish fresh actor id db = scoped_rw (transition_tx fresh actor id draft false) db

  unfoldable pub archive : Fresh → Actor → ℕ → Db → Result Post × Db
  archive fresh actor id db = scoped_rw (transition_tx fresh actor id archived false) db

unfoldable pub delete_tx : Actor → ℕ → Tx (Unit {0})
delete_tx actor id = do
  lift (require actor edit_own_draft)
  let scope = scope_from_actor actor
  p ← read (found_post scope id)
  guard (owns_post actor p.author_id) Error.forbidden
  guard (not (confined actor p.status)) Error.forbidden
  delete_post scope id

unfoldable pub delete : Actor → ℕ → Db → Result (Unit {0}) × Db
delete actor id db = scoped_rw (delete_tx actor id) db

abbrev pub owned_or_forbidden : Actor → Result Post → Result Post
owned_or_forbidden actor (err e) = err e
owned_or_forbidden actor (ok p) = if owns_post actor p.author_id then ok p else err Error.forbidden

unfoldable pub get : Actor → ℕ → Read Post
get actor id db = owned_or_forbidden actor (scoped (found_post (scope_from_actor actor) id) db)

-- Authors list their own posts, whatever the filter says.
abbrev pub author_filter : Actor → Option ℕ → Option ℕ
author_filter actor wanted =
    if not actor.platform && actor.role == author then some actor.user_id else wanted

abbrev pub list_if : Result (Unit {0}) → Result (List PostSummary) → Result (List PostSummary)
list_if (err e) rows = err e
list_if (ok _) rows = rows

unfoldable pub list : Actor → ListFilter → Read (List PostSummary)
list actor f db = list_if (require actor create_draft) (
    scoped (list_post_summaries (scope_from_actor actor) f.status (author_filter actor f.author_id))
      db)
