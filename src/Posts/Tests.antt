-- ===== src/Posts/Tests.antt =====
-- Examples for internal/posts.
use open_blog.Base.{ℕ, ◌≡◌, refl, true, false, Option, none, some, List, [], ◌∷◌, Text, codes}
use open_blog.Store.Rows.{Db, Post, PostStatus, JobData, Payload}
use open_blog.Store.Posts.{with_status}
use open_blog.Store.Tenants.{bumped}
use open_blog.Jobs.Queue.{new_job}
use open_blog.Posts.Service.{
  CreateInput, UpdateInput, create, update, publish, unpublish, archive, delete, get,
}
use open_blog.Store.Tx.{visible}
use open_blog.Authz.Roles.{scope_from_actor, owns_post}
use open_blog.Posts.ForeignRows.{SameForeign}
use open_blog.Posts.Foreign.{operations-SameForeign}
use open_blog.Posts.Transition.{IsTransition, publish-IsTransition}
use open_blog.Posts.Creation.{IsCreated, create-IsCreated}
use open_blog.Posts.Edits.{IsUpdate, update-IsUpdate}
use open_blog.Posts.Removal.{IsDelete, delete-IsDelete}
use open_blog.Samples.{
  sample_ext, sample_origin, sample_id_text, sample_fresh, sample_db, editor_actor, author_actor,
  draft_post, other_post, sample_tenant,
}

abbrev published_post : Post
published_post = with_status 50 PostStatus.published (some 50) (codes "hi") draft_post

abbrev published_db : Db
published_db = record sample_db {
  posts = published_post ∷ other_post ∷ [];
  tenants = record (sample_tenant 1 6) { updated_at = 50 } ∷ sample_tenant 2 7 ∷ [];
  jobs =
      new_job 50 500 "purge" (some (b't' ∷ 1 ∷ []))
        (Payload.job_payload (record { tenant_id = 1; content = JobData.purge_data 1 100 6 }))
      ∷ [];
}

publish-IsTransition_example :
    IsTransition sample_ext sample_origin sample_id_text sample_fresh editor_actor 100
      PostStatus.published true
      (b't' ∷ 1 ∷ [])
      sample_db
      published_db
      published_post
unfolding open_blog.Posts.Service.publish open_blog.Posts.Service.unpublish
    open_blog.Posts.Service.archive open_blog.Posts.Service.transition_tx
    open_blog.Store.Posts.get_post_by_id open_blog.Store.Posts.set_post_status
    open_blog.Store.Tx.scoped_rw open_blog.Store.Tx.scoped open_blog.Store.Tx.visible
    open_blog.Store.Tx.◌>>=◌ open_blog.Base.text_eq open_blog.Authz.Roles.scope_from_actor
    open_blog.Authz.Roles.require open_blog.Authz.Roles.can open_blog.Authz.Roles.role_for
    open_blog.Authz.Roles.owns_post open_blog.Base.trim_space open_blog.Base.trim
    open_blog.Base.trim_left open_blog.Base.trim_right open_blog.Posts.Service.render
    open_blog.Posts.Service.metadata_allows_external_images
    open_blog.Render.Sanitize.render_gfm_hosts open_blog.Render.Sanitize.sanitize
    open_blog.Render.Sanitize.document_body open_blog.Render.Sanitize.find_body
    open_blog.Render.Sanitize.sanitize_nodes open_blog.Render.Sanitize.sanitize_node
    open_blog.Posts.Service.purge open_blog.Posts.Service.ignoring_duplicate
    open_blog.Store.Tenants.bump_content_version open_blog.Jobs.Queue.enqueue
    open_blog.Jobs.Queue.holds_key
publish-IsTransition_example =
    publish-IsTransition sample_ext sample_origin sample_id_text sample_fresh editor_actor 100 b't'
      (1 ∷ []) published_post sample_db published_db refl refl

abbrev moved_post : PostStatus → Post
moved_post status = with_status 50 status none (codes "hi") draft_post

abbrev moved_db : PostStatus → Db
moved_db status = record published_db { posts = moved_post status ∷ other_post ∷ [] }

abbrev new_input : CreateInput
new_input = record {
  title = codes "Hi";
  content_markdown = codes "hi";
  slug = [];
  excerpt = [];
  metadata = [];
}

abbrev created_post : Post
created_post = record {
  id = 101;
  tenant_id = 1;
  author_id = 11;
  slug = codes "hi";
  title = codes "Hi";
  excerpt = [];
  content_markdown = codes "hi";
  content_html = codes "hi";
  status = PostStatus.draft;
  published_at = none;
  metadata = codes "{}";
  created_at = 50;
  updated_at = 50;
}

abbrev created_db : Db
created_db = record sample_db { posts = created_post ∷ sample_db.posts }

create-IsCreated_example :
    IsCreated sample_ext sample_origin sample_id_text sample_fresh editor_actor new_input sample_db
      created_db created_post
unfolding open_blog.Posts.Service.create open_blog.Posts.Service.create_tx
    open_blog.Posts.Service.or_taken open_blog.Store.Posts.create_post
    open_blog.Store.Posts.empty_object open_blog.Store.Tx.scoped_rw open_blog.Store.Tx.scoped
    open_blog.Store.Tx.visible open_blog.Store.Tx.◌>>=◌ open_blog.Base.text_eq
    open_blog.Authz.Roles.scope_from_actor open_blog.Authz.Roles.require open_blog.Authz.Roles.can
    open_blog.Authz.Roles.role_for open_blog.Authz.Roles.owns_post open_blog.Base.trim_space
    open_blog.Base.trim open_blog.Base.trim_left open_blog.Base.trim_right
    open_blog.Posts.Service.render open_blog.Posts.Service.metadata_allows_external_images
    open_blog.Render.Sanitize.render_gfm_hosts open_blog.Render.Sanitize.sanitize
    open_blog.Render.Sanitize.document_body open_blog.Render.Sanitize.find_body
    open_blog.Render.Sanitize.sanitize_nodes open_blog.Render.Sanitize.sanitize_node
    open_blog.Posts.Slugs.unique_slug open_blog.Posts.Slugs.slug_loop
    open_blog.Posts.Slugs.derive_slug open_blog.Posts.Slugs.hyphenate open_blog.Posts.Slugs.suffixed
    open_blog.Store.Posts.slug_exists open_blog.Base.to_lower open_blog.Base.lower_rune
    open_blog.Base.itoa open_blog.Base.digits_from
create-IsCreated_example =
    create-IsCreated sample_ext sample_origin sample_id_text sample_fresh editor_actor new_input
      created_post sample_db created_db refl

-- New metadata is given, and the row does not take it.
abbrev patch : UpdateInput
patch = record {
  title = some (codes "New");
  content_markdown = none;
  slug = none;
  excerpt = none;
  metadata = some (codes "{\"a\":1}");
}

abbrev updated_post : Post
updated_post = record draft_post { title = codes "New"; updated_at = 50 }

abbrev updated_db : Db
updated_db = record sample_db { posts = updated_post ∷ other_post ∷ [] }

update-IsUpdate_example :
    IsUpdate sample_ext sample_origin sample_id_text sample_fresh editor_actor 100 patch
      (b't' ∷ 1 ∷ [])
      sample_db
      updated_db
      updated_post
unfolding open_blog.Posts.Service.update open_blog.Posts.Service.update_tx
    open_blog.Posts.Service.confined open_blog.Store.Posts.get_post_by_id
    open_blog.Store.Posts.update_post open_blog.Store.Tx.scoped_rw open_blog.Store.Tx.scoped
    open_blog.Store.Tx.visible open_blog.Store.Tx.◌>>=◌ open_blog.Base.text_eq
    open_blog.Authz.Roles.scope_from_actor open_blog.Authz.Roles.require open_blog.Authz.Roles.can
    open_blog.Authz.Roles.role_for open_blog.Authz.Roles.owns_post open_blog.Base.trim_space
    open_blog.Base.trim open_blog.Base.trim_left open_blog.Base.trim_right
    open_blog.Posts.Service.render open_blog.Posts.Service.metadata_allows_external_images
    open_blog.Render.Sanitize.render_gfm_hosts open_blog.Render.Sanitize.sanitize
    open_blog.Render.Sanitize.document_body open_blog.Render.Sanitize.find_body
    open_blog.Render.Sanitize.sanitize_nodes open_blog.Render.Sanitize.sanitize_node
    open_blog.Posts.Service.purge open_blog.Posts.Service.ignoring_duplicate
    open_blog.Store.Tenants.bump_content_version open_blog.Jobs.Queue.enqueue
    open_blog.Jobs.Queue.holds_key open_blog.Posts.Slugs.unique_slug open_blog.Posts.Slugs.slug_loop
    open_blog.Posts.Slugs.derive_slug open_blog.Posts.Slugs.hyphenate open_blog.Posts.Slugs.suffixed
    open_blog.Store.Posts.slug_exists open_blog.Base.to_lower open_blog.Base.lower_rune
    open_blog.Base.itoa open_blog.Base.digits_from
update-IsUpdate_example =
    update-IsUpdate sample_ext sample_origin sample_id_text sample_fresh editor_actor 100 patch b't'
      (1 ∷ []) updated_post sample_db updated_db refl refl

abbrev deleted_db : Db
deleted_db = record sample_db { posts = other_post ∷ []; images = [] }

delete-IsDelete_example : IsDelete author_actor 100 sample_db deleted_db
unfolding open_blog.Posts.Service.delete open_blog.Posts.Service.delete_tx
    open_blog.Posts.Service.get open_blog.Posts.Service.confined
    open_blog.Store.Posts.get_post_by_id open_blog.Store.Posts.delete_post
    open_blog.Store.Tx.scoped_rw open_blog.Store.Tx.scoped open_blog.Store.Tx.visible
    open_blog.Store.Tx.◌>>=◌ open_blog.Base.text_eq open_blog.Authz.Roles.scope_from_actor
    open_blog.Authz.Roles.require open_blog.Authz.Roles.can open_blog.Authz.Roles.role_for
    open_blog.Authz.Roles.owns_post
delete-IsDelete_example = delete-IsDelete author_actor 100 tt sample_db deleted_db refl

operations-SameForeign_example :
    SameForeign 1 sample_db
      (create sample_ext sample_origin sample_id_text sample_fresh editor_actor new_input
        sample_db).1
    × SameForeign 1 sample_db
        (update sample_ext sample_origin sample_id_text sample_fresh editor_actor 200 patch
          sample_db).1
    × SameForeign 1 sample_db
        (publish sample_ext sample_origin sample_id_text sample_fresh editor_actor 200 sample_db).1
    × SameForeign 1 sample_db
        (unpublish sample_ext sample_origin sample_id_text sample_fresh editor_actor 200
          sample_db).1
    × SameForeign 1 sample_db
        (archive sample_ext sample_origin sample_id_text sample_fresh editor_actor 200 sample_db).1
    × SameForeign 1 sample_db (delete editor_actor 200 sample_db).1
operations-SameForeign_example =
    operations-SameForeign sample_ext sample_origin sample_id_text editor_actor 1 refl sample_fresh
      sample_db 200 new_input patch
