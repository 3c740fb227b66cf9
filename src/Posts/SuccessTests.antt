-- ===== src/Posts/SuccessTests.antt =====
-- Examples for the operations on posts that end well.
use open_blog.Base.{◌≡◌, refl, some, codes, arith}
use open_blog.Store.Errors.{ok}
use open_blog.Store.Rows.{PostStatus}
use open_blog.Store.Posts.{with_status}
use open_blog.Posts.Service.{publish}
use open_blog.Posts.Success.{publish-ok}
use open_blog.Samples.{
  sample_ext, sample_origin, sample_id_text, sample_fresh, sample_db, editor_actor, draft_post,
  sample_tenant,
}

publish-ok_example :
    (publish sample_ext sample_origin sample_id_text sample_fresh editor_actor 100 sample_db).0
    ≡ ok (with_status 50 PostStatus.published (some 50) (codes "hi") draft_post)
unfolding open_blog.Posts.Service.publish open_blog.Posts.Service.unpublish
    open_blog.Posts.Service.archive open_blog.Posts.Service.transition_tx
    open_blog.Store.Posts.get_post_by_id open_blog.Store.Posts.set_post_status
    open_blog.Store.Tx.scoped_rw open_blog.Store.Tx.scoped open_blog.Store.Tx.visible
    open_blog.Store.Tx.◌>>=◌ open_blog.Base.text_eq open_blog.Authz.Roles.scope_from_actor
    open_blog.Authz.Roles.require open_blog.Authz.Roles.can open_blog.Authz.Roles.role_for
    open_blog.Authz.Roles.owns_post open_blog.Base.trim_space open_blog.Base.trim
    open_blog.Base.trim_left open_blog.Base.trim_right open_blog.Posts.Service.render
    open_blog.Posts.Service.metadata_allows_external_images
    open_blog.Render.Sanitize.render_gfm_hosts open_blog.Render.Sanitize.sanitize
    open_blog.Render.Sanitize.document_body open_blog.Render.Sanitize.find_body
    open_blog.Render.Sanitize.sanitize_nodes open_blog.Render.Sanitize.sanitize_node
    open_blog.Posts.Service.purge open_blog.Posts.Service.ignoring_duplicate
    open_blog.Store.Tenants.bump_content_version open_blog.Jobs.Queue.enqueue
    open_blog.Jobs.Queue.holds_key
publish-ok_example =
    publish-ok sample_ext sample_origin sample_id_text sample_fresh editor_actor 100 draft_post
      (sample_tenant 1 5) (codes "hi") sample_db refl refl refl refl refl (omega arith) refl
