-- ===== src/Public/Tests.antt =====
-- Examples for the public reads.
use open_blog.Base.{
  ℕ, zero, suc, ◌≡◌, refl, arith, Bool, true, false, ◌==◌, nat_eq, Option, none, some, List, [],
  ◌∷◌, map, Text, codes, String, inl, select,
}
use open_blog.Base.Int.{pos}
use open_blog.Base.Reordering.{swap}
use open_blog.Store.Errors.{ok}
use open_blog.Store.Rows.{Db, Post, Payload, JobData}
use open_blog.Store.Rows.PostStatus.{published, draft}
use open_blog.Store.Posts.{with_status}
use open_blog.Samples.{
  sample_post, sample_tenant, sample_db, sample_ext, sample_origin, sample_id_text, sample_fresh,
  editor_actor, draft_post, other_post,
}
use open_blog.Posts.Service.{Fresh}
use open_blog.Jobs.Queue.{new_job}
use open_blog.Public.Codec.{VariantEnt, PublicExternal}
use open_blog.Public.Response.{ListPost, html_response}
use open_blog.Public.Srcset.{image_from_variants}
use open_blog.Public.Pages.{new_api, list_post, conditional, list_page}
use open_blog.Public.Reads.{get_post, get_html, site_page, post_tag, not_found}
use open_blog.Public.Rest.{published_posts}
use open_blog.Public.Following.{without_images, follow}
use open_blog.Public.Paging.{follow-eq-published}
use open_blog.Public.Conditional.{Revalidates, handlers-Revalidates}
use open_blog.Public.Visibility.{publish-get_html, taken_down-get_html}
use open_blog.Public.Images.{without_height, image_from_variants-Reordered}
use open_blog.Public.Samples.{sample_public, sample_public-IsCodec, sample_public-IsDigest}

-- Three published posts and a draft in tenant 1.
abbrev list_db : Db
list_db = record sample_db {
  posts =
      sample_post 101 1 11 "one" published (some 5)
      ∷ sample_post 102 1 11 "two" published (some 9)
      ∷ draft_post
      ∷ sample_post 103 1 12 "three" published (some 5)
      ∷ other_post
      ∷ [];
}

follow-eq-published_example :
    (ps : List ListPost) × (follow sample_public (new_api 1 []) 1 [] list_db list_db 4 [] ≡ some ps)
    × (map without_images ps
        ≡ map (list_post sample_public []) (published_posts sample_public 1 [] list_db))
unfolding open_blog.Store.Tx.visible open_blog.Base.text_eq
follow-eq-published_example =
    follow-eq-published sample_public 1 [] 1 [] list_db list_db sample_public-IsCodec
      (sample_tenant 1 5) refl (omega arith)
      (
        (5, refl, omega arith, omega arith, omega arith),
        (
          (9, refl, omega arith, omega arith, omega arith),
          ((5, refl, omega arith, omega arith, omega arith), tt),
        ),
      )
      4 (omega arith)

-- The order of the pages.
listed : map (λ p. p.id) (published_posts sample_public 1 [] list_db) ≡ 102 ∷ 103 ∷ 101 ∷ []
unfolding open_blog.Store.Tx.visible open_blog.Base.text_eq
listed = refl

handlers-Revalidates_example :
    Revalidates (λ m.
      list_page sample_public
        (new_api 1 [])
        (record { tag = []; before = []; if_none_match = m })
        1
        list_db
        list_db)
    × Revalidates (λ m. get_post sample_public (new_api 1 []) (codes "one") m 1 list_db)
    × Revalidates (λ m. get_html sample_public (codes "one") m 1 list_db)
    × Revalidates (λ m. site_page sample_public m 1 list_db)
handlers-Revalidates_example =
    handlers-Revalidates sample_public sample_public-IsDigest (new_api 1 [])
      (record { tag = []; before = []; if_none_match = [] }) 1 (codes "one") list_db list_db

abbrev shown_post : Post
shown_post = with_status 50 published (some 50) (codes "hi") draft_post

abbrev shown_db : Db
shown_db = record sample_db {
  posts = shown_post ∷ other_post ∷ [];
  tenants = record (sample_tenant 1 6) { updated_at = 50 } ∷ sample_tenant 2 7 ∷ [];
  jobs =
      new_job 50 500 "purge" (some (b't' ∷ 1 ∷ []))
        (Payload.job_payload (record { tenant_id = 1; content = JobData.purge_data 1 100 6 }))
      ∷ [];
}

publish-get_html_example :
    get_html sample_public (codes "mine") [] 1 shown_db
    ≡ ok (
        conditional sample_public []
          (post_tag sample_public shown_post)
          (html_response (codes "hi") (post_tag sample_public shown_post)))
unfolding open_blog.Posts.Service.publish open_blog.Posts.Service.unpublish
    open_blog.Posts.Service.archive open_blog.Posts.Service.transition_tx
    open_blog.Store.Posts.get_post_by_id open_blog.Store.Posts.set_post_status
    open_blog.Store.Tx.scoped_rw open_blog.Store.Tx.scoped open_blog.Store.Tx.visible
    open_blog.Store.Tx.◌>>=◌ open_blog.Base.text_eq open_blog.Authz.Roles.scope_from_actor
    open_blog.Authz.Roles.require open_blog.Authz.Roles.can open_blog.Authz.Roles.role_for
    open_blog.Authz.Roles.owns_post open_blog.Base.trim_space open_blog.Base.trim
    open_blog.Base.trim_left open_blog.Base.trim_right open_blog.Posts.Service.render
    open_blog.Posts.Service.metadata_allows_external_images
    open_blog.Render.Sanitize.render_gfm_hosts open_blog.Render.Sanitize.sanitize
    open_blog.Render.Sanitize.document_body open_blog.Render.Sanitize.find_body
    open_blog.Render.Sanitize.sanitize_nodes open_blog.Render.Sanitize.sanitize_node
    open_blog.Posts.Service.purge open_blog.Posts.Service.ignoring_duplicate
    open_blog.Store.Tenants.bump_content_version open_blog.Jobs.Queue.enqueue
    open_blog.Jobs.Queue.holds_key
publish-get_html_example =
    publish-get_html sample_public sample_ext sample_origin sample_id_text sample_fresh editor_actor
      100 b't' (1 ∷ []) shown_post sample_db shown_db [] refl refl (omega arith) refl
      ((λ t u. refl), ((λ t u. absurd (omega arith)), tt))

abbrev later_fresh : Fresh
later_fresh = record { now = 60; id = 102; job_id = 501 }

abbrev hidden_post : Post
hidden_post = with_status 60 draft none (codes "hi") shown_post

abbrev hidden_db : Db
hidden_db = record shown_db {
  posts = hidden_post ∷ other_post ∷ [];
  tenants = record (sample_tenant 1 7) { updated_at = 60 } ∷ sample_tenant 2 7 ∷ [];
}

taken_down-get_html_example :
    get_html sample_public (codes "mine") (codes "*") 1 hidden_db ≡ ok not_found
unfolding open_blog.Posts.Service.publish open_blog.Posts.Service.unpublish
    open_blog.Posts.Service.archive open_blog.Posts.Service.transition_tx
    open_blog.Store.Posts.get_post_by_id open_blog.Store.Posts.set_post_status
    open_blog.Store.Tx.scoped_rw open_blog.Store.Tx.scoped open_blog.Store.Tx.visible
    open_blog.Store.Tx.◌>>=◌ open_blog.Base.text_eq open_blog.Authz.Roles.scope_from_actor
    open_blog.Authz.Roles.require open_blog.Authz.Roles.can open_blog.Authz.Roles.role_for
    open_blog.Authz.Roles.owns_post open_blog.Base.trim_space open_blog.Base.trim
    open_blog.Base.trim_left open_blog.Base.trim_right open_blog.Posts.Service.render
    open_blog.Posts.Service.metadata_allows_external_images
    open_blog.Render.Sanitize.render_gfm_hosts open_blog.Render.Sanitize.sanitize
    open_blog.Render.Sanitize.document_body open_blog.Render.Sanitize.find_body
    open_blog.Render.Sanitize.sanitize_nodes open_blog.Render.Sanitize.sanitize_node
    open_blog.Posts.Service.purge open_blog.Posts.Service.ignoring_duplicate
    open_blog.Store.Tenants.bump_content_version open_blog.Jobs.Queue.enqueue
    open_blog.Jobs.Queue.holds_key
taken_down-get_html_example =
    taken_down-get_html sample_public sample_ext sample_origin sample_id_text later_fresh
      editor_actor 100 b't' (1 ∷ []) hidden_post shown_db hidden_db (codes "*") refl (inl refl)
      ((λ t u. refl), ((λ t u. absurd (omega arith)), tt))

abbrev small : Text × VariantEnt
small = (codes "480", record { url = codes "/a"; width = pos 0; height = pos 3 })

abbrev large : Text × VariantEnt
large = (codes "1024", record { url = codes "/b"; width = pos 1000; height = pos 7 })

abbrev with_variants : List (Text × VariantEnt) → PublicExternal
with_variants m = record sample_public { variants_of = λ raw. some m }

image_from_variants-Reordered_example :
    without_height
      (image_from_variants (with_variants (small ∷ large ∷ [])) (codes "{}") (codes "https://m"))
    ≡ without_height
        (image_from_variants (with_variants (large ∷ small ∷ [])) (codes "{}") (codes "https://m"))
image_from_variants-Reordered_example =
    image_from_variants-Reordered (with_variants (small ∷ large ∷ []))
      (with_variants (large ∷ small ∷ [])) (codes "{}") (codes "https://m") (small ∷ large ∷ [])
      (large ∷ small ∷ []) refl refl (swap small large [])

-- The srcset in order of the widths, and a URL below the media origin.
small_and_large :
    without_height
      (image_from_variants (with_variants (large ∷ small ∷ [])) (codes "{}") (codes "https://m"))
    ≡ some
        (codes "https://m/b", pos 1000, codes "https://m/a 480w" ∷ codes "https://m/b 1000w" ∷ [])
unfolding image_from_variants open_blog.Base.text_eq open_blog.Base.Int.int_text
    open_blog.Base.has_prefix open_blog.Base.trim_left
small_and_large = refl
