-- ===== src/Imports/Tests.antt =====
-- Examples for internal/import.
use open_blog.Base.{ℕ, ◌≡◌, refl, none, some, [], ◌∷◌, Text, codes, arith}
use open_blog.Store.Errors.{Error, ok, err}
use open_blog.Store.Rows.{Db, Post, PostStatus, ImportStatus}
use open_blog.Imports.Convert.{Conversion, run_pandoc, gdoc_export, dispatch}
use open_blog.Imports.Service.{apply, handle_job}
use open_blog.Imports.Conversion.{handle_job_idem}
use open_blog.Imports.Draft.{IsApplied, apply-IsApplied, apply-once}
use open_blog.Samples.{
  sample_ext, sample_origin, sample_id_text, sample_io, sample_db, sample_fresh, sample_import,
  sample_post, editor_actor,
}

abbrev converted_db : Db
converted_db = record sample_db {
  imports =
      sample_import 400 1 ImportStatus.converted (some (codes "hello"))
      ∷ record (sample_import 401 1 ImportStatus.converted (some (codes "hello"))) {
        updated_at = 60;
      }
      ∷ [];
}

handle_job_idem_example :
    handle_job sample_ext sample_origin sample_id_text sample_io 70 1 401
      (codes "gdoc")
      []
      (codes "doc")
      converted_db
    ≡ (ok tt, converted_db)
unfolding open_blog.Imports.Service.handle_job open_blog.Imports.Service.convert_source
    open_blog.Imports.Convert.dispatch open_blog.Imports.Convert.run_pandoc
    open_blog.Imports.Convert.pdftotext open_blog.Imports.Convert.gdoc_export
    open_blog.Base.byte_len open_blog.Store.Imports.get_import_by_id
    open_blog.Store.Imports.update_import open_blog.Store.Tx.scoped_rw open_blog.Store.Tx.scoped
    open_blog.Store.Tx.visible open_blog.Store.Tx.◌>>=◌ open_blog.Base.text_eq
handle_job_idem_example =
    handle_job_idem sample_ext sample_origin sample_id_text sample_io 60 70 1 401 (codes "md")
      (codes "key") [] (codes "gdoc") [] (codes "doc") sample_db converted_db refl

abbrev applied_post : Post
applied_post = record (sample_post 101 1 11 "hello" PostStatus.draft none) {
  title = codes "hello";
  content_markdown = codes "hello";
  content_html = codes "hello";
  created_at = 50;
  updated_at = 50;
}

abbrev applied_db : Db
applied_db = record sample_db {
  posts = applied_post ∷ sample_db.posts;
  imports =
      record (sample_import 400 1 ImportStatus.converted (some (codes "hello"))) {
        post_id = some 101;
        updated_at = 50;
      }
      ∷ sample_import 401 1 ImportStatus.converting none
      ∷ [];
}

apply-IsApplied_example :
    IsApplied sample_ext sample_origin sample_id_text sample_io sample_fresh editor_actor 400
      sample_db applied_db applied_post
unfolding open_blog.Imports.Service.apply open_blog.Imports.Service.apply_gate
    open_blog.Store.Imports.get_import_by_id open_blog.Store.Imports.set_import_post_id
    open_blog.Imports.Source.derive_slug open_blog.Imports.Source.title_from_content
    open_blog.Imports.Source.first_title open_blog.Imports.Source.take_bytes
    open_blog.Imports.Source.map_slug open_blog.Base.split open_blog.Base.split_from
    open_blog.Base.trim_prefix open_blog.Base.has_prefix open_blog.Posts.Service.create
    open_blog.Posts.Service.create_tx open_blog.Posts.Service.or_taken
    open_blog.Store.Posts.create_post open_blog.Store.Posts.empty_object
    open_blog.Store.Tx.scoped_rw open_blog.Store.Tx.scoped open_blog.Store.Tx.visible
    open_blog.Store.Tx.◌>>=◌ open_blog.Base.text_eq open_blog.Authz.Roles.scope_from_actor
    open_blog.Authz.Roles.require open_blog.Authz.Roles.can open_blog.Authz.Roles.role_for
    open_blog.Authz.Roles.owns_post open_blog.Base.trim_space open_blog.Base.trim
    open_blog.Base.trim_left open_blog.Base.trim_right open_blog.Posts.Service.render
    open_blog.Posts.Service.metadata_allows_external_images
    open_blog.Render.Sanitize.render_gfm_hosts open_blog.Render.Sanitize.sanitize
    open_blog.Render.Sanitize.document_body open_blog.Render.Sanitize.find_body
    open_blog.Render.Sanitize.sanitize_nodes open_blog.Render.Sanitize.sanitize_node
    open_blog.Posts.Slugs.unique_slug open_blog.Posts.Slugs.slug_loop
    open_blog.Posts.Slugs.derive_slug open_blog.Posts.Slugs.hyphenate open_blog.Posts.Slugs.suffixed
    open_blog.Store.Posts.slug_exists open_blog.Base.to_lower open_blog.Base.lower_rune
    open_blog.Base.itoa open_blog.Base.digits_from
apply-IsApplied_example =
    apply-IsApplied sample_ext sample_origin sample_id_text sample_io sample_fresh editor_actor 400
      applied_post sample_db applied_db refl

apply-once_example :
    apply sample_ext sample_origin sample_id_text sample_io
      (record sample_fresh { id = 102 })
      editor_actor
      400
      applied_db
    ≡ (err Error.already_applied, applied_db)
unfolding open_blog.Imports.Service.apply open_blog.Imports.Service.apply_gate
    open_blog.Store.Imports.get_import_by_id open_blog.Store.Imports.set_import_post_id
    open_blog.Imports.Source.derive_slug open_blog.Imports.Source.title_from_content
    open_blog.Imports.Source.first_title open_blog.Imports.Source.take_bytes
    open_blog.Imports.Source.map_slug open_blog.Base.split open_blog.Base.split_from
    open_blog.Base.trim_prefix open_blog.Base.has_prefix open_blog.Posts.Service.create
    open_blog.Posts.Service.create_tx open_blog.Posts.Service.or_taken
    open_blog.Store.Posts.create_post open_blog.Store.Posts.empty_object
    open_blog.Store.Tx.scoped_rw open_blog.Store.Tx.scoped open_blog.Store.Tx.visible
    open_blog.Store.Tx.◌>>=◌ open_blog.Base.text_eq open_blog.Authz.Roles.scope_from_actor
    open_blog.Authz.Roles.require open_blog.Authz.Roles.can open_blog.Authz.Roles.role_for
    open_blog.Authz.Roles.owns_post open_blog.Base.trim_space open_blog.Base.trim
    open_blog.Base.trim_left open_blog.Base.trim_right open_blog.Posts.Service.render
    open_blog.Posts.Service.metadata_allows_external_images
    open_blog.Render.Sanitize.render_gfm_hosts open_blog.Render.Sanitize.sanitize
    open_blog.Render.Sanitize.document_body open_blog.Render.Sanitize.find_body
    open_blog.Render.Sanitize.sanitize_nodes open_blog.Render.Sanitize.sanitize_node
    open_blog.Posts.Slugs.unique_slug open_blog.Posts.Slugs.slug_loop
    open_blog.Posts.Slugs.derive_slug open_blog.Posts.Slugs.hyphenate open_blog.Posts.Slugs.suffixed
    open_blog.Store.Posts.slug_exists open_blog.Base.to_lower open_blog.Base.lower_rune
    open_blog.Base.itoa open_blog.Base.digits_from
apply-once_example =
    apply-once sample_ext sample_origin sample_id_text sample_io sample_fresh
      (record sample_fresh { id = 102 }) editor_actor 400 applied_post sample_db applied_db refl
