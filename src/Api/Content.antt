-- ===== src/Api/Content.antt =====
-- internal/api/handlers.go: posts, media and imports. The upload of a file is a decoded request here.
use open_blog.Base.{
  ℕ, Bool, true, false, ◌||◌, ◌==◌, nat_eq, string_eq, text_eq_instance, if◌then◌else◌, Option,
  none, some, List, [], ◌∷◌, Text, String,
}
use open_blog.Store.Errors.{Result, ok, err}
use open_blog.Store.Rows.{Post}
use open_blog.Store.Posts.{PostSummary}
use open_blog.Store.Tx.{nil_id}
use open_blog.Authz.Roles.{Actor, require, scope_from_actor}
use open_blog.Authz.Roles.Capability.{upload_media, run_import}
use open_blog.Render.Html.{External}
use open_blog.Posts.Service.{
  Fresh, CreateInput, UpdateInput, create, get, list, update, publish, unpublish, delete,
}
use open_blog.Media.Service.{FreshImage, confirm, delete_image}
use open_blog.Imports.Source.{Source, SourceKind}
use open_blog.Imports.Service.{ImportExternal, ImportResult, FreshImport, start, apply, get_import}
use open_blog.Api.Replies.{
  Reply, Body, Handler, Parsed, gate, when, with_request, with_path, commit, replied, lacks,
  invalid, answer, service_error,
}
use open_blog.Api.Tenants.{or_braces, forbidden_reply}

-- `postOutFrom`.
abbrev pub post_out : Post → Post
post_out p = record p { metadata = or_braces p.metadata }

abbrev pub post_or_error : (status : ℕ) → Result Post → Reply
post_or_error status (ok p) = answer status (Body.post_row (post_out p))
post_or_error status (err e) = service_error e

abbrev pub posts_or_error : Result (List PostSummary) → Reply
posts_or_error (ok ps) = answer 200 (Body.post_rows ps)
posts_or_error (err e) = service_error e

abbrev pub html_or_error : Result Post → Reply
html_or_error (ok p) = answer 200 (Body.html_text p.content_html)
html_or_error (err e) = service_error e

abbrev pub gone_or_error : Result (Unit {0}) → Reply
gone_or_error (ok _) = answer 204 Body.empty
gone_or_error (err e) = service_error e

abbrev pub status_filter : Text → Option Text
status_filter [] = none
status_filter (c ∷ s) = some (c ∷ s)

-- The path's id, with the message that it has none.
abbrev post_id : Option ℕ → (ℕ → Handler) → Handler
post_id path h = with_path path "invalid post id" h

-- `handlePostsList`, with the value of ?status=, which is empty where there is none.
unfoldable pub handle_posts_list : Actor → (status : String) → Handler
handle_posts_list a status db = (
  posts_or_error (
      list a (record { status = if status == "" then none else some status; author_id = none }) db),
  db,
)

-- `handlePostsGet`.
unfoldable pub handle_posts_get : Actor → (path : Option ℕ) → Handler
unfolding with_path
handle_posts_get a path = post_id path (λ id db. (post_or_error 200 (get a id db), db))

-- `handlePostsHTML`.
unfoldable pub handle_posts_html : Actor → (path : Option ℕ) → Handler
unfolding with_path
handle_posts_html a path = post_id path (λ id db. (html_or_error (get a id db), db))

-- `handlePostsDelete`.
unfoldable pub handle_posts_delete : Actor → (path : Option ℕ) → Handler
unfolding with_path
handle_posts_delete a path = post_id path (λ id db. replied gone_or_error (delete a id db))

module _ (ext : External) (origin : Text) (id_text : ℕ → Text) (fresh : Fresh) (a : Actor) where
  -- `handlePostsCreate`.
  unfoldable pub handle_posts_create : Parsed CreateInput → Handler
  unfolding gate when with_request
  handle_posts_create req = with_request req (λ r.
      gate (when (r.title == []) (invalid "title is required"))
        (λ db. replied (post_or_error 201) (create ext origin id_text fresh a r db)))

  -- `handlePostsUpdate`.
  unfoldable pub handle_posts_update : (path : Option ℕ) → Parsed UpdateInput → Handler
  unfolding with_path with_request
  handle_posts_update path req = post_id path (λ id.
      with_request req
        (λ r db. replied (post_or_error 200) (update ext origin id_text fresh a id r db)))

  -- `handlePostsPublish`.
  unfoldable pub handle_posts_publish : (path : Option ℕ) → Handler
  unfolding with_path
  handle_posts_publish path =
      post_id path (λ id db. replied (post_or_error 200) (publish ext origin id_text fresh a id db))

  -- `handlePostsUnpublish`.
  unfoldable pub handle_posts_unpublish : (path : Option ℕ) → Handler
  unfolding with_path
  handle_posts_unpublish path =
      post_id path
        (λ id db. replied (post_or_error 200) (unpublish ext origin id_text fresh a id db))

pub record ConfirmRequest : Type 0 where
  pub post_id : ℕ
  pub key : Text
  pub size_bytes : ℕ
  pub mime_type : String

abbrev pub confirmed : Result Bool → Reply
confirmed (ok true) = answer 201 Body.all_right
confirmed (ok false) = answer 204 Body.empty
confirmed (err e) = service_error e

-- `handleMediaConfirm`.
unfoldable pub handle_media_confirm :
    (cdn_base : Text) → FreshImage → Actor → Parsed ConfirmRequest → Handler
unfolding gate when with_request commit require
handle_media_confirm cdn_base fresh a req = gate (lacks a upload_media) (
    gate (when ((scope_from_actor a).tenant_id == nil_id) (forbidden_reply "no tenant in scope")) (
      with_request req (λ r.
        gate (when (r.key == [] || r.post_id == nil_id) (invalid "post_id and key are required")) (
          commit confirmed (
            confirm cdn_base fresh (scope_from_actor a) (scope_from_actor a).tenant_id r.post_id
              r.key r.size_bytes r.mime_type)))))

-- `handleMediaDelete`.
unfoldable pub handle_media_delete : Actor → (path : Option ℕ) → Handler
unfolding with_path
handle_media_delete a path =
    with_path path "invalid image id" (λ id db. replied gone_or_error (delete_image a id db))

-- The two forms of a request for an import: a file, or the id of a document.
pub data ImportRequest : Type 0 where
  file : (content filename mime_type : Text) → ImportRequest
  document : (doc_id : Text) → ImportRequest

abbrev pub source_of : ImportRequest → Source
source_of (file content filename mime_type) = record {
  kind = SourceKind.multipart;
  file = content;
  filename = filename;
  mime_type = mime_type;
  doc_id = [];
}
source_of (document doc_id) = record {
  kind = SourceKind.google_docs;
  file = [];
  filename = [];
  mime_type = [];
  doc_id = doc_id;
}

abbrev pub lacks_document : ImportRequest → Bool
lacks_document (file content filename mime_type) = false
lacks_document (document doc_id) = doc_id == []

abbrev pub import_begun : Result ℕ → Reply
import_begun (ok id) = answer 201 (Body.id_field id)
import_begun (err e) = service_error e

abbrev pub import_or_error : Result ImportResult → Reply
import_or_error (ok i) = answer 200 (Body.import_row i)
import_or_error (err e) = service_error e

-- `handleImportsStatus`.
unfoldable pub handle_imports_status : Actor → (path : Option ℕ) → Handler
unfolding with_path
handle_imports_status a path =
    with_path path "invalid import id" (λ id db. (import_or_error (get_import a id db), db))

module _ (ext : External) (origin : Text) (id_text : ℕ → Text) (io : ImportExternal) where
  -- `handleImportsStart`.
  unfoldable pub handle_imports_start : FreshImport → Actor → Parsed ImportRequest → Handler
  unfolding gate when with_request require
  handle_imports_start fresh a req = gate (lacks a run_import) (
      with_request req (λ r.
        gate (when (lacks_document r) (invalid "doc_id is required"))
          (λ db. replied import_begun (start ext origin id_text io fresh a (source_of r) db))))

  -- `handleImportsApply`.
  unfoldable pub handle_imports_apply : Fresh → Actor → (path : Option ℕ) → Handler
  unfolding with_path
  handle_imports_apply fresh a path =
      with_path path "invalid import id"
        (λ id db. replied (post_or_error 201) (apply ext origin id_text io fresh a id db))
