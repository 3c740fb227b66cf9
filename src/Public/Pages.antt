-- ===== src/Public/Pages.antt =====
-- internal/publicapi/list.go and the statement of internal/publicapi/cursor.go: `List`. The page and the
-- images are read in two transactions, the second of which may see a later database.
use open_blog.Base.{
  ℕ, suc, Bool, true, false, not, ◌&&◌, ◌||◌, ◌==◌, nat_eq, text_eq_instance, Option, none, some,
  List, [], ◌∷◌, map, if◌then◌else◌, ltb, leb, length, take, any, find, select, sort_by, elem, Text,
  codes, itoa, trim_right,
}
use open_blog.Store.Errors.{Result, ok, err}
use open_blog.Store.Rows.{Db, Post, PostStatus, PostImage}
use open_blog.Store.Tx.{Scope, visible, Read, row, scoped}
use open_blog.Public.Codec.{Cursor, PublicExternal, encode_cursor, decode_cursor}
use open_blog.Public.Response.{
  ImageItem, ListPost, Response, list_body, json_response, error_response, not_modified, etag_of,
  etag_matches, resolve_tenant,
}
use open_blog.Public.Srcset.{image_from_variants, last}
use open_blog.Tenancy.Resolver.{Resolver, resolve_slug}

-- `API`; its resolver is passed along.
pub record Api : Type 0 where
  pub page_size : ℕ
  pub media_origin : Text

abbrev default_page_size : ℕ
default_page_size = 25

abbrev max_page_size : ℕ
max_page_size = 100

-- `New`, where a page size that is not positive is 0.
unfoldable pub new_api : (page_size : ℕ) → (media_cdn : Text) → Api
new_api page_size media_cdn = record {
  page_size =
      let size : ℕ = if page_size == 0 then default_page_size else page_size in
      if ltb max_page_size size then max_page_size else size;
  media_origin = trim_right (λ c. c == b'/') media_cdn;
}

-- What the handlers read from the request.
pub record Request : Type 0 where
  pub tag : Text
  pub before : Text
  pub if_none_match : Text

abbrev pub is_published : PostStatus → Bool
is_published PostStatus.published = true
is_published _ = false

abbrev pub tenant_scope : ℕ → Scope
tenant_scope tenant = record { tenant_id = tenant; platform = false }

-- Row comparison on (published_at, id).
abbrev pub key_lt : (at id at' id' : ℕ) → Bool
key_lt at id at' id' = ltb at at' || (at == at' && ltb id id')

abbrev pub before_cursor : Cursor → (published_at : Option ℕ) → (id : ℕ) → Bool
before_cursor c none id = false
before_cursor c (some at) id = key_lt at id c.published_at c.id

abbrev pub order_desc : (at : Option ℕ) (id : ℕ) (at' : Option ℕ) (id' : ℕ) → Bool
order_desc none id none id' = leb id' id
order_desc none id (some at') id' = true
order_desc (some at) id none id' = false
order_desc (some at) id (some at') id' = not (key_lt at id at' id')

-- order by published_at desc, id desc: a NULL stands first.
abbrev pub newer : Post → Post → Bool
newer p q = order_desc p.published_at p.id q.published_at q.id

module _ (ext : PublicExternal) where
  abbrev pub has_tag : (tag metadata : Text) → Bool
  has_tag tag metadata = tag == [] || ext.contains_tag metadata tag

  abbrev pub is_shown : (tenant : ℕ) (tag : Text) → Post → Bool
  is_shown tenant tag p =
      visible (tenant_scope tenant) p.tenant_id
      && (p.tenant_id == tenant && (is_published p.status && has_tag tag p.metadata))

  abbrev pub from_cursor : Option Cursor → Post → Bool
  from_cursor none p = true
  from_cursor (some c) p = before_cursor c p.published_at p.id

  -- `listStatement` run by `fetchPage`.
  unfoldable pub list_rows : (tenant page_size : ℕ) (tag : Text) → Option Cursor → Db → List Post
  list_rows tenant page_size tag cur db =
      take (suc page_size)
        (sort_by newer (select (λ p. is_shown tenant tag p && from_cursor cur p) db.posts))

  -- `fetchPage`: the content version, and the rows.
  unfoldable pub fetch_page :
      (tenant page_size : ℕ) (tag : Text) → Option Cursor → Read (ℕ × List Post)
  unfolding list_rows
  fetch_page tenant page_size tag cur db = elim (row (find (λ t. t.id == tenant) db.tenants)) [
    | ok t ↦ ok (t.content_version, list_rows tenant page_size tag cur db)
    | err e ↦ err e
  ]

  abbrev pub holds_image : ℕ → List (ℕ × ImageItem) → Bool
  holds_image id out = any (λ e. e.0 == id) out

  abbrev added : ℕ → Option ImageItem → List (ℕ × ImageItem) → List (ℕ × ImageItem)
  added id none out = out
  added id (some item) out = (id, item) ∷ out

  -- The loop over the rows: the first that gives an image counts.
  unfoldable pub first_images :
      (media_origin : Text) → List PostImage → List (ℕ × ImageItem) → List (ℕ × ImageItem)
  unfolding image_from_variants
  first_images origin [] out = out
  first_images origin (i ∷ is) out = first_images origin is (
      if holds_image i.post_id out
      then out
      else added i.post_id (image_from_variants ext i.variants origin) out)

  -- order by post_id, position, where every position is the default 0.
  abbrev pub by_post : PostImage → PostImage → Bool
  by_post i j = leb i.post_id j.post_id

  unfoldable pub fetch_first_images :
      (media_origin : Text) (tenant : ℕ) → List Post → Db → List (ℕ × ImageItem)
  unfolding first_images
  fetch_first_images origin tenant [] db = []
  fetch_first_images origin tenant (p ∷ ps) db =
      first_images origin
        (sort_by by_post (
          select
            (λ i.
              visible (tenant_scope tenant) i.tenant_id
              && (i.tenant_id == tenant && elem i.post_id (map (λ q. q.id) (p ∷ ps))))
            db.images))
        []

  abbrev image_slice : Option (ℕ × ImageItem) → List ImageItem
  image_slice none = []
  image_slice (some (id, item)) = item ∷ []

  abbrev or_empty_object : Text → Text
  or_empty_object metadata = if metadata == [] then codes "{}" else metadata

  abbrev pub list_post : List (ℕ × ImageItem) → Post → ListPost
  list_post images p = record {
    slug = p.slug;
    title = p.title;
    excerpt = p.excerpt;
    published_at = p.published_at;
    metadata = or_empty_object p.metadata;
    images = image_slice (find (λ e. e.0 == p.id) images);
  }

  abbrev cursor_at : Option ℕ → ℕ → Text
  cursor_at none id = []
  cursor_at (some at) id = encode_cursor ext (record { published_at = at; id = id })

  -- The cursor of the last post of a page that is not the last one.
  abbrev pub next_cursor : (has_more : Bool) → List Post → Text
  next_cursor false page = []
  next_cursor true [] = []
  next_cursor true (p ∷ ps) =
      let anchor : Post = last p ps in cursor_at anchor.published_at anchor.id

  abbrev pub conditional : (if_none_match tag : Text) → Response → Response
  conditional if_none_match tag response =
      if etag_matches if_none_match tag then not_modified tag else response

  abbrev pub page_response :
      Api → Request → (tenant : ℕ) (version : ℕ) (rows : List Post) (db_images : Db) → Response
  page_response api req tenant version rows db_images =
      let has_more : Bool = ltb api.page_size (length rows) in
      let page : List Post = if has_more then take api.page_size rows else rows in
      let images : List (ℕ × ImageItem) =
        fetch_first_images api.media_origin tenant page db_images in
      let tag : Text =
        etag_of ext (itoa version ∷ req.before ∷ req.tag ∷ itoa api.page_size ∷ []) in
      conditional req.if_none_match tag (
        json_response 200 (list_body (map (list_post images) page) (next_cursor has_more page)) tag)

  abbrev pub page_of : Api → Request → ℕ → Result (ℕ × List Post) → Db → Result Response
  page_of api req tenant (err e) db_images = err e
  page_of api req tenant (ok (version, rows)) db_images =
      ok (page_response api req tenant version rows db_images)

  abbrev malformed_cursor : Response
  malformed_cursor = error_response 422 "malformed cursor"

  abbrev pub from_decoded :
      Api → Request → (tenant : ℕ) → Option Cursor → (db db_images : Db) → Result Response
  from_decoded api req tenant none db db_images = ok malformed_cursor
  from_decoded api req tenant (some c) db db_images =
      page_of api req tenant (scoped (fetch_page tenant api.page_size req.tag (some c)) db)
        db_images

  -- `List` from the tenant on.
  unfoldable pub list_page : Api → Request → (tenant : ℕ) → (db db_images : Db) → Result Response
  unfolding decode_cursor fetch_page fetch_first_images etag_of etag_matches json_response
      not_modified error_response
  list_page api req tenant db db_images =
      if req.before == []
      then page_of api req tenant (scoped (fetch_page tenant api.page_size req.tag none) db)
          db_images
      else from_decoded api req tenant (decode_cursor ext req.before) db db_images

-- The tenant, or the response that says why there is none; any other error passes.
abbrev pub with_tenant :
    Result (ℕ × ℕ) × Resolver → (ℕ → Result Response) → Result Response × Resolver
with_tenant (ok (tenant, _), r) handler = (handler tenant, r)
with_tenant (err e, r) handler =
    (elim (resolve_tenant e) [ some response ↦ ok response | none ↦ err e ], r)

-- `List`, with the times and the database of the resolver's query.
unfoldable pub list_posts :
    PublicExternal
    → Api
    → Request
    → (slug : Text) (now later : ℕ) → Resolver
    → (db_tenants db db_images : Db) → Result Response × Resolver
unfolding list_page resolve_slug resolve_tenant
list_posts ext api req slug now later r db_tenants db db_images =
    with_tenant (resolve_slug now later slug r db_tenants)
      (λ tenant. list_page ext api req tenant db db_images)
