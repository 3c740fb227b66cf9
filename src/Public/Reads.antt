-- ===== src/Public/Reads.antt =====
-- internal/publicapi/get.go and internal/publicapi/site.go: `Get`, `GetHTML` and `Site`.
use open_blog.Base.{
  ℕ, Bool, ◌&&◌, ◌==◌, nat_eq, text_eq_instance, Option, none, some, List, [], ◌∷◌, map,
  if◌then◌else◌, find, select, Text, itoa, byte_len,
}
use open_blog.Store.Errors.{Error, Result, ok, err}
use open_blog.Store.Rows.{Db, Post, Tenant, User}
use open_blog.Store.Tx.{visible, Read, row, scoped}
use open_blog.Public.Codec.{PublicExternal}
use open_blog.Public.Response.{
  ImageItem, Response, post_body, site_body, json_response, html_response, error_response, etag_of,
  etag_matches, not_modified, resolve_tenant,
}
use open_blog.Public.Srcset.{image_from_variants}
use open_blog.Public.Pages.{Api, is_published, tenant_scope, conditional, with_tenant}
use open_blog.Tenancy.Resolver.{Resolver, resolve_slug}

-- where tenant_id = $1 and slug = $2 and status = 'published', of the rows that the scope sees.
abbrev pub is_public : (tenant : ℕ) (slug : Text) → Post → Bool
is_public tenant slug p =
    visible (tenant_scope tenant) p.tenant_id
    && (p.tenant_id == tenant && (p.slug == slug && is_published p.status))

abbrev pub with_images : List Text → Post × User → Post × User × List Text
with_images vs (p, u) = (p, u, vs)

abbrev pub author_of : Db → Post → Option User
author_of db p = find (λ u. u.id == p.author_id) db.users

-- The variants of the post's images, in the order of the table, since every position is the default 0.
abbrev pub variants_of_post : Db → (tenant : ℕ) → Post → List Text
variants_of_post db tenant p =
    map (λ i. i.variants)
      (select
        (λ i.
          visible (tenant_scope tenant) i.tenant_id
          && (i.post_id == p.id && i.tenant_id == p.tenant_id))
        db.images)

abbrev pub joined : Db → ℕ → Post → Option User → Result (Post × User × List Text)
joined db tenant p none = err Error.no_rows
joined db tenant p (some u) = ok (p, u, variants_of_post db tenant p)

abbrev pub joined_row : Db → ℕ → Option Post → Result (Post × User × List Text)
joined_row db tenant none = err Error.no_rows
joined_row db tenant (some p) = joined db tenant p (author_of db p)

-- The query of `Get`: the post with its author and its images.
unfoldable pub public_post : (tenant : ℕ) (slug : Text) → Read (Post × User × List Text)
public_post tenant slug db = joined_row db tenant (find (is_public tenant slug) db.posts)

-- The query of `GetHTML`.
unfoldable pub public_html : (tenant : ℕ) (slug : Text) → Read Post
public_html tenant slug db = row (find (is_public tenant slug) db.posts)

abbrev pub not_found : Response
not_found = error_response 404 "post not found"

module _ (ext : PublicExternal) where
  abbrev pub with_item : Option ImageItem → List ImageItem → List ImageItem
  with_item none items = items
  with_item (some item) items = item ∷ items

  -- `decodeImages`.
  unfoldable pub decode_images : (media_origin : Text) → List Text → List ImageItem
  unfolding image_from_variants
  decode_images origin [] = []
  decode_images origin (raw ∷ raws) =
      with_item (image_from_variants ext raw origin) (decode_images origin raws)

  abbrev pub post_tag : Post → Text
  post_tag p = etag_of ext (itoa (byte_len p.content_html) ∷ ext.unix_nano p.updated_at ∷ [])

  abbrev pub shown : Api → (slug if_none_match : Text) → Post × User × List Text → Response
  shown api slug if_none_match (p, u, variants) = conditional ext if_none_match (post_tag p) (
      json_response 200
        (post_body (record {
          slug = slug;
          title = p.title;
          excerpt = p.excerpt;
          content_html = p.content_html;
          author = u.display_name;
          published_at = p.published_at;
          images = decode_images api.media_origin variants;
        }))
        (post_tag p))

  abbrev pub or_not_found {ℓ} : {A : Type ℓ} → (A → Response) → Result A → Result Response
  or_not_found f (ok a) = ok (f a)
  or_not_found f (err Error.no_rows) = ok not_found
  or_not_found f (err e) = err e

  -- `Get` from the tenant on.
  unfoldable pub get_post : Api → (slug if_none_match : Text) (tenant : ℕ) → Read Response
  unfolding public_post decode_images etag_of etag_matches json_response not_modified error_response
  get_post api slug if_none_match tenant db =
      if slug == []
      then ok not_found
      else or_not_found (shown api slug if_none_match) (scoped (public_post tenant slug) db)

  abbrev pub shown_html : (if_none_match : Text) → Post → Response
  shown_html if_none_match p =
      conditional ext if_none_match (post_tag p) (html_response p.content_html (post_tag p))

  -- `GetHTML` from the tenant on.
  unfoldable pub get_html : (slug if_none_match : Text) (tenant : ℕ) → Read Response
  unfolding public_html etag_of etag_matches html_response not_modified error_response
  get_html slug if_none_match tenant db =
      if slug == []
      then ok not_found
      else or_not_found (shown_html if_none_match) (scoped (public_html tenant slug) db)

  abbrev pub site_response : (if_none_match : Text) → Tenant → Response
  site_response if_none_match t =
      let tag : Text = etag_of ext (itoa t.content_version ∷ ext.unix_nano t.updated_at ∷ []) in
      conditional ext if_none_match tag
        (json_response 200 (site_body t.name t.settings t.content_version) tag)

  abbrev pub site_result : (if_none_match : Text) → Result Tenant → Result Response
  site_result if_none_match (ok t) = ok (site_response if_none_match t)
  site_result if_none_match (err Error.no_rows) = ok (error_response 404 "tenant not found")
  site_result if_none_match (err e) = err e

  -- `Site` from the tenant on.
  unfoldable pub site_page : (if_none_match : Text) (tenant : ℕ) → Read Response
  unfolding etag_of etag_matches json_response not_modified error_response
  site_page if_none_match tenant db =
      site_result if_none_match (scoped (λ d. row (find (λ t. t.id == tenant) d.tenants)) db)

  module _ (now later : ℕ) (r : Resolver) (db_tenants : Db) where
    unfoldable pub get :
        Api → (tenant_slug slug if_none_match : Text) → Db → Result Response × Resolver
    unfolding get_post resolve_slug resolve_tenant
    get api tenant_slug slug if_none_match db =
        with_tenant (resolve_slug now later tenant_slug r db_tenants)
          (λ tenant. get_post api slug if_none_match tenant db)

    unfoldable pub get_as_html :
        (tenant_slug slug if_none_match : Text) → Db → Result Response × Resolver
    unfolding get_html resolve_slug resolve_tenant
    get_as_html tenant_slug slug if_none_match db =
        with_tenant (resolve_slug now later tenant_slug r db_tenants)
          (λ tenant. get_html slug if_none_match tenant db)

    unfoldable pub site : (tenant_slug if_none_match : Text) → Db → Result Response × Resolver
    unfolding site_page resolve_slug resolve_tenant
    site tenant_slug if_none_match db =
        with_tenant (resolve_slug now later tenant_slug r db_tenants)
          (λ tenant. site_page if_none_match tenant db)
