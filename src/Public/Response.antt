-- ===== src/Public/Response.antt =====
-- internal/publicapi/publicapi.go: responses and entity tags. The JSON of a body is not written out.
use open_blog.Base.{
  ℕ, Bool, false, ◌||◌, ◌==◌, text_eq_instance, nat_eq, Option, none, some, List, [], ◌∷◌, ◌++◌,
  if◌then◌else◌, any, Text, String, codes, split, trim, trim_space, trim_prefix,
}
use open_blog.Base.Int.{ℤ}
use open_blog.Store.Errors.{Error}
use open_blog.Public.Codec.{PublicExternal}

-- `imageItem`.
pub record ImageItem : Type 0 where
  pub url : Text
  pub width : ℤ
  pub height : ℤ
  pub srcset : List Text

-- `listPost`.
pub record ListPost : Type 0 where
  pub slug : Text
  pub title : Text
  pub excerpt : Text
  pub published_at : Option ℕ
  pub metadata : Text
  pub images : List ImageItem

-- `postBody`.
pub record PostBody : Type 0 where
  pub slug : Text
  pub title : Text
  pub excerpt : Text
  pub content_html : Text
  pub author : Text
  pub published_at : Option ℕ
  pub images : List ImageItem

pub data Body : Type 0 where
  list_body : (posts : List ListPost) (next_cursor : Text) → Body
  post_body : PostBody → Body
  site_body : (name settings : Text) (content_version : ℕ) → Body
  error_body : (message : String) → Body
  html_body : Text → Body
  empty_body : Body

-- `Response`: the headers are Content-Type, Cache-Control and ETag.
pub record Response : Type 0 where
  pub status : ℕ
  pub content_type : Option String
  pub cache_control : String
  pub etag : Option Text
  pub body : Body

abbrev pub cache_control : String
cache_control = "public, s-maxage=60, stale-while-revalidate=300"

abbrev pub json_type : String
json_type = "application/json; charset=utf-8"

abbrev pub html_type : String
html_type = "text/html; charset=utf-8"

abbrev pub quoted : Text → Text
quoted tag = b'"' ∷ (tag ++ b'"' ∷ [])

abbrev etag_header : Text → Option Text
etag_header tag = if tag == [] then none else some (quoted tag)

unfoldable pub json_response : (status : ℕ) → Body → (tag : Text) → Response
json_response status body tag = record {
  status = status;
  content_type = some json_type;
  cache_control = cache_control;
  etag = etag_header tag;
  body = body;
}

unfoldable pub error_response : (status : ℕ) → String → Response
error_response status message = record {
  status = status;
  content_type = some json_type;
  cache_control = cache_control;
  etag = none;
  body = error_body message;
}

unfoldable pub html_response : Text → (tag : Text) → Response
html_response html tag = record {
  status = 200;
  content_type = some html_type;
  cache_control = cache_control;
  etag = etag_header tag;
  body = html_body html;
}

unfoldable pub not_modified : (tag : Text) → Response
not_modified tag = record {
  status = 304;
  content_type = none;
  cache_control = cache_control;
  etag = some (quoted tag);
  body = empty_body;
}

abbrev nul_ended : List Text → Text
nul_ended [] = []
nul_ended (p ∷ ps) = p ++ 0 ∷ nul_ended ps

-- `etag`, of the parts as `%v` prints them.
unfoldable pub etag_of : PublicExternal → List Text → Text
etag_of ext parts = ext.sha256_hex (nul_ended parts)

abbrev pub is_quote : ℕ → Bool
is_quote c = c == b'"'

abbrev pub tag_matches : (current part : Text) → Bool
tag_matches current part =
    part == codes "*" || trim is_quote (trim_prefix (codes "W/") part) == current

unfoldable pub etag_matches : (if_none_match current : Text) → Bool
etag_matches [] current = false
etag_matches (c ∷ s) current = any (λ p. tag_matches current (trim_space p)) (split b',' (c ∷ s))

-- `resolveTenant`.
unfoldable pub resolve_tenant : Error → Option Response
unfolding error_response
resolve_tenant Error.invalid_slug = some (error_response 400 "invalid tenant slug")
resolve_tenant Error.tenant_not_found = some (error_response 404 "tenant not found")
resolve_tenant _ = none
