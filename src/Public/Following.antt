-- ===== src/Public/Following.antt =====
-- A client that follows `next_cursor` from page to page of `List` (internal/publicapi/list.go).
use open_blog.Base.{
  ℕ, zero, suc, ◌==◌, nat_eq, text_eq_instance, Option, none, some, List, [], ◌++◌, if◌then◌else◌,
  Text,
}
use open_blog.Store.Errors.{Result, ok, err}
use open_blog.Store.Rows.{Db}
use open_blog.Public.Codec.{PublicExternal}
use open_blog.Public.Response.{ListPost, Response, Body, list_body}
use open_blog.Public.Pages.{Api, Request, list_page}

abbrev pub joined_pages : List ListPost → Option (List ListPost) → Option (List ListPost)
joined_pages posts none = none
joined_pages posts (some more) = some (posts ++ more)

abbrev pub and_more : (Text → Option (List ListPost)) → Body → Option (List ListPost)
and_more follow (list_body posts next) =
    if next == [] then some posts else joined_pages posts (follow next)
and_more follow _ = none

abbrev pub body_of : Result Response → Option Body
body_of (ok r) = some r.body
body_of (err e) = none

abbrev pub and_more_of : (Text → Option (List ListPost)) → Option Body → Option (List ListPost)
and_more_of follow none = none
and_more_of follow (some b) = and_more follow b

-- The list of one post, its images aside.
abbrev pub without_images : ListPost → ListPost
without_images p = record p { images = [] }

module _ (ext : PublicExternal) (api : Api) (tenant : ℕ) (tag : Text) (db db_images : Db) where
  abbrev pub request : (before : Text) → Request
  request before = record { tag = tag; before = before; if_none_match = [] }

  -- A client that asks for the first page and then for each next one, with a bound on the pages.
  unfoldable pub follow : (pages : ℕ) → (before : Text) → Option (List ListPost)
  follow zero before = none
  follow (suc n) before =
      and_more_of (follow n) (body_of (list_page ext api (request before) tenant db db_images))
