-- ===== src/Public/Agreement.antt =====
-- `Get` beside `GetHTML`, and the images of a post whatever the order of a Go map.
use open_blog.Base.{
  ℕ, ◌≡◌, refl, true, ◌==◌, text_eq_instance, Option, none, some, List, [], Text, find, All,
  All-find, is_some, Bool-cases, inl, inr,
}
use open_blog.Store.Errors.{Result, ok, err}
use open_blog.Store.Rows.{Db, Post, User}
use open_blog.Store.Tx.{scoped, row}
use open_blog.Public.Codec.{PublicExternal}
use open_blog.Public.Response.{Response, json_response, html_response, etag_matches}
use open_blog.Public.Pages.{Api}
use open_blog.Public.Reads.{
  get_post, get_html, public_post, public_html, is_public, author_of, joined, joined_row,
  or_not_found, shown, shown_html, post_tag,
}

-- What a cache sees of a result: the error, or the status and the entity tag.
abbrev pub validator : Result Response → Result (ℕ × Option Text)
validator (ok r) = ok (r.status, r.etag)
validator (err e) = err e

module _ (ext : PublicExternal) (api : Api) (tenant : ℕ) (slug m : Text) (db : Db) where
  shown-validator :
      (p : Post) (u : User) (vs : List Text)
      → validator (ok (shown ext api slug m (p, u, vs))) ≡ validator (ok (shown_html ext m p))
  unfolding json_response html_response
  shown-validator p u vs = elim (Bool-cases (etag_matches m (post_tag ext p))) [
    | inl e ↦ rw e
    | inr e ↦ rw e
  ]

  joined-validator :
      (p : Post) (u : Option User)
      → is_some u ≡ true
      → validator (or_not_found ext (shown ext api slug m) (joined db tenant p u))
        ≡ validator (ok (shown_html ext m p))
  joined-validator p none h = cc
  joined-validator p (some u) h = shown-validator p u _

  row-validator :
      (o : Option Post)
      → ((p : Post) → o ≡ some p → is_some (author_of db p) ≡ true)
      → validator (or_not_found ext (shown ext api slug m) (joined_row db tenant o))
        ≡ validator (or_not_found ext (shown_html ext m) (row o))
  row-validator none h = refl
  row-validator (some p) h = joined-validator p (author_of db p) (h p refl)

  -- Where every post has its author, `Get` and `GetHTML` answer a request for the same post with the
  -- same status and the same entity tag, or the same error, so that what one of them sent validates the other.
  pub get_post-get_html :
      All (λ p. is_some (author_of db p) ≡ true) db.posts
      → validator (get_post ext api slug m tenant db) ≡ validator (get_html ext slug m tenant db)
  unfolding get_post get_html public_post public_html scoped
  get_post-get_html h = elim (Bool-cases (slug == [])) [
    | inl e ↦ rw e
    | inr e ↦ rw e (
        row-validator (find (is_public tenant slug) db.posts) (λ p f.
          All-find (λ q. is_some (author_of db q) ≡ true) (is_public tenant slug) db.posts h f))
  ]
