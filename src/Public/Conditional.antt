-- ===== src/Public/Conditional.antt =====
-- Conditional requests to the public handlers, and `Get` beside `GetHTML`.
use open_blog.Base.{
  ℕ, ◌≡◌, ◌≢◌, ◌⊎◌, inl, inr, refl, sym, ap, ◌∙◌, false, ◌==◌, text_eq_instance, Option, none, some,
  List, [], Text, Bool-cases, find, nat_eq, eq_of_some, text_eq_iff,
}
use open_blog.Store.Errors.{Result, ok, err, Error, eq_of_ok}
use open_blog.Store.Rows.{Db, Post, User, Tenant}
use open_blog.Store.Tx.{scoped, row}
use open_blog.Public.Codec.{Cursor, PublicExternal, decode_cursor}
use open_blog.Public.Response.{
  Response, Body, empty_body, cache_control, quoted, json_response, html_response, error_response,
  not_modified, etag_of, etag_matches,
}
use open_blog.Public.Pages.{Api, Request, conditional, page_of, from_decoded, fetch_page, list_page}
use open_blog.Public.Reads.{
  shown, shown_html, site_result, or_not_found, not_found, get_post, get_html, site_page,
  public_post, public_html,
}
use open_blog.Public.Revalidation.{IsHex, etag_matches-quoted}

-- What the program relies on of crypto/sha256 and the verb `%x`.
pub record IsDigest (ext : PublicExternal) : Type 0 where
  pub hex : (s : Text) → IsHex (ext.sha256_hex s)
  pub filled : (s : Text) → ext.sha256_hex s ≢ []

-- A tag that a handler sent, sent back, is answered with 304, no body, and the same tag.
abbrev pub Revalidates : (Text → Result Response) → Type 0
Revalidates handler =
    (r : Response) (tag : Text)
    → handler [] ≡ ok r
    → r.etag ≡ some tag
    → handler tag
      ≡ ok (record {
        status = 304;
        content_type = none;
        cache_control = cache_control;
        etag = some tag;
        body = empty_body;
      })

module _ (ext : PublicExternal) (digest : IsDigest ext) where
  -- The ways in which a handler can depend on If-None-Match.
  abbrev IsConditional : (Text → Result Response) → Type 0
  IsConditional handler =
      ((parts : List Text) × (r : Response) × (r.etag ≡ some (quoted (etag_of ext parts)))
        × ((m : Text) → handler m ≡ ok (conditional ext m (etag_of ext parts) r)))
      ⊎ ((r : Response) × (r.etag ≡ none) × ((m : Text) → handler m ≡ ok r))
      ⊎ ((e : Error) × ((m : Text) → handler m ≡ err e))

  IsConditional-Revalidates :
      (handler : Text → Result Response) → IsConditional handler → Revalidates handler
  unfolding etag_matches etag_of not_modified
  IsConditional-Revalidates handler (inl (parts, r0, t, c)) r tag h e =
      let same : r0 ≡ r = eq_of_ok (sym (c []) ∙ h) in
      let k : quoted (etag_of ext parts) ≡ tag = eq_of_some (sym t ∙ ap (λ x. x.etag) same ∙ e) in
      c tag ∙ rw (sym k, etag_matches-quoted (etag_of ext parts) (digest.hex _) (digest.filled _))
  IsConditional-Revalidates handler (inr (inl (r0, t, c))) r tag h e =
      let same : r0 ≡ r = eq_of_ok (sym (c []) ∙ h) in
      let k : none ≡ some tag = sym t ∙ ap (λ x. x.etag) same ∙ e in cc
  IsConditional-Revalidates handler (inr (inr (e0, c))) r tag h e = cc (c [])

  etag_of-filled : (parts : List Text) → (etag_of ext parts == []) ≡ false
  unfolding etag_of
  etag_of-filled parts = elim (Bool-cases (etag_of ext parts == [])) [
    | inl e ↦ absurd (digest.filled _ ((text_eq_iff _ []).0 e))
    | inr e ↦ e
  ]

  json_response-etag :
      (body : Body) (parts : List Text)
      → (json_response 200 body (etag_of ext parts)).etag ≡ some (quoted (etag_of ext parts))
  unfolding json_response
  json_response-etag body parts = rw (etag_of-filled parts)

  html_response-etag :
      (html : Text) (parts : List Text)
      → (html_response html (etag_of ext parts)).etag ≡ some (quoted (etag_of ext parts))
  unfolding html_response
  html_response-etag html parts = rw (etag_of-filled parts)

  module _ (api : Api) (req : Request) (tenant : ℕ) (db db_images : Db) where
    abbrev with_tag : Text → Request
    with_tag m = record req { if_none_match = m }

    page_of-IsConditional :
        (o : Result (ℕ × List Post))
        → IsConditional (λ m. page_of ext api (with_tag m) tenant o db_images)
    page_of-IsConditional (err e) = inr (inr (e, λ m. refl))
    page_of-IsConditional (ok (version, rows)) = inl (_, _, json_response-etag _ _, λ m. refl)

    from_decoded-IsConditional :
        (c : Option Cursor)
        → IsConditional (λ m. from_decoded ext api (with_tag m) tenant c db db_images)
    unfolding error_response
    from_decoded-IsConditional none = inr (inl (_, refl, λ m. refl))
    from_decoded-IsConditional (some c) =
        page_of-IsConditional (scoped (fetch_page ext tenant api.page_size req.tag (some c)) db)

    list_page-IsConditional :
        IsConditional (λ m. list_page ext api (with_tag m) tenant db db_images)
    unfolding list_page
    list_page-IsConditional = elim (Bool-cases (req.before == [])) [
      | inl e ↦
          rw e
            (page_of-IsConditional (scoped (fetch_page ext tenant api.page_size req.tag none) db))
      | inr e ↦ rw e (from_decoded-IsConditional (decode_cursor ext req.before))
    ]

  failed-IsConditional :
      {A : Type 0} (f : Text → A → Response) (e : Error)
      → IsConditional (λ m. or_not_found ext (f m) (err e))
  unfolding error_response
  failed-IsConditional f Error.no_rows = inr (inl (not_found, refl, λ m. refl))
  failed-IsConditional f e = inr (inr (e, λ m. refl))

  module _ (tenant : ℕ) (slug : Text) (db : Db) where
    shown-IsConditional :
        (api : Api) (o : Result (Post × User × List Text))
        → IsConditional (λ m. or_not_found ext (shown ext api slug m) o)
    unfolding error_response
    shown-IsConditional api (ok (p, u, vs)) = inl (_, _, json_response-etag _ _, λ m. refl)
    shown-IsConditional api (err e) = failed-IsConditional (shown ext api slug) e

    get_post-IsConditional : (api : Api) → IsConditional (λ m. get_post ext api slug m tenant db)
    unfolding get_post error_response
    get_post-IsConditional api = elim (Bool-cases (slug == [])) [
      | inl e ↦ rw e (inr (inl (not_found, refl, λ m. refl)))
      | inr e ↦ rw e (shown-IsConditional api (scoped (public_post tenant slug) db))
    ]

    shown_html-IsConditional :
        (o : Result Post) → IsConditional (λ m. or_not_found ext (shown_html ext m) o)
    shown_html-IsConditional (ok p) = inl (_, _, html_response-etag _ _, λ m. refl)
    shown_html-IsConditional (err e) = failed-IsConditional (shown_html ext) e

    get_html-IsConditional : IsConditional (λ m. get_html ext slug m tenant db)
    unfolding get_html error_response
    get_html-IsConditional = elim (Bool-cases (slug == [])) [
      | inl e ↦ rw e (inr (inl (not_found, refl, λ m. refl)))
      | inr e ↦ rw e (shown_html-IsConditional (scoped (public_html tenant slug) db))
    ]

    site_result-IsConditional : (o : Result Tenant) → IsConditional (λ m. site_result ext m o)
    unfolding error_response
    site_result-IsConditional (ok t) = inl (_, _, json_response-etag _ _, λ m. refl)
    site_result-IsConditional (err Error.no_rows) = inr (inl (_, refl, λ m. refl))
    site_result-IsConditional (err e) = inr (inr (e, λ m. refl))

    site_page-IsConditional : IsConditional (λ m. site_page ext m tenant db)
    unfolding site_page
    site_page-IsConditional =
        site_result-IsConditional (scoped (λ d. row (find (λ t. t.id == tenant) d.tenants)) db)

  -- On an unchanged database every public handler that has sent an entity tag answers 304 without a body,
  -- with the same tag, to a request that sends this tag back: `List`, on every page, `Get`, `GetHTML`, `Site`.
  pub handlers-Revalidates :
      (api : Api) (req : Request) (tenant : ℕ) (slug : Text) (db db_images : Db)
      → Revalidates (λ m. list_page ext api (record req { if_none_match = m }) tenant db db_images)
        × Revalidates (λ m. get_post ext api slug m tenant db)
        × Revalidates (λ m. get_html ext slug m tenant db)
        × Revalidates (λ m. site_page ext m tenant db)
  handlers-Revalidates api req tenant slug db db_images = (
    IsConditional-Revalidates _ (list_page-IsConditional api req tenant db db_images),
    IsConditional-Revalidates _ (get_post-IsConditional tenant slug db api),
    IsConditional-Revalidates _ (get_html-IsConditional tenant slug db),
    IsConditional-Revalidates _ (site_page-IsConditional tenant slug db),
  )
