-- ===== src/Public/Paging.antt =====
-- Following `next_cursor` from page to page lists what the query without a limit would.
use open_blog.Base.{
  ℕ, zero, suc, ◌-◌, ◌≤◌, ◌<◌, ◌≡◌, ◌⊎◌, inl, inr, refl, sym, ap, ◌∙◌, arith, Bool, true, false,
  ◌==◌, nat_eq, text_eq_instance, text_eq, Option, none, some, List, [], ◌∷◌, ◌++◌, map,
  if◌then◌else◌, ltb, Bool-cases, eq_of_some, All, select, take, length, Text, find,
}
use open_blog.Public.CodecLaws.{IsCodec, decode_cursor-encode_cursor, encode_cursor-filled}
use open_blog.Base.Sorting.{Distinct, All-sort_by, Distinct-select, Distinct-sort_by}
use open_blog.Store.Errors.{Result, ok}
use open_blog.Store.Rows.{Db, Post, Tenant}
use open_blog.Store.Tx.{scoped}
use open_blog.Public.Codec.{Cursor, PublicExternal, encode_cursor}
use open_blog.Public.Response.{
  ImageItem, ListPost, Response, Body, list_body, json_response, etag_matches,
}
use open_blog.Public.Pages.{
  new_api, Api, is_shown, newer, list_rows, fetch_page, list_page, list_post, page_response,
  next_cursor, fetch_first_images,
}
use open_blog.Public.Following.{body_of, without_images, request, follow}
use open_blog.Public.Order.{newer-IsOrder, IsDated, cursor_of, All-middle}
use mathlib.Core.Path.{subst}
use mathlib.Core.List.{append_assoc, map-append}
use open_blog.Public.Rest.{
  published_posts, list_rows-none, list_rows-after, take-all, take-take, length-take, IsPage,
  IsPage-take, next_cursor-page,
}

new_api-sized :
    (page_size : ℕ) (media_cdn : Text)
    → (new_api page_size media_cdn).page_size ≡ suc ((new_api page_size media_cdn).page_size - 1)
unfolding new_api
new_api-sized page_size media_cdn = ground arith

module _ (ext : PublicExternal) (api : Api) (tenant : ℕ) (tag : Text) (db db_images : Db) where
  abbrev whole : List Post
  whole = published_posts ext tenant tag db

  -- A request continues with the given posts: at the start with all, at a cursor with those after it.
  abbrev Continues : (before : Text) → List Post → Type 0
  Continues before ys =
      ((before ≡ []) × (ys ≡ whole))
      ⊎ ((x : Post) × (xs : List Post) × (t : ℕ) × (x.published_at ≡ some t)
          × (whole ≡ xs ++ x ∷ ys)
          × (before ≡ encode_cursor ext (cursor_of t x)))

  abbrev items : List (ℕ × ImageItem) → List Post → List ListPost
  items images ps = map (list_post ext images) ps

  module _ (codec : IsCodec ext) (m : ℕ) (sized : api.page_size ≡ suc m) (t : Tenant)
      (found : find (λ t. t.id == tenant) db.tenants ≡ some t)
      (distinct : Distinct (λ p. p.id) whole) (dated : All IsDated whole) where
    abbrev answer : (before : Text) → List Post → Result Response
    answer before rows = ok (
        page_response ext api (request ext api tenant tag db db_images before) tenant
          t.content_version rows db_images)

    fetch_page-found :
        (n : ℕ) (cur : Option Cursor)
        → fetch_page ext tenant n tag cur db
          ≡ ok (t.content_version, list_rows ext tenant n tag cur db)
    unfolding fetch_page
    fetch_page-found n cur = rw (found, fetch_page)

    list_page-Continues :
        (before : Text) (ys : List Post)
        → Continues before ys
        → list_page ext api (request ext api tenant tag db db_images before) tenant db db_images
          ≡ answer before (take (suc (suc m)) ys)
    unfolding list_page scoped text_eq
    list_page-Continues before ys (inl (e, k)) =
        rw
          (
            e,
            k,
            fetch_page-found api.page_size none,
            list_rows-none ext tenant api.page_size tag db,
          )
          (ap (λ n. answer [] (take (suc n) whole)) sized)
    list_page-Continues before ys (inr (x, xs, at, d, w, e)) =
        let (u, du, nu, bu, iu) : IsDated x =
          All-middle IsDated xs x ys (subst (All IsDated) w dated) in
        let same : at ≡ u = eq_of_some (sym d ∙ du) in
        rw
          (
            e,
            encode_cursor-filled ext codec (cursor_of at x) (rw same bu),
            decode_cursor-encode_cursor ext codec (cursor_of at x) (rw same nu) (rw same bu) iu,
            fetch_page-found api.page_size (some (cursor_of at x)),
            list_rows-after ext tenant api.page_size tag db x at xs ys d w
                (subst (Distinct (λ p. p.id)) w distinct) (subst (All IsDated) w dated),
          )
          (ap (λ n. answer (encode_cursor ext (cursor_of at x)) (take (suc n) ys)) sized)

    abbrev images_for : List Post → List (ℕ × ImageItem)
    images_for page = fetch_first_images ext api.media_origin tenant page db_images

    body_at : (more : Bool) → (page : List Post) → Body
    body_at more page = list_body (items (images_for page) page) (next_cursor ext more page)

    body_of-answer :
        (before : Text) (rows : List Post)
        → body_of (answer before rows)
          ≡ some (
              body_at
                (ltb (suc m) (length rows))
                (if ltb (suc m) (length rows) then take (suc m) rows else rows))
    unfolding json_response etag_matches body_at
    body_of-answer before rows =
        ap
          (λ n.
            some
              (body_at (ltb n (length rows)) (if ltb n (length rows) then take n rows else rows)))
          sized

    body-last :
        (before : Text) (ys : List Post)
        → length ys ≤ suc m
        → body_of (answer before (take (suc (suc m)) ys)) ≡ some (body_at false ys)
    body-last before ys h =
        let few : ltb (suc m) (length ys) ≡ false = ground arith in
        body_of-answer before (take (suc (suc m)) ys) ∙ rw (take-all (suc m) ys h, few)

    body-full :
        (before : Text) (ys : List Post)
        → suc m < length ys
        → body_of (answer before (take (suc (suc m)) ys)) ≡ some (body_at true (take (suc m) ys))
    body-full before ys h =
        let many : ltb (suc m) (suc (suc m)) ≡ true = ground arith in
        body_of-answer before (take (suc (suc m)) ys)
        ∙ rw (length-take (suc m) ys h, many, take-take (suc m) ys)

    items-same :
        (images : List (ℕ × ImageItem)) (ps : List Post)
        → map without_images (items images ps) ≡ items [] ps
    items-same images [] = refl
    items-same images (p ∷ ps) = ap (λ rest. list_post ext [] p ∷ rest) (items-same images ps)

    -- What stands before a member that ends a page.
    whole-IsSplit :
        (before : Text) (ys front rest : List Post) (x : Post)
        → Continues before ys
        → ys ≡ front ++ x ∷ rest
        → (xs : List Post) × (whole ≡ xs ++ x ∷ rest)
    whole-IsSplit before ys front rest x (inl (e, k)) w = (front, sym k ∙ w)
    whole-IsSplit before ys front rest x (inr (y, xs, at, d, k, e)) w = (
      xs ++ y ∷ front,
      k ∙ ap (λ zs. xs ++ y ∷ zs) w ∙ sym (append_assoc xs (y ∷ front) (x ∷ rest)),
    )

    follow-Continues :
        (pages : ℕ) (before : Text) (ys : List Post)
        → Continues before ys
        → length ys < pages
        → (ps : List ListPost) × (follow ext api tenant tag db db_images pages before ≡ some ps)
          × (map without_images ps ≡ items [] ys)
    unfolding follow text_eq body_at
    follow-Continues zero before ys c h = absurd (omega arith)
    follow-Continues (suc n) before ys c h = elim (Bool-cases (ltb (suc m) (length ys))) [
      | inr few ↦ (
        items (images_for ys) ys,
        rw (ap body_of (list_page-Continues before ys c) ∙ body-last before ys (ground arith)),
        items-same (images_for ys) ys,
      )
      | inl many ↦
          let p : IsPage m ys = IsPage-take m ys (ground arith) in
          let (xs, w) : (xs : List Post) × (whole ≡ xs ++ p.anchor ∷ p.rest) =
            whole-IsSplit before ys p.front p.rest p.anchor c p.whole in
          let (at, d, _, bound, _) : IsDated p.anchor =
            All-middle IsDated xs p.anchor p.rest (subst (All IsDated) w dated) in
          let next : Text = encode_cursor ext (cursor_of at p.anchor) in
          let (ps, f, k) : (ps : List ListPost) × (follow ext api tenant tag db db_images n next
                ≡ some ps)
              × (map without_images ps ≡ items [] p.rest) =
            follow-Continues n next p.rest (inr (p.anchor, xs, at, d, w, refl))
              (omega (arith, p.shorter)) in
          let page : List Post = take (suc m) ys in
          let link : next_cursor ext true page ≡ next =
            ap (next_cursor ext true) p.page ∙ next_cursor-page ext p.front p.anchor at d in
          let split : page ++ p.rest ≡ ys =
            ap (λ zs. zs ++ p.rest) p.page
            ∙ append_assoc p.front (p.anchor ∷ []) p.rest
            ∙ sym p.whole in
          (
            items (images_for page) page ++ ps,
            rw (
              ap body_of (list_page-Continues before ys c) ∙ body-full before ys (ground arith),
              link,
              encode_cursor-filled ext codec (cursor_of at p.anchor) bound,
              f,
            ),
            map-append without_images (items (images_for page) page) ps
                ∙ rw (items-same (images_for page) page, k)
                    (sym (map-append (list_post ext []) page p.rest) ∙ ap (items []) split),
          )
    ]

-- Whatever the page size that `New` settles on, a client that follows the cursors gets the published posts
-- of the tenant under the tag, as the query without a limit orders them, each once and none left out, the
-- images aside; it needs at most one request more than there are posts. The database stays the same
-- meanwhile, the tenant exists, ids of posts are distinct, and each published post has an id and a time
-- before the year 10000, where JSON gives back the cursors that it wrote.
pub follow-eq-published :
    (ext : PublicExternal) (page_size : ℕ) (media_cdn : Text) (tenant : ℕ) (tag : Text)
    (db db_images : Db)
    → IsCodec ext
    → (t : Tenant) → find (λ t. t.id == tenant) db.tenants ≡ some t
    → Distinct (λ p. p.id) db.posts
    → All IsDated (select (is_shown ext tenant tag) db.posts)
    → (pages : ℕ) → length (published_posts ext tenant tag db) < pages
    → (ps : List ListPost) × (follow ext
          (new_api page_size media_cdn)
          tenant
          tag
          db
          db_images
          pages
          []
        ≡ some ps)
      × (map without_images ps ≡ map (list_post ext []) (published_posts ext tenant tag db))
follow-eq-published ext page_size media_cdn tenant tag db db_images codec t found distinct dated
      pages h =
    let api : Api = new_api page_size media_cdn in
    let shown : List Post = select (is_shown ext tenant tag) db.posts in
    follow-Continues ext api tenant tag db db_images codec (api.page_size - 1)
      (new_api-sized page_size media_cdn) t found
      (Distinct-sort_by newer newer-IsOrder (λ p. p.id) shown
        (Distinct-select (λ p. p.id) (is_shown ext tenant tag) db.posts distinct))
      (All-sort_by newer newer-IsOrder IsDated shown dated) pages []
      (published_posts ext tenant tag db) (inl (refl, refl)) h
