-- ===== src/Store/Posts.antt =====
-- The queries on posts of internal/store/queries.go.
use open_blog.Base.{
  ℕ, Bool, true, false, not, ◌&&◌, ◌||◌, ◌==◌, nat_eq, text_eq_instance, string_eq, Option, none,
  some, List, [], ◌∷◌, map, if◌then◌else◌, any, find, select, update_where, sort_by, ltb, Text,
  codes, String,
}
use open_blog.Store.Errors.{Error, ok, err}
use open_blog.Store.Rows.{Db, Post, PostStatus, Import}
use open_blog.Store.Rows.PostStatus.{draft, published, archived}
use open_blog.Store.Tx.{Scope, visible, Read, Tx, row}

unfoldable pub status_text : PostStatus → String
status_text published = "published"
status_text archived = "archived"
status_text draft = "draft"

unfoldable pub parse_post_status : String → Option PostStatus
parse_post_status s =
    if s == "draft"
    then some draft
    else if s == "published"
    then some published
    else if s == "archived"
    then some archived
    else none

-- The row of this id that the scope sees.
abbrev pub is_row : Scope → ℕ → Post → Bool
is_row s id p = p.id == id && visible s p.tenant_id

unfoldable pub get_post_by_id : Scope → ℕ → Read Post
get_post_by_id s id db = row (find (is_row s id) db.posts)

unfoldable pub slug_exists : Scope → ℕ → Text → Read Bool
slug_exists s tenant slug db =
    ok (any (λ p. (p.tenant_id == tenant && p.slug == slug) && visible s p.tenant_id) db.posts)

-- What `RETURNING` gives, with the table after it.
abbrev pub with_posts : Db → List Post → Db
with_posts db rows = record db { posts = rows }

unfoldable pub empty_object : Text
empty_object = codes "{}"

-- `coalesce($9, '{}'::jsonb)`; a nil slice is the empty text.
-- `coalesce($9, '{}'::jsonb)`: none where the text is no JSON.
abbrev pub metadata_of : (to_jsonb : Text → Option Text) → Text → Option Text
metadata_of to_jsonb [] = some empty_object
metadata_of to_jsonb (c ∷ m) = to_jsonb (c ∷ m)

-- The unique constraints on posts: the primary key, and the slug within a tenant.
abbrev pub post_conflict : Post → Post → Bool
post_conflict p q = q.id == p.id || (q.tenant_id == p.tenant_id && q.slug == p.slug)

-- INSERT: the policy's WITH CHECK, then the unique indexes, then the foreign keys.
abbrev pub insert_post : Scope → (now : ℕ) → Post → Option Text → Tx Post
insert_post s now p none db = err Error.invalid_text_representation
insert_post s now p (some metadata) db =
    let inserted : Post = record p {
      status = draft;
      published_at = none;
      metadata = metadata;
      created_at = now;
      updated_at = now;
    } in
    if not (visible s p.tenant_id)
    then err Error.row_security_violation
    else if any (post_conflict p) db.posts
    then err Error.unique_violation
    else if not
        (any (λ t. t.id == p.tenant_id) db.tenants && any (λ u. u.id == p.author_id) db.users)
    then err Error.foreign_key_violation
    else ok (inserted, with_posts db (inserted ∷ db.posts))

-- The parameters are read first, of which one is `jsonb`.
unfoldable pub create_post : (to_jsonb : Text → Option Text) → Scope → (now : ℕ) → Post → Tx Post
create_post to_jsonb s now p db = insert_post s now p (metadata_of to_jsonb p.metadata) db

-- UPDATE of the mutable fields of one row. The metadata is not among them.
abbrev pub rewritten : (now : ℕ) → Post → Post → Post
rewritten now q p = record p {
  title = q.title;
  slug = q.slug;
  excerpt = q.excerpt;
  content_markdown = q.content_markdown;
  content_html = q.content_html;
  updated_at = now;
}

-- Another row of the tenant holds the slug that the row `p` is given.
abbrev pub slug_conflict : Post → Text → Post → Bool
slug_conflict p slug q = not (q.id == p.id) && (q.tenant_id == p.tenant_id && q.slug == slug)

abbrev pub update_post_at : Scope → ℕ → Post → Option Post → Tx Post
update_post_at s now q none db = err Error.no_rows
update_post_at s now q (some p) db =
    if any (slug_conflict p q.slug) db.posts
    then err Error.unique_violation
    else ok
        (rewritten now q p, with_posts db (update_where (is_row s q.id) (rewritten now q) db.posts))

unfoldable pub update_post : Scope → (now : ℕ) → Post → Tx Post
update_post s now q db = update_post_at s now q (find (is_row s q.id) db.posts) db

abbrev pub with_status : (now : ℕ) → PostStatus → Option ℕ → Text → Post → Post
with_status now status published_at html p = record p {
  status = status;
  published_at = published_at;
  content_html = html;
  updated_at = now;
}

abbrev pub set_post_status_at : Scope → ℕ → ℕ → (Post → Post) → Option Post → Tx Post
set_post_status_at s now id f none db = err Error.no_rows
set_post_status_at s now id f (some p) db =
    ok (f p, with_posts db (update_where (is_row s id) f db.posts))

unfoldable pub set_post_status : Scope → (now id : ℕ) → PostStatus → Option ℕ → Text → Tx Post
set_post_status s now id status published_at html db =
    set_post_status_at s now id (with_status now status published_at html)
      (find (is_row s id) db.posts) db

abbrev pub unlink : ℕ → Import → Import
unlink id i = record i { post_id = none }

abbrev pub is_linked : ℕ → Import → Bool
is_linked id i = elim i.post_id [ none ↦ false | some p ↦ p == id ]

-- DELETE of the rows in view; the foreign keys delete the images of a deleted post and clear the
-- link of an import to it.
unfoldable pub delete_post : Scope → ℕ → Tx (Unit {0})
delete_post s id db =
    let gone : Bool = any (is_row s id) db.posts in
    ok (
      tt,
      record db {
        posts = select (λ p. not (is_row s id p)) db.posts;
        images = select (λ i. not (gone && i.post_id == id)) db.images;
        imports = update_where (λ i. gone && is_linked id i) (unlink id) db.imports;
      },
    )

pub record PostSummary : Type 0 where
  pub id : ℕ
  pub tenant_id : ℕ
  pub author_id : ℕ
  pub slug : Text
  pub title : Text
  pub excerpt : Text
  pub status : PostStatus
  pub published_at : Option ℕ
  pub created_at : ℕ

abbrev pub summary_of : Post → PostSummary
summary_of p = record {
  id = p.id;
  tenant_id = p.tenant_id;
  author_id = p.author_id;
  slug = p.slug;
  title = p.title;
  excerpt = p.excerpt;
  status = p.status;
  published_at = p.published_at;
  created_at = p.created_at;
}

-- `order by created_at desc, id desc`.
abbrev pub newer : Post → Post → Bool
newer a b = ltb b.created_at a.created_at || (a.created_at == b.created_at && not (ltb a.id b.id))

abbrev pub status_open : Option String → PostStatus → Bool
status_open none status = true
status_open (some s) status = status_text status == s

abbrev pub author_open : Option ℕ → ℕ → Bool
author_open none author = true
author_open (some a) author = author == a

-- The WHERE clause of the list, with the policy.
abbrev pub is_listed : Scope → Option String → Option ℕ → Post → Bool
is_listed s status author p =
    (status_open status p.status && author_open author p.author_id) && visible s p.tenant_id

-- A status that is no `post_status` makes the cast fail; the caller sees an unnamed SQL error.
unfoldable pub list_post_summaries : Scope → Option String → Option ℕ → Read (List PostSummary)
list_post_summaries s status author db =
    let rows = map summary_of (sort_by newer (select (is_listed s status author) db.posts)) in
    elim status [
      | none ↦ ok rows
      | some t ↦ elim (parse_post_status t) [
        | none ↦ err Error.invalid_text_representation
        | some _ ↦ ok rows
      ]
    ]
