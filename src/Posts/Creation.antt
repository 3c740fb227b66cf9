-- ===== src/Posts/Creation.antt =====
-- `Create` of service.go: what a success has written.
use mathlib.Core.Path.{subst}
use open_blog.Base.{
  Option, some, [], refl, codes, ◌==◌, if◌then◌else◌, ℕ, ◌≡◌, ◌≢◌, true, false, nat_eq,
  text_eq_instance, none, ◌∷◌, Text, any, arith, sym,
}
use open_blog.Store.Errors.{ok}
use open_blog.Store.Rows.{Db, Post, PostStatus}
use open_blog.Store.Tx.{Scope, nil_id}
use open_blog.Store.Tx.Laws.{scoped_rw-eq-ok, lift-bind-eq-ok, read-bind-eq-ok, guard-bind-eq-ok}
use open_blog.Store.Posts.{metadata_of, insert_post, create_post, post_conflict}
use open_blog.Authz.Roles.{Actor, can, scope_from_actor}
use open_blog.Authz.Roles.Capability.{create_draft}
use open_blog.Render.Html.{External}
use open_blog.Posts.Slugs.{unique_slug}
use open_blog.Posts.SlugSearch.{IsFree, unique_slug-first}
use open_blog.Posts.Service.{
  Fresh, CreateInput, render, slug_base, drafted, or_taken, create_tx, create,
}
use open_blog.Posts.Errors.{taken_if_violated-eq-ok}
use open_blog.Posts.Inversion.{require-eq-ok}

abbrev inserted_as : (now : ℕ) → (metadata : Text) → Post → Post
inserted_as now metadata p = record p {
  status = PostStatus.draft;
  published_at = none;
  metadata = metadata;
  created_at = now;
  updated_at = now;
}

insert_post-eq-ok :
    (s : Scope) (now : ℕ) (p : Post) (o : Option Text) {out : Post} (db : Db) {db' : Db}
    → insert_post s now p o db ≡ ok (out, db')
    → (metadata : Text) × (o ≡ some metadata)
      × (any (post_conflict out) db.posts ≡ false)
      × (out ≡ inserted_as now metadata p)
      × (db' ≡ record db { posts = out ∷ db.posts })
insert_post-eq-ok s now p none db h = cc
insert_post-eq-ok s now p (some metadata) {out} db h =
    let o : out ≡ inserted_as now metadata p = ground arith in
    let c : any (post_conflict p) db.posts ≡ false = ground arith in
    (metadata, refl, subst (λ q. any (post_conflict q) db.posts ≡ false) (sym o) c, o, ground arith)

create_post-eq-ok :
    (to_jsonb : Text → Option Text) (s : Scope) (now : ℕ) (p : Post) {out : Post} (db : Db)
    {db' : Db}
    → create_post to_jsonb s now p db ≡ ok (out, db')
    → (metadata : Text) × (metadata_of to_jsonb p.metadata ≡ some metadata)
      × (any (post_conflict out) db.posts ≡ false)
      × (out ≡ inserted_as now metadata p)
      × (db' ≡ record db { posts = out ∷ db.posts })
unfolding create_post
create_post-eq-ok to_jsonb s now p db h =
    insert_post-eq-ok s now p (metadata_of to_jsonb p.metadata) db h

module _ (ext : External) (origin : Text) (id_text : ℕ → Text) where
  -- The parts of a successful creation.
  pub record IsCreated (fresh : Fresh) (actor : Actor) (input : CreateInput) (db db' : Db)
      (out : Post) : Type 0 where
    pub allowed : can actor create_draft ≡ true
    pub active : (scope_from_actor actor).tenant_id ≢ nil_id
    pub html : Text
    pub rendered : render ext origin id_text input.content_markdown input.metadata ≡ ok html
    pub slug : Text
    pub slug_for :
        unique_slug ext.lower_table
          (scope_from_actor actor)
          (scope_from_actor actor).tenant_id
          (if input.slug == codes "" then input.title else input.slug)
          db
        ≡ ok slug
    pub free : IsFree (scope_from_actor actor) (scope_from_actor actor).tenant_id db slug
    pub metadata : Text
    pub metadata_for :
        elim input.metadata [ [] ↦ some (codes "{}") | c ∷ m ↦ ext.to_jsonb (c ∷ m) ]
        ≡ some metadata
    pub row : out ≡ record {
      id = fresh.id;
      tenant_id = (scope_from_actor actor).tenant_id;
      author_id = actor.user_id;
      slug = slug;
      title = input.title;
      excerpt = input.excerpt;
      content_markdown = input.content_markdown;
      content_html = html;
      status = PostStatus.draft;
      published_at = none;
      metadata = metadata;
      created_at = fresh.now;
      updated_at = fresh.now;
    }
    pub fresh_row : any (post_conflict out) db.posts ≡ false
    pub written : db' ≡ record db { posts = out ∷ db.posts }

  -- A successful `Create` was allowed and has an active tenant. It adds one row and changes nothing
  -- else: a draft of the actor in that tenant with the id and the time of the call, the title, the
  -- excerpt and the Markdown of the input, its metadata as `jsonb` writes it or else an empty object, and the HTML rendered
  -- from the Markdown under that metadata. The slug is the one that `uniqueSlug` derives from the slug
  -- asked for, or else from the title, and was free in the tenant; no row has the id, or the tenant and
  -- the slug.
  pub create-IsCreated :
      (fresh : Fresh) (actor : Actor) (input : CreateInput) (out : Post) (db db' : Db)
      → create ext origin id_text fresh actor input db ≡ (ok out, db')
      → IsCreated fresh actor input db db' out
  unfolding create create_tx or_taken open_blog.Store.Posts.empty_object
  create-IsCreated fresh actor input out db db' h =
      let s = scope_from_actor actor in
      let (_, e1, h1) =
        lift-bind-eq-ok _ _ db
          (scoped_rw-eq-ok (create_tx ext origin id_text fresh actor input) h) in
      let (e2, h2) = guard-bind-eq-ok _ _ _ db h1 in
      let (html, e3, h3) = lift-bind-eq-ok _ _ db h2 in
      let (slug, e4, h4) = read-bind-eq-ok _ _ db h3 in
      let p : Post = drafted ext origin id_text fresh actor s input html slug in
      let (meta, g, c, r, w) =
        create_post-eq-ok ext.to_jsonb s fresh.now p db
          (taken_if_violated-eq-ok (create_post ext.to_jsonb s fresh.now p db) h4) in
      record {
        allowed = require-eq-ok actor create_draft e1;
        active = ground arith;
        html = html;
        rendered = e3;
        slug = slug;
        slug_for = e4;
        free = (unique_slug-first ext.lower_table s s.tenant_id (slug_base input) slug db e4).0;
        metadata = meta;
        metadata_for = g;
        row = r;
        fresh_row = c;
        written = w;
      }
