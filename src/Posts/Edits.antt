-- ===== src/Posts/Edits.antt =====
-- `Update` of service.go: what a success has found and written.
use mathlib.Core.Path.{subst}
use open_blog.Base.{
  ℕ, ◌≡◌, refl, Bool, true, false, not, nat_eq, text_eq_instance, Option, none, some, List, ◌∷◌,
  Text, any, find, find_sound, update_where, arith, ap, or_else, eq_of_some, sym, ◌∙◌,
  if◌then◌else◌,
}
use open_blog.Store.Errors.{ok}
use open_blog.Store.Rows.{Db, Post}
use open_blog.Store.Tx.{Scope, pure}
use open_blog.Store.Tx.Laws.{
  scoped_rw-eq-ok, >>=-eq-ok, lift-bind-eq-ok, read-bind-eq-ok, guard-bind-eq-ok, pure-eq-ok,
  read-eq-ok,
}
use open_blog.Store.Posts.{is_row, update_post, update_post_at, rewritten, slug_conflict}
use open_blog.Authz.Roles.{Actor, can, require, scope_from_actor, owns_post}
use open_blog.Authz.Roles.Capability.{edit_own_draft}
use open_blog.Render.Html.{External}
use open_blog.Posts.Service.{
  Fresh, UpdateInput, render, purge, found_post, confined, is_published, new_slug, merged,
  update_tx, update,
}
use open_blog.Posts.Slugs.{unique_slug}
use open_blog.Posts.Inversion.{purged_at, purge-eq-ok, found_post-eq-ok, require-eq-ok}

update_post_at-eq-ok :
    (s : Scope) (now : ℕ) (q : Post) (o : Option Post) {out : Post} (db : Db) {db' : Db}
    → update_post_at s now q o db ≡ ok (out, db')
    → (p : Post) × (o ≡ some p)
      × (out ≡ rewritten now q p)
      × (any (slug_conflict p q.slug) db.posts ≡ false)
      × (db' ≡ record db { posts = update_where (is_row s q.id) (rewritten now q) db.posts })
update_post_at-eq-ok s now q none db h = cc
update_post_at-eq-ok s now q (some p) db h = (p, refl, ground arith, ground arith, ground arith)

found_id :
    (s : Scope) (id : ℕ) (ps : List Post) {p : Post} → find (is_row s id) ps ≡ some p → p.id ≡ id
found_id s id ps h = ground (arith, find_sound (is_row s id) ps h)

-- The row that is written is the row that was read.
update_post-eq-ok :
    (s : Scope) (now id : ℕ) (q p : Post) {out : Post} (db : Db) {db' : Db}
    → q.id ≡ p.id
    → find (is_row s id) db.posts ≡ some p
    → update_post s now q db ≡ ok (out, db')
    → (out ≡ rewritten now q p)
      × (any (slug_conflict p q.slug) db.posts ≡ false)
      × (db' ≡ record db { posts = update_where (is_row s id) (rewritten now q) db.posts })
unfolding update_post
update_post-eq-ok s now id q p {out} db {db'} i f h =
    let e : q.id ≡ id = i ∙ found_id s id db.posts f in
    let (p', f', r, c, d) = update_post_at-eq-ok s now q (find (is_row s q.id) db.posts) db h in
    let k : p' ≡ p = eq_of_some (sym f' ∙ ap (λ x. find (is_row s x) db.posts) e ∙ f) in
    (
      subst (λ x. out ≡ rewritten now q x) k r,
      subst (λ x. any (slug_conflict x q.slug) db.posts ≡ false) k c,
      subst (λ x. db' ≡ record db { posts = update_where (is_row s x) (rewritten now q) db.posts })
          e d,
    )

module _ (ext : External) where
  -- The slug of an update is the one the post has, if none is asked for; on a post that is not
  -- published it is what `uniqueSlug` makes of the one asked for.
  abbrev pub IsSlugFor : Scope → Post → Option Text → Db → (slug : Text) → Type 0
  IsSlugFor s p none db slug = slug ≡ p.slug
  IsSlugFor s p (some desired) db slug =
      (is_published p.status ≡ false)
      × (unique_slug ext.lower_table s s.tenant_id desired db ≡ ok slug)

  new_slug-IsSlugFor :
      (origin : Text) (id_text : ℕ → Text) (s : Scope) (p : Post) (o : Option Text) {slug : Text}
      (db : Db) {db' : Db}
      → new_slug ext origin id_text s p o db ≡ ok (slug, db')
      → (db' ≡ db) × IsSlugFor s p o db slug
  new_slug-IsSlugFor origin id_text s p none db h = let (e, k) = pure-eq-ok _ db h in (k, e)
  new_slug-IsSlugFor origin id_text s p (some desired) db h =
      let (e, k) = guard-bind-eq-ok _ _ _ db h in
      let (u, d) = read-eq-ok _ k in (d, (ground arith, u))

  frozen-IsSlugFor :
      (s : Scope) (p : Post) (o : Option Text) (db : Db) (slug : Text)
      → IsSlugFor s p o db slug
      → is_published p.status ≡ true
      → (o ≡ none) × (slug ≡ p.slug)
  frozen-IsSlugFor s p none db slug h shown = (refl, h)
  frozen-IsSlugFor s p (some desired) db slug (hidden, u) shown = cc

module _ (ext : External) (origin : Text) (id_text : ℕ → Text) where
  -- A purge of a published post, nothing otherwise.
  abbrev pub purged_if : Bool → Fresh → (tenant : ℕ) → (key : Text) → (post : ℕ) → Db → Db
  purged_if b fresh tenant key post db = if b then purged_at fresh tenant key post db else db

  purge_if-eq-ok :
      (b : Bool) (fresh : Fresh) (tenant c : ℕ) (key : Text) (p : Post) {u : Unit {0}} (db db' : Db)
      → id_text tenant ≡ c ∷ key
      → (if b then purge ext origin id_text fresh tenant p else pure tt) db ≡ ok (u, db')
      → db' ≡ purged_if b fresh tenant (c ∷ key) p.id db
  purge_if-eq-ok true fresh tenant c key p db db' k h =
      (purge-eq-ok ext origin id_text fresh tenant c key p db db' k h).1
  purge_if-eq-ok false fresh tenant c key p db db' k h = let (_, e) = pure-eq-ok tt db h in e

  -- The parts of a successful update.
  pub record IsUpdate (fresh : Fresh) (actor : Actor) (id : ℕ) (input : UpdateInput) (key : Text)
      (db db' : Db) (out : Post) : Type 0 where
    pub allowed : can actor edit_own_draft ≡ true
    pub before : Post
    pub found : find (is_row (scope_from_actor actor) id) db.posts ≡ some before
    pub owned : owns_post actor before.author_id ≡ true
    pub unconfined : confined actor before.status ≡ false
    pub slug : Text
    pub slug_for : IsSlugFor ext (scope_from_actor actor) before input.slug db slug
    pub frozen : is_published before.status ≡ true → (input.slug ≡ none) × (slug ≡ before.slug)
    pub html : Text
    pub rendered :
        render ext origin id_text
          (or_else input.content_markdown before.content_markdown)
          (or_else input.metadata before.metadata)
        ≡ ok html
    pub result : out ≡ record before {
      title = or_else input.title before.title;
      slug = slug;
      excerpt = or_else input.excerpt before.excerpt;
      content_markdown = or_else input.content_markdown before.content_markdown;
      content_html = html;
      updated_at = fresh.now;
    }
    pub kept : out.metadata ≡ before.metadata
    pub free : any (slug_conflict before slug) db.posts ≡ false
    pub written :
        db'
        ≡ purged_if
            (is_published before.status)
            fresh
            (scope_from_actor actor).tenant_id
            key
            before.id
            (record db {
              posts =
                  update_where
                    (is_row (scope_from_actor actor) id)
                    (rewritten fresh.now (merged input before slug html))
                    db.posts;
            })

  -- The record from what the steps of the transaction give.
  steps-IsUpdate :
      (fresh : Fresh) (actor : Actor) (id : ℕ) (input : UpdateInput) (c : ℕ) (key : Text)
      (p o out : Post) (slug html : Text) {u : Unit {0}} {v : Unit {0}} (db db1 db2 db3 db' : Db)
      → id_text (scope_from_actor actor).tenant_id ≡ c ∷ key
      → require actor edit_own_draft ≡ ok u
      → found_post (scope_from_actor actor) id db ≡ ok p
      → owns_post actor p.author_id ≡ true
      → not (confined actor p.status) ≡ true
      → new_slug ext origin id_text (scope_from_actor actor) p input.slug db ≡ ok (slug, db1)
      → render ext origin id_text
          (or_else input.content_markdown p.content_markdown)
          (or_else input.metadata p.metadata)
        ≡ ok html
      → update_post (scope_from_actor actor) fresh.now (merged input p slug html) db1 ≡ ok (o, db2)
      → (if is_published o.status
            then purge ext origin id_text fresh (scope_from_actor actor).tenant_id o
            else pure tt)
          db2
        ≡ ok (v, db3)
      → out ≡ o
      → db' ≡ db3
      → IsUpdate fresh actor id input (c ∷ key) db db' out
  steps-IsUpdate fresh actor id input c key p o out slug html db db1 db2 db3 db' k e1 e2 e3 e4 e5 e6
        e7 e8 e9 e10 =
      let s = scope_from_actor actor in
      let f : find (is_row s id) db.posts ≡ some p = found_post-eq-ok s id db e2 in
      let (e, asked) = new_slug-IsSlugFor ext origin id_text s p input.slug db e5 in
      let (r, free, w) =
        update_post-eq-ok s fresh.now id (merged input p slug html) p db1 refl
          (subst (λ d. find (is_row s id) d.posts ≡ some p) (sym e) f) e7 in
      let ps = purge_if-eq-ok (is_published o.status) fresh s.tenant_id c key o db2 db3 k e8 in
      let rewrite : Db → Db = λ d. record d {
        posts = update_where (is_row s id) (rewritten fresh.now (merged input p slug html)) d.posts;
      } in
      record {
        allowed = require-eq-ok actor edit_own_draft e1;
        before = p;
        found = f;
        owned = e3;
        unconfined = ground arith;
        slug = slug;
        slug_for = asked;
        frozen = frozen-IsSlugFor ext s p input.slug db slug asked;
        html = html;
        rendered = e6;
        result = e9 ∙ r;
        kept = ap (λ x. x.metadata) (e9 ∙ r);
        free = subst (λ d. any (slug_conflict p slug) d.posts ≡ false) e free;
        written =
            e10
            ∙ ps
            ∙ ap (λ x. purged_if (is_published x.status) fresh s.tenant_id (c ∷ key) x.id db2) r
            ∙ ap (purged_if (is_published p.status) fresh s.tenant_id (c ∷ key) p.id)
                (w ∙ ap rewrite e);
      }

  -- A successful `Update` was allowed, found the post in the actor's scope, and the actor owns it and,
  -- as a plain author, finds it a draft. Without a new slug in the input the post keeps its slug; with
  -- one it is not published, and its slug is the one that `uniqueSlug` derives; no other post of the
  -- tenant has it. The HTML is the new Markdown rendered under the new metadata, the title, the excerpt
  -- and the Markdown are those of the input where it has them, and the row keeps the metadata that it
  -- had, with the status and the times of publication and creation. Where the post is published, the
  -- version of the tenant is bumped, and a purge job for the tenant is queued, unless one with its key is
  -- there in whatever state. Nothing else changes. The text of the tenant's id is not empty.
  pub update-IsUpdate :
      (fresh : Fresh) (actor : Actor) (id : ℕ) (input : UpdateInput) (c : ℕ) (key : Text)
      (out : Post) (db db' : Db)
      → id_text (scope_from_actor actor).tenant_id ≡ c ∷ key
      → update ext origin id_text fresh actor id input db ≡ (ok out, db')
      → IsUpdate fresh actor id input (c ∷ key) db db' out
  unfolding update update_tx
  update-IsUpdate fresh actor id input c key out db db' k h =
      let (_, e1, h1) =
        lift-bind-eq-ok _ _ db
          (scoped_rw-eq-ok (update_tx ext origin id_text fresh actor id input) h) in
      let (p, e2, h2) = read-bind-eq-ok _ _ db h1 in
      let (e3, h3) = guard-bind-eq-ok _ _ _ db h2 in
      let (e4, h4) = guard-bind-eq-ok _ _ _ db h3 in
      let (slug, db1, e5, h5) = >>=-eq-ok _ _ db h4 in
      let (html, e6, h6) = lift-bind-eq-ok _ _ db1 h5 in
      let (o, db2, e7, h7) = >>=-eq-ok _ _ db1 h6 in
      let (_, db3, e8, h8) = >>=-eq-ok _ _ db2 h7 in
      let (e9, e10) = pure-eq-ok o db3 h8 in
      steps-IsUpdate fresh actor id input c key p o out slug html db db1 db2 db3 db' k e1 e2 e3 e4
        e5 e6 e7 e8 e9 e10
