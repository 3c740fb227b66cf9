-- ===== src/Posts/Transition.antt =====
-- `Publish`, `Unpublish` and `Archive` of service.go: what a success has found and written.
use mathlib.Core.Path.{subst}
use open_blog.Base.{
  text_eq_iff, if◌then◌else◌, eq_of_some, sym, ◌∙◌, ℕ, ◌≡◌, refl, ◌≢◌, Bool, true, false, not, ◌&&◌,
  ◌==◌, text_eq_instance, Option, none, some, [], ◌∷◌, Text, any, find, update_where, arith, ap,
  trim_space, codes,
}
use open_blog.Store.Errors.{ok}
use open_blog.Store.Rows.{Db, Post, PostStatus}
use open_blog.Store.Rows.PostStatus.{draft, published, archived}
use open_blog.Store.Tx.{Scope}
use open_blog.Store.Tx.Laws.{
  scoped_rw-eq-ok, >>=-eq-ok, lift-bind-eq-ok, read-bind-eq-ok, guard-bind-eq-ok, pure-eq-ok,
}
use open_blog.Store.Posts.{is_row, set_post_status, set_post_status_at, with_status}
use open_blog.Authz.Roles.{Actor, can, scope_from_actor}
use open_blog.Authz.Roles.Capability.{publish_archive}
use open_blog.Render.Html.{External}
use open_blog.Store.Tenants.{is_tenant}
use open_blog.Posts.Service.{Fresh, render, time_if, transition_tx, publish, unpublish, archive}
use open_blog.Posts.Inversion.{purged, purged_at, purge-eq-ok, found_post-eq-ok, require-eq-ok}

set_status_at-eq-ok :
    (s : Scope) (now id : ℕ) (f : Post → Post) (o : Option Post) {out : Post} (db : Db) {db' : Db}
    → set_post_status_at s now id f o db ≡ ok (out, db')
    → (p : Post) × (o ≡ some p)
      × (out ≡ f p)
      × (db' ≡ record db { posts = update_where (is_row s id) f db.posts })
set_status_at-eq-ok s now id f none db h = cc
set_status_at-eq-ok s now id f (some p) db h = (p, refl, ground arith, ground arith)

set_status-eq-ok :
    (s : Scope) (now id : ℕ) (status : PostStatus) (at : Option ℕ) (html : Text) {out : Post}
    (db : Db) {db' : Db}
    → set_post_status s now id status at html db ≡ ok (out, db')
    → (p : Post) × (find (is_row s id) db.posts ≡ some p)
      × (out ≡ with_status now status at html p)
      × (db' ≡ record db {
        posts = update_where (is_row s id) (with_status now status at html) db.posts;
      })
unfolding set_post_status
set_status-eq-ok s now id status at html db h =
    set_status_at-eq-ok s now id (with_status now status at html) _ db h

not_empty : (t : Text) → not (t == []) ≡ true → t ≢ []
not_empty t h = λ k. ground (arith, (text_eq_iff t []).1 k)

not_blank :
    (b : Bool) (s : Text)
    → not (b && trim_space s == codes "") ≡ true
    → b ≡ true
    → trim_space s ≢ []
not_blank false s h e = cc
not_blank true s h e = not_empty (trim_space s) h

module _ (ext : External) (origin : Text) (id_text : ℕ → Text) where
  -- The actor may publish and sees the post; it has a text, if it is published; its Markdown is
  -- rendered again; the status, the time and the HTML are written to this post alone; the tenant is
  -- there; and a purge is left for it.
  pub record IsTransition (fresh : Fresh) (actor : Actor) (id : ℕ) (status : PostStatus)
      (publishing : Bool) (key : Text) (db db' : Db) (out : Post) : Type 0 where
    pub allowed : can actor publish_archive ≡ true
    pub before : Post
    pub found : find (is_row (scope_from_actor actor) id) db.posts ≡ some before
    pub filled : publishing ≡ true → trim_space before.content_markdown ≢ []
    pub html : Text
    pub rendered : render ext origin id_text before.content_markdown before.metadata ≡ ok html
    pub result : out ≡ record before {
      status = status;
      published_at = if publishing then some fresh.now else none;
      content_html = html;
      updated_at = fresh.now;
    }
    pub posts :
        db'.posts
        ≡ update_where
            (is_row (scope_from_actor actor) id)
            (with_status fresh.now status (time_if publishing fresh.now) html)
            db.posts
    pub exists : any (is_tenant (scope_from_actor actor).tenant_id) db.tenants ≡ true
    pub written :
        db'
        ≡ purged_at fresh (scope_from_actor actor).tenant_id key before.id (record db {
          posts =
              update_where
                (is_row (scope_from_actor actor) id)
                (with_status fresh.now status (time_if publishing fresh.now) html)
                db.posts;
        })

  transition_tx-IsTransition :
      (fresh : Fresh) (actor : Actor) (id : ℕ) (status : PostStatus) (publishing : Bool) (c : ℕ)
      (key : Text) {out : Post} (db db' : Db)
      → id_text (scope_from_actor actor).tenant_id ≡ c ∷ key
      → transition_tx ext origin id_text fresh actor id status publishing db ≡ ok (out, db')
      → IsTransition fresh actor id status publishing (c ∷ key) db db' out
  unfolding transition_tx
  transition_tx-IsTransition fresh actor id status publishing c key {out} db db' k h =
      let (_, e1, h1) = lift-bind-eq-ok _ _ db h in
      let (p, e2, h2) = read-bind-eq-ok _ _ db h1 in
      let (e3, h3) = guard-bind-eq-ok _ _ _ db h2 in
      let (html, e4, h4) = lift-bind-eq-ok _ _ db h3 in
      let (o, db1, e5, h5) = >>=-eq-ok _ _ db h4 in
      let (_, db2, e6, h6) = >>=-eq-ok _ _ db1 h5 in
      let (e7, e8) = pure-eq-ok o db2 h6 in
      let (q, e9, e10, e11) = set_status-eq-ok _ fresh.now id status _ html db e5 in
      let (there, g) = purge-eq-ok ext origin id_text fresh _ c key o db1 db2 k e6 in
      let f : find (is_row (scope_from_actor actor) id) db.posts ≡ some p =
        found_post-eq-ok (scope_from_actor actor) id db e2 in
      let set : Db = record db {
        posts =
            update_where (is_row (scope_from_actor actor) id)
              (with_status fresh.now status (time_if publishing fresh.now) html) db.posts;
      } in
      let same : o.id ≡ p.id = ap (λ x. x.id) e10 ∙ ap (λ x. x.id) (eq_of_some (sym e9 ∙ f)) in
      record {
        allowed = require-eq-ok actor publish_archive e1;
        before = p;
        found = f;
        filled = not_blank publishing p.content_markdown e3;
        html = html;
        rendered = e4;
        result =
            e7
            ∙ e10
            ∙ ap (with_status fresh.now status (time_if publishing fresh.now) html)
                (eq_of_some (sym e9 ∙ f));
        posts = cc;
        exists =
            subst (λ ts. any (is_tenant (scope_from_actor actor).tenant_id) ts ≡ true)
              (ap (λ d. d.tenants) e11) there;
        written =
            e8
            ∙ g
            ∙ ap (purged fresh (scope_from_actor actor).tenant_id (c ∷ key) o) e11
            ∙ ap (λ i. purged_at fresh (scope_from_actor actor).tenant_id (c ∷ key) i set) same;
      }

  -- A successful `Publish` was allowed for the actor, found a post in the actor's scope whose Markdown
  -- is not blank, renders this Markdown under the stored metadata again, and writes that HTML, the
  -- published status and the time to the rows with that id in the scope; it bumps the version of the
  -- scope's tenant, which exists, and queues a purge job with the text of its id as the key and the
  -- post and the new version in its payload, unless a job of that key is there, in whatever state: then
  -- the queue stays as it is. Nothing else changes. The text of the tenant's id is not empty.
  pub publish-IsTransition :
      (fresh : Fresh) (actor : Actor) (id c : ℕ) (key : Text) (out : Post) (db db' : Db)
      → id_text (scope_from_actor actor).tenant_id ≡ c ∷ key
      → publish ext origin id_text fresh actor id db ≡ (ok out, db')
      → IsTransition fresh actor id published true (c ∷ key) db db' out
  unfolding publish
  publish-IsTransition fresh actor id c key out db db' k h =
      transition_tx-IsTransition fresh actor id published true c key db db' k (scoped_rw-eq-ok _ h)

  -- A successful `Unpublish` was allowed for the actor, found a post in the actor's scope, and writes
  -- its Markdown rendered again, the draft status and no time to the rows with that id in the scope; it
  -- bumps the version of the scope's tenant and leaves the queue as `Publish` does. Nothing else changes.
  -- The text of the tenant's id is not empty.
  pub unpublish-IsTransition :
      (fresh : Fresh) (actor : Actor) (id c : ℕ) (key : Text) (out : Post) (db db' : Db)
      → id_text (scope_from_actor actor).tenant_id ≡ c ∷ key
      → unpublish ext origin id_text fresh actor id db ≡ (ok out, db')
      → IsTransition fresh actor id draft false (c ∷ key) db db' out
  unfolding unpublish
  unpublish-IsTransition fresh actor id c key out db db' k h =
      transition_tx-IsTransition fresh actor id draft false c key db db' k (scoped_rw-eq-ok _ h)

  -- A successful `Archive` was allowed for the actor, found a post in the actor's scope, and writes
  -- its Markdown rendered again, the archived status and no time to the rows with that id in the scope;
  -- it bumps the version of the scope's tenant and leaves the queue as `Publish` does. Nothing else
  -- changes. The text of the tenant's id is not empty.
  pub archive-IsTransition :
      (fresh : Fresh) (actor : Actor) (id c : ℕ) (key : Text) (out : Post) (db db' : Db)
      → id_text (scope_from_actor actor).tenant_id ≡ c ∷ key
      → archive ext origin id_text fresh actor id db ≡ (ok out, db')
      → IsTransition fresh actor id archived false (c ∷ key) db db' out
  unfolding archive
  archive-IsTransition fresh actor id c key out db db' k h =
      transition_tx-IsTransition fresh actor id archived false c key db db' k (scoped_rw-eq-ok _ h)
