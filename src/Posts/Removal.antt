-- ===== src/Posts/Removal.antt =====
-- `Delete` and `Get` of service.go: what a success has found and left.
use open_blog.Base.{
  ℕ, ◌≡◌, refl, Bool, true, false, not, ◌&&◌, ◌==◌, nat_eq, text_eq_instance, none, some, any, find,
  find_sound, find-any, select, update_where, arith, ap, sym, ◌∙◌, if◌then◌else◌,
}
use open_blog.Store.Errors.{Error, Result, ok, err}
use open_blog.Store.Rows.{Db, Post}
use open_blog.Store.Tx.{Scope, scoped, visible}
use open_blog.Store.Tx.Laws.{scoped_rw-eq-ok, lift-bind-eq-ok, read-bind-eq-ok, guard-bind-eq-ok}
use open_blog.Store.Posts.{is_row, is_linked, unlink, delete_post}
use open_blog.Authz.Roles.{Actor, can, scope_from_actor, owns_post}
use open_blog.Authz.Roles.Capability.{edit_own_draft}
use open_blog.Posts.Service.{confined, found_post, delete_tx, delete, get, owned_or_forbidden}
use open_blog.Posts.Inversion.{found_post-eq-ok, require-eq-ok}

-- The parts of a successful deletion.
pub record IsDelete (actor : Actor) (id : ℕ) (db db' : Db) : Type 0 where
  pub allowed : can actor edit_own_draft ≡ true
  pub before : Post
  pub found : find (is_row (scope_from_actor actor) id) db.posts ≡ some before
  pub owned : owns_post actor before.author_id ≡ true
  pub unconfined : confined actor before.status ≡ false
  pub written : db' ≡ record db {
    posts = select (λ p. not (is_row (scope_from_actor actor) id p)) db.posts;
    images = select (λ i. not (i.post_id == id)) db.images;
    imports =
        update_where
          (λ i. elim i.post_id [ none ↦ false | some p ↦ p == id ])
          (λ i. record i { post_id = none })
          db.imports;
  }

delete_post-eq-ok :
    (s : Scope) (id : ℕ) {p : Post} {u : Unit {0}} (db db' : Db)
    → find (is_row s id) db.posts ≡ some p
    → delete_post s id db ≡ ok (u, db')
    → db' ≡ record db {
      posts = select (λ p. not (is_row s id p)) db.posts;
      images = select (λ i. not (i.post_id == id)) db.images;
      imports = update_where (is_linked id) (unlink id) db.imports;
    }
unfolding delete_post
delete_post-eq-ok s id db db' f h =
    let cascade : Bool → Db = λ b. record db {
      posts = select (λ p. not (is_row s id p)) db.posts;
      images = select (λ i. not (b && i.post_id == id)) db.images;
      imports = update_where (λ i. b && is_linked id i) (unlink id) db.imports;
    } in
    let e : db' ≡ cascade (any (is_row s id) db.posts) = ground arith in
    e ∙ ap cascade (find-any (is_row s id) db.posts f)

-- A successful `Delete` was allowed, found the post in the actor's scope, and the actor owns it and, as
-- a plain author, finds it a draft. The row and its images are gone, and imports linked to the post are
-- linked to none. Nothing else changes: no tenant's version and no job, also where the post was
-- published.
pub delete-IsDelete :
    (actor : Actor) (id : ℕ) (u : Unit {0}) (db db' : Db)
    → delete actor id db ≡ (ok u, db')
    → IsDelete actor id db db'
unfolding delete delete_tx
delete-IsDelete actor id u db db' h =
    let s = scope_from_actor actor in
    let (_, e1, h1) = lift-bind-eq-ok _ _ db (scoped_rw-eq-ok (delete_tx actor id) h) in
    let (p, e2, h2) = read-bind-eq-ok _ _ db h1 in
    let (e3, h3) = guard-bind-eq-ok _ _ _ db h2 in
    let (e4, h4) = guard-bind-eq-ok _ _ _ db h3 in
    let f : find (is_row s id) db.posts ≡ some p = found_post-eq-ok s id db e2 in
    record {
      allowed = require-eq-ok actor edit_own_draft e1;
      before = p;
      found = f;
      owned = e3;
      unconfined = ground arith;
      written = delete_post-eq-ok s id db db' f h4;
    }

if-eq-ok :
    (b : Bool) (q : Post) (e : Error) {p : Post}
    → (if b then ok q else err e) ≡ ok p
    → (q ≡ p) × (b ≡ true)
if-eq-ok true q e h = (ground arith, refl)
if-eq-ok false q e h = cc

owned_or_forbidden-eq-ok :
    (actor : Actor) (r : Result Post) {p : Post}
    → owned_or_forbidden actor r ≡ ok p
    → (r ≡ ok p) × (owns_post actor p.author_id ≡ true)
owned_or_forbidden-eq-ok actor (err e) h = cc
owned_or_forbidden-eq-ok actor (ok q) {p} h =
    let (e, o) = if-eq-ok (owns_post actor q.author_id) q Error.forbidden h in
    (ap ok e, ap (λ x. owns_post actor x.author_id) (sym e) ∙ o)

-- `Get` gives only a post with the wanted id whose tenant the actor's scope sees and that the actor
-- owns.
pub get_sound :
    (actor : Actor) (id : ℕ) (p : Post) (db : Db)
    → get actor id db ≡ ok p
    → (p.id ≡ id)
      × (visible (scope_from_actor actor) p.tenant_id ≡ true)
      × (owns_post actor p.author_id ≡ true)
unfolding get scoped
get_sound actor id p db h =
    let (e, o) = owned_or_forbidden-eq-ok actor (found_post (scope_from_actor actor) id db) h in
    let f =
      find_sound (is_row (scope_from_actor actor) id) db.posts
        (found_post-eq-ok (scope_from_actor actor) id db e) in
    (ground arith, ground arith, o)
