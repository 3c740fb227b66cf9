-- ===== src/Media/Removal.antt =====
-- `Delete` of media.go.
use open_blog.Base.{
  ℕ, ◌≡◌, ◌⊎◌, inl, inr, true, not, Option, none, some, find, select, ap, sym, ◌∙◌, Bool-cases,
}
use open_blog.Store.Errors.{Error, ok, eq_of_ok}
use open_blog.Store.Rows.{Db, Post, PostImage}
use open_blog.Store.Tx.{Scope, guard, row}
use open_blog.Store.Tx.Laws.{>>=-eq-ok, scoped_rw-eq-ok, guard-eq-ok, read-bind-eq-ok, pure-eq-ok}
use open_blog.Store.Posts.{get_post_by_id, is_row}
use open_blog.Store.Images.{is_image, delete_post_image, get_post_image_by_id}
use open_blog.Authz.Roles.{Actor, can, owns_post, scope_from_actor}
use open_blog.Authz.Roles.Capability.{edit_any_post}
use open_blog.Posts.Errors.{no_rows_as-eq-ok}
use open_blog.Media.Service.{delete_image, delete_image_tx, may_delete}

row-eq-some : {A : Type 0} (o : Option A) {a : A} → row o ≡ ok a → o ≡ some a
row-eq-some none h = cc
row-eq-some (some a) h = ap some (eq_of_ok h)

-- The actor may edit any post, or owns the post of the image.
abbrev pub MayDelete : Actor → PostImage → Db → Type 0
MayDelete actor img db =
    (can actor edit_any_post ≡ true)
    ⊎ ((p : Post) × (find (is_row (scope_from_actor actor) img.post_id) db.posts ≡ some p)
        × (owns_post actor p.author_id ≡ true))

may_delete-MayDelete :
    (actor : Actor) (img : PostImage) {u : Unit {0}} (db db' : Db)
    → may_delete actor (scope_from_actor actor) img db ≡ ok (u, db')
    → MayDelete actor img db × (db' ≡ db)
unfolding get_post_by_id
may_delete-MayDelete actor img db db' h = elim (Bool-cases (can actor edit_any_post)) [
  | inl e ↦ (inl e, (pure-eq-ok tt db (rw e at h)).1)
  | inr e ↦
      let (p, f, k) =
        read-bind-eq-ok (get_post_by_id (scope_from_actor actor) img.post_id)
          (λ p. guard (owns_post actor p.author_id) Error.media_forbidden) db (rw e at h) in
      let (o, same) = guard-eq-ok (owns_post actor p.author_id) Error.media_forbidden k in
      (inr (p, row-eq-some _ f, o), same)
]

abbrev without_image : Scope → ℕ → Db → Db
without_image s id db = record db { images = select (λ i. not (is_image s id i)) db.images }

-- A successful `Delete` found the image in the actor's scope, and the actor may edit any post or owns
-- the image's post. The row is gone, and nothing else changes.
pub delete_image_sound :
    (actor : Actor) (id : ℕ) (u : Unit {0}) (db db' : Db)
    → delete_image actor id db ≡ (ok u, db')
    → (img : PostImage) × (find (is_image (scope_from_actor actor) id) db.images ≡ some img)
      × MayDelete actor img db
      × (db' ≡ record db {
        images = select (λ i. not (is_image (scope_from_actor actor) id i)) db.images;
      })
unfolding delete_image delete_image_tx get_post_image_by_id delete_post_image
delete_image_sound actor id u db db' h =
    let s = scope_from_actor actor in
    let (img, e, h1) = read-bind-eq-ok _ _ db (scoped_rw-eq-ok (delete_image_tx actor id) h) in
    let (_, db1, e2, h2) = >>=-eq-ok _ _ db h1 in
    let (may, same) = may_delete-MayDelete actor img db db1 e2 in
    (
      img,
      row-eq-some _ (no_rows_as-eq-ok Error.image_not_found _ e),
      may,
      sym (ap (λ p. p.1) (eq_of_ok h2)) ∙ ap (without_image s id) same,
    )
