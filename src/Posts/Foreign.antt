-- ===== src/Posts/Foreign.antt =====
-- The operations on posts and the rows of the other tenants.
use open_blog.Base.{
  ℕ, ◌≡◌, Bool, true, false, nat_eq, text_eq_instance, if◌then◌else◌, Option, none, some, Text,
  arith,
}
use open_blog.Store.Errors.{Error, Result}
use open_blog.Store.Rows.{Db, Post, PostStatus}
use open_blog.Store.Rows.PostStatus.{draft, published, archived}
use open_blog.Store.Tx.{visible, Tx, Read, ◌>>=◌, pure, guard, read, lift, scoped_rw}
use open_blog.Store.Tx.Laws.{
  Keeps, Keeps-read, Keeps-lift, Keeps-guard, Keeps-pure, Keeps-if, Keeps-bind, Keeps-scoped_rw,
}
use open_blog.Store.Posts.{create_post, update_post, set_post_status, delete_post}
use open_blog.Authz.Roles.{Actor, scope_from_actor}
use open_blog.Authz.Isolation.{visible-scope_from_actor}
use open_blog.Render.Html.{External}
use open_blog.Posts.Errors.{taken_if_violated-eq-ok}
use open_blog.Posts.Service.{
  Fresh, CreateInput, UpdateInput, purge, create_tx, create, update_tx, update, transition_tx,
  publish, unpublish, archive, delete_tx, delete, or_taken, new_slug,
}
use open_blog.Posts.ForeignRows.{
  SameForeign, still, comp, create_post-keeps, Keeps-update_post, Keeps-set_post_status,
  Keeps-delete_post, Keeps-bump, Keeps-enqueue,
}

-- The scope of an actor with a tenant sees that tenant alone.
only_tenant :
    (a : Actor) (t : ℕ)
    → a.tenant ≡ some t
    → (u : ℕ) → visible (scope_from_actor a) u ≡ true
    → u ≡ t
only_tenant a t e u h = ground (arith, visible-scope_from_actor a u)

module _ (t : ℕ) where
  keep-bind :
      {A B : Type 0} (m : Tx A) (f : A → Tx B)
      → Keeps (SameForeign t) m
      → ((x : A) → Keeps (SameForeign t) (f x))
      → Keeps (SameForeign t) (m >>= f)
  keep-bind = Keeps-bind (SameForeign t) (comp t)

  keep-read : {A : Type 0} (m : Read A) → Keeps (SameForeign t) (read m)
  keep-read = Keeps-read (SameForeign t) (still t)

  keep-lift : {A : Type 0} (r : Result A) → Keeps (SameForeign t) (lift r)
  keep-lift = Keeps-lift (SameForeign t) (still t)

  keep-guard : (b : Bool) (e : Error) → Keeps (SameForeign t) (guard b e)
  keep-guard = Keeps-guard (SameForeign t) (still t)

  keep-pure : {A : Type 0} (a : A) → Keeps (SameForeign t) (pure a)
  keep-pure = Keeps-pure (SameForeign t) (still t)

  keep-if :
      {A : Type 0} (b : Bool) (m k : Tx A)
      → Keeps (SameForeign t) m
      → Keeps (SameForeign t) k
      → Keeps (SameForeign t) (if b then m else k)
  keep-if = Keeps-if (SameForeign t) (still t)

ruleset keep_rules = (keep-bind, keep-read, keep-lift, keep-guard, keep-pure, keep-if)

module _ (ext : External) (origin : Text) (id_text : ℕ → Text) (a : Actor) (t : ℕ)
    (active : a.tenant ≡ some t) (fresh : Fresh) where
  Keeps-purge : (u : ℕ) (p : Post) → Keeps (SameForeign t) (purge ext origin id_text fresh u p)
  unfolding purge
  Keeps-purge u p = search (keep_rules, Keeps-bump, Keeps-enqueue)

  Keeps-create_post :
      (p : Post)
      → Keeps (SameForeign t) (or_taken (create_post ext.to_jsonb (scope_from_actor a) fresh.now p))
  Keeps-create_post p = record {
    keeps = λ db q db' h.
        create_post-keeps t (scope_from_actor a) (only_tenant a t active) ext.to_jsonb fresh.now p q
          db db'
          (taken_if_violated-eq-ok (create_post ext.to_jsonb (scope_from_actor a) fresh.now p db)
            (unfold or_taken in h));
  }

  Keeps-create_tx :
      (input : CreateInput) → Keeps (SameForeign t) (create_tx ext origin id_text fresh a input)
  unfolding create_tx
  Keeps-create_tx input = search (keep_rules, Keeps-create_post) depth 12

  Keeps-update_post_by :
      (q : Post) → Keeps (SameForeign t) (update_post (scope_from_actor a) fresh.now q)
  Keeps-update_post_by = Keeps-update_post t (scope_from_actor a) (only_tenant a t active) fresh.now

  Keeps-set_post_status_by :
      (id : ℕ) (status : PostStatus) (at : Option ℕ) (html : Text)
      → Keeps (SameForeign t) (set_post_status (scope_from_actor a) fresh.now id status at html)
  Keeps-set_post_status_by =
      Keeps-set_post_status t (scope_from_actor a) (only_tenant a t active) fresh.now

  Keeps-new_slug :
      (p : Post) (desired : Option Text)
      → Keeps (SameForeign t) (new_slug ext origin id_text (scope_from_actor a) p desired)
  Keeps-new_slug p none = search keep_rules
  Keeps-new_slug p (some desired) = search keep_rules

  Keeps-update_tx :
      (id : ℕ) (input : UpdateInput)
      → Keeps (SameForeign t) (update_tx ext origin id_text fresh a id input)
  unfolding update_tx
  Keeps-update_tx id input =
      search (keep_rules, Keeps-new_slug, Keeps-update_post_by, Keeps-purge) depth 20

  Keeps-transition_tx :
      (id : ℕ) (status : PostStatus) (publishing : Bool)
      → Keeps (SameForeign t) (transition_tx ext origin id_text fresh a id status publishing)
  unfolding transition_tx
  Keeps-transition_tx id status publishing =
      search (keep_rules, Keeps-set_post_status_by, Keeps-purge) depth 20

module _ (a : Actor) (t : ℕ) (active : a.tenant ≡ some t) where
  Keeps-delete_post_by : (id : ℕ) → Keeps (SameForeign t) (delete_post (scope_from_actor a) id)
  Keeps-delete_post_by = Keeps-delete_post t (scope_from_actor a) (only_tenant a t active)

  Keeps-delete_tx : (id : ℕ) → Keeps (SameForeign t) (delete_tx a id)
  unfolding delete_tx
  Keeps-delete_tx id = search (keep_rules, Keeps-delete_post_by) depth 12

committed :
    {A : Type 0} (t : ℕ) (m : Tx A)
    → Keeps (SameForeign t) m
    → (db : Db) → SameForeign t db (scoped_rw m db).1
committed t m = Keeps-scoped_rw (SameForeign t) (still t) m

-- Whatever an actor with an active tenant does to posts, a super admin too, and whether or not it
-- succeeds: the posts of every other tenant are afterwards the same, in the same order.
pub operations-SameForeign :
    (ext : External) (origin : Text) (id_text : ℕ → Text) (a : Actor) (t : ℕ)
    → a.tenant ≡ some t
    → (fresh : Fresh) (db : Db) (id : ℕ) (new : CreateInput) (patch : UpdateInput)
    → SameForeign t db (create ext origin id_text fresh a new db).1
      × SameForeign t db (update ext origin id_text fresh a id patch db).1
      × SameForeign t db (publish ext origin id_text fresh a id db).1
      × SameForeign t db (unpublish ext origin id_text fresh a id db).1
      × SameForeign t db (archive ext origin id_text fresh a id db).1
      × SameForeign t db (delete a id db).1
unfolding create update publish unpublish archive delete
operations-SameForeign ext origin id_text a t active fresh db id new patch = (
  committed t _ (Keeps-create_tx ext origin id_text a t active fresh new) db,
  committed t _ (Keeps-update_tx ext origin id_text a t active fresh id patch) db,
  committed t _ (Keeps-transition_tx ext origin id_text a t active fresh id published true) db,
  committed t _ (Keeps-transition_tx ext origin id_text a t active fresh id draft false) db,
  committed t _ (Keeps-transition_tx ext origin id_text a t active fresh id archived false) db,
  committed t _ (Keeps-delete_tx a t active id) db,
)
