-- ===== src/Posts/ForeignRows.antt =====
-- The rows of posts of the other tenants, and the statements that may touch them.
use open_blog.Base.{
  ℕ, ◌≡◌, refl, ◌∙◌, ap, Bool, true, not, ◌==◌, nat_eq, text_eq_instance, Option, none, some, List,
  [], ◌∷◌, Text, String, find, select, update_where, arith, inl, inr,
}
use open_blog.Store.Errors.{ok}
use open_blog.Store.Rows.{Db, Post, PostStatus, Tenant, JobPayload}
use open_blog.Store.Tx.{Scope, visible}
use open_blog.Store.Tx.Laws.{Keeps}
use open_blog.Store.Posts.{
  is_row, metadata_of, insert_post, create_post, update_post, update_post_at, rewritten,
  set_post_status, set_post_status_at, with_status, delete_post,
}
use open_blog.Store.Tenants.{bump_content_version, bump_at, bumped, is_tenant}
use open_blog.Jobs.Queue.{enqueue}
use open_blog.Posts.Errors.{unless_duplicate-eq-ok}
use open_blog.Posts.Service.{ignoring_duplicate}

module _ (t : ℕ) where
  abbrev pub is_foreign : Post → Bool
  is_foreign p = not (p.tenant_id == t)

  -- The posts of the other tenants, in order.
  abbrev pub foreign : Db → List Post
  foreign db = select is_foreign db.posts

  abbrev pub SameForeign : Db → Db → Type 0
  SameForeign db db' = foreign db' ≡ foreign db

  pub still : (db : Db) → SameForeign db db
  still db = refl

  pub comp : (a b c : Db) → SameForeign a b → SameForeign b c → SameForeign a c
  comp a b c p q = q ∙ p

  module _ (s : Scope) (only : (u : ℕ) → visible s u ≡ true → u ≡ t) where
    foreign-update_where :
        (id : ℕ) (f : Post → Post)
        → ((p : Post) → (f p).tenant_id ≡ p.tenant_id)
        → (ps : List Post)
        → select is_foreign (update_where (is_row s id) f ps) ≡ select is_foreign ps
    foreign-update_where id f same [] = refl
    foreign-update_where id f same (p ∷ ps) =
        ground (arith, only p.tenant_id, same p, foreign-update_where id f same ps)

    foreign-select :
        (id : ℕ) (ps : List Post)
        → select is_foreign (select (λ p. not (is_row s id p)) ps) ≡ select is_foreign ps
    foreign-select id [] = refl
    foreign-select id (p ∷ ps) = ground (arith, only p.tenant_id, foreign-select id ps)

    insert_post-keeps :
        (now : ℕ) (p : Post) (o : Option Text) (q : Post) (db db' : Db)
        → insert_post s now p o db ≡ ok (q, db')
        → SameForeign db db'
    insert_post-keeps now p none q db db' h = cc
    insert_post-keeps now p (some metadata) q db db' h = ground (arith, only p.tenant_id)

    pub create_post-keeps :
        (to_jsonb : Text → Option Text) (now : ℕ) (p q : Post) (db db' : Db)
        → create_post to_jsonb s now p db ≡ ok (q, db')
        → SameForeign db db'
    unfolding create_post
    create_post-keeps to_jsonb now p q db db' h =
        insert_post-keeps now p (metadata_of to_jsonb p.metadata) q db db' h

    update_post_at-keeps :
        (now : ℕ) (q out : Post) (o : Option Post) (db db' : Db)
        → update_post_at s now q o db ≡ ok (out, db')
        → SameForeign db db'
    update_post_at-keeps now q out none db db' h = cc
    update_post_at-keeps now q out (some p) db db' h =
        let e : db'.posts ≡ update_where (is_row s q.id) (rewritten now q) db.posts =
          ground arith in
        rw e (foreign-update_where q.id (rewritten now q) (λ x. refl) db.posts)

    set_post_status_at-keeps :
        (now id : ℕ) (f : Post → Post) (out : Post) (o : Option Post) (db db' : Db)
        → ((p : Post) → (f p).tenant_id ≡ p.tenant_id)
        → set_post_status_at s now id f o db ≡ ok (out, db')
        → SameForeign db db'
    set_post_status_at-keeps now id f out none db db' same h = cc
    set_post_status_at-keeps now id f out (some p) db db' same h =
        let e : db'.posts ≡ update_where (is_row s id) f db.posts = ground arith in
        rw e (foreign-update_where id f same db.posts)

    pub Keeps-update_post : (now : ℕ) (q : Post) → Keeps SameForeign (update_post s now q)
    Keeps-update_post now q = record {
      keeps = λ db out db' h.
          update_post_at-keeps now q out (find (is_row s q.id) db.posts) db db'
            (unfold update_post in h);
    }

    pub Keeps-set_post_status :
        (now id : ℕ) (status : PostStatus) (at : Option ℕ) (html : Text)
        → Keeps SameForeign (set_post_status s now id status at html)
    Keeps-set_post_status now id status at html = record {
      keeps = λ db out db' h.
          set_post_status_at-keeps now id (with_status now status at html) out
            (find (is_row s id) db.posts) db db' (λ p. refl) (unfold set_post_status in h);
    }

    delete_post-keeps :
        (id : ℕ) (out : Unit {0}) (db db' : Db)
        → delete_post s id db ≡ ok (out, db')
        → SameForeign db db'
    unfolding delete_post
    delete_post-keeps id out db db' h =
        let e : db'.posts ≡ select (λ p. not (is_row s id p)) db.posts = ground arith in
        rw e (foreign-select id db.posts)

    pub Keeps-delete_post : (id : ℕ) → Keeps SameForeign (delete_post s id)
    Keeps-delete_post id = record { keeps = λ db out db' h. delete_post-keeps id out db db' h }

  bump_at-keeps :
      (now id : ℕ) (f : Tenant → Tenant) (o : Option Tenant) (out : Tenant) (db db' : Db)
      → bump_at now id f o db ≡ ok (out, db')
      → db'.posts ≡ db.posts
  bump_at-keeps now id f none out db db' h = cc
  bump_at-keeps now id f (some x) out db db' h = ground arith

  enqueue-keeps :
      (now id r : ℕ) (kind : String) (key : Text) (p : JobPayload) (db db' : Db)
      → enqueue now id kind key p db ≡ ok (r, db')
      → db'.posts ≡ db.posts
  unfolding enqueue
  enqueue-keeps now id r kind key p db db' h = ground arith

  -- Of the other tables' writes, none touches the posts.
  pub Keeps-bump : (now id : ℕ) → Keeps SameForeign (bump_content_version now id)
  Keeps-bump now id = record {
    keeps = λ db out db' h. ap (select is_foreign) (
        bump_at-keeps now id (bumped now) (find (is_tenant id) db.tenants) out db db'
          (unfold bump_content_version in h));
  }

  pub Keeps-enqueue :
      (now id : ℕ) (kind : String) (key : Text) (p : JobPayload)
      → Keeps SameForeign (ignoring_duplicate (enqueue now id kind key p))
  unfolding ignoring_duplicate
  Keeps-enqueue now id kind key p = record {
    keeps = λ db u db' h. elim (unless_duplicate-eq-ok db (enqueue now id kind key p db) h) [
      | inl same ↦ rw same.0
      | inr (r, e) ↦ ap (select is_foreign) (enqueue-keeps now id r kind key p db db' e)
    ];
  }
