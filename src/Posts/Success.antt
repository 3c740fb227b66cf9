-- ===== src/Posts/Success.antt =====
-- `Publish` of service.go: when it ends well.
use open_blog.Base.{
  ℕ, ◌+◌, ◌≡◌, refl, ◌<◌, ◌∙◌, true, false, ◌==◌, nat_eq, text_eq_instance, some, ◌∷◌, Text, any,
  find, update_where, arith, ltb, trim_space, codes, String, Bool-cases, inl, inr,
}
use open_blog.Store.Errors.{ok}
use open_blog.Store.Rows.{Db, Post, Tenant, Payload, JobPayload}
use open_blog.Store.Rows.PostStatus.{published}
use open_blog.Store.Tx.{Tx, ◌>>=◌, read, lift, guard, pure, scoped_rw}
use open_blog.Store.Posts.{is_row, get_post_by_id, set_post_status, with_status}
use open_blog.Store.Tenants.{is_tenant, bumped, bigint_limit, bump_content_version}
use open_blog.Authz.Roles.{Actor, can, require, scope_from_actor}
use open_blog.Authz.Roles.Capability.{publish_archive}
use open_blog.Jobs.Queue.{enqueue, conflicts, dedupe_of, new_job}
use open_blog.Render.Html.{External}
use open_blog.Posts.Service.{Fresh, render, purge, ignoring_duplicate, transition_tx, publish}

bind-ok :
    {A B : Type 0} (m : Tx A) (f : A → Tx B) (db : Db) (a : A) (db' : Db)
    → m db ≡ ok (a, db')
    → (m >>= f) db ≡ f a db'
unfolding ◌>>=◌
bind-ok m f db a db' e = rw e refl

-- Both outcomes of `Enqueue` where no job has the new id.
enqueue_ends :
    (now id : ℕ) (kind : String) (key : Text) (p : JobPayload) (db : Db)
    → any (λ j. j.id == id) db.jobs ≡ false
    → (db' : Db) × (ignoring_duplicate (enqueue now id kind key p) db ≡ ok (tt, db'))
unfolding ignoring_duplicate enqueue
enqueue_ends now id kind key p db h = elim (Bool-cases (conflicts kind (dedupe_of key) db.jobs)) [
  | inl e ↦ (db, rw e refl)
  | inr e ↦ (
    record db { jobs = new_job now id kind (dedupe_of key) (Payload.job_payload p) ∷ db.jobs },
    rw (e, h) refl,
  )
]

bump-ok :
    (now id : ℕ) (t : Tenant) (db : Db)
    → find (is_tenant id) db.tenants ≡ some t
    → t.content_version + 1 < bigint_limit
    → bump_content_version now id db
      ≡ ok (
        bumped now t,
        record db { tenants = update_where (is_tenant id) (bumped now) db.tenants },
      )
unfolding bump_content_version
bump-ok now id t db f b =
    let e : ltb (t.content_version + 1) bigint_limit ≡ true = ground arith in rw (f, e) refl

module _ (ext : External) (origin : Text) (id_text : ℕ → Text) where
  purge_ends :
      (fresh : Fresh) (tenant : ℕ) (p : Post) (t : Tenant) (db : Db)
      → find (is_tenant tenant) db.tenants ≡ some t
      → t.content_version + 1 < bigint_limit
      → any (λ j. j.id == fresh.job_id) db.jobs ≡ false
      → (db' : Db) × (purge ext origin id_text fresh tenant p db ≡ ok (tt, db'))
  unfolding purge
  purge_ends fresh tenant p t db f b j =
      let (db', e) = enqueue_ends fresh.now fresh.job_id _ (id_text tenant) _ _ j in
      (db', bind-ok _ _ db _ _ (bump-ok fresh.now tenant t db f b) ∙ e)

  transition_ends :
      (fresh : Fresh) (actor : Actor) (id : ℕ) (p : Post) (t : Tenant) (html : Text) (db : Db)
      → can actor publish_archive ≡ true
      → find (is_row (scope_from_actor actor) id) db.posts ≡ some p
      → (trim_space p.content_markdown == codes "") ≡ false
      → render ext origin id_text p.content_markdown p.metadata ≡ ok html
      → find (is_tenant (scope_from_actor actor).tenant_id) db.tenants ≡ some t
      → t.content_version + 1 < bigint_limit
      → any (λ j. j.id == fresh.job_id) db.jobs ≡ false
      → (db' : Db) × (transition_tx ext origin id_text fresh actor id published true db
          ≡ ok (with_status fresh.now published (some fresh.now) html p, db'))
  unfolding transition_tx set_post_status get_post_by_id require read lift guard pure
  transition_ends fresh actor id p t html db a f m r g b j =
      let s = scope_from_actor actor in
      let out = with_status fresh.now published (some fresh.now) html p in
      let db1 : Db = record db {
        posts =
            update_where (is_row s id) (with_status fresh.now published (some fresh.now) html)
              db.posts;
      } in
      let (db', e) = purge_ends fresh s.tenant_id out t db1 g b j in
      (
        db',
        bind-ok _ _ db tt db (rw a refl)
            ∙ bind-ok _ _ db p db (rw f refl)
            ∙ bind-ok _ _ db tt db (rw m refl)
            ∙ bind-ok _ _ db html db (rw r refl)
            ∙ bind-ok _ _ db out db1 (rw f refl)
            ∙ bind-ok _ _ db1 tt db' e,
      )

  settled_ok :
      {A : Type 0} (m : Tx A) (a : A) (db db' : Db) → m db ≡ ok (a, db') → (scoped_rw m db).0 ≡ ok a
  unfolding scoped_rw
  settled_ok m a db db' e = rw e refl

  -- `Publish` succeeds, and gives the post as published now with its Markdown rendered again, wherever
  -- the actor may publish and sees the post, its Markdown is not blank and is rendered, the tenant of
  -- the actor's scope exists and can count one version more, and no job has the new job's id.
  pub publish-ok :
      (fresh : Fresh) (actor : Actor) (id : ℕ) (p : Post) (t : Tenant) (html : Text) (db : Db)
      → can actor publish_archive ≡ true
      → find (is_row (scope_from_actor actor) id) db.posts ≡ some p
      → (trim_space p.content_markdown == codes "") ≡ false
      → render ext origin id_text p.content_markdown p.metadata ≡ ok html
      → find (is_tenant (scope_from_actor actor).tenant_id) db.tenants ≡ some t
      → t.content_version + 1 < bigint_limit
      → any (λ j. j.id == fresh.job_id) db.jobs ≡ false
      → (publish ext origin id_text fresh actor id db).0
        ≡ ok (with_status fresh.now published (some fresh.now) html p)
  unfolding publish
  publish-ok fresh actor id p t html db a f m r g b j =
      let (db', e) = transition_ends fresh actor id p t html db a f m r g b j in
      settled_ok (transition_tx ext origin id_text fresh actor id published true)
        (with_status fresh.now published (some fresh.now) html p) db db' e
