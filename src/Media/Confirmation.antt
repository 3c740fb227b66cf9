-- ===== src/Media/Confirmation.antt =====
-- `Confirm` of media.go.
use open_blog.Base.{
  not, some, if◌then◌else◌, ℕ, ◌≡◌, refl, ◌≤◌, ◌∙◌, sym, ap, Bool, true, false, ◌&&◌, ◌==◌, nat_eq,
  text_eq_instance, string_eq, ==_refl, ◌∷◌, ◌++◌, Text, String, codes, any, elem, arith, ltb,
}
use open_blog.Store.Errors.{ok}
use open_blog.Store.Rows.{Db, PostImage, JobRow, JobData, JobPayload}
use open_blog.Store.Rows.Payload.{job_payload}
use open_blog.Store.Posts.{empty_object}
use open_blog.Store.Tx.{Scope, visible, guard, pure, ◌>>=◌}
use open_blog.Store.Tx.Laws.{>>=-eq-ok, guard-bind-eq-ok, pure-eq-ok}
use open_blog.Store.Images.{insert_post_image_on_conflict, same_object}
use open_blog.Jobs.Queue.{enqueue, holds_key, new_job}
use open_blog.Media.Service.{
  FreshImage, confirm, enqueue_variants, allowed_mimes, max_image_size, variants_job_kind,
}

-- The row that a confirmation inserts.
abbrev pub row_of :
    (id tenant post : ℕ) → (key url : Text) → (mime : String) → (size : ℕ) → PostImage
row_of id tenant post key url mime size = record {
  id = id;
  tenant_id = tenant;
  post_id = post;
  r2_key = key;
  url = url;
  width = 0;
  height = 0;
  size_bytes = size;
  mime_type = mime;
  variants = empty_object;
}

-- The job that it queues.
abbrev pub variants_job : FreshImage → (tenant : ℕ) → (key : Text) → JobRow
variants_job fresh tenant key = new_job fresh.now fresh.job_id variants_job_kind (some key) (
    job_payload
      (record { tenant_id = tenant; content = JobData.variants_data tenant fresh.id key }))

-- What the insertion does: nothing where the object has a row; otherwise a row of the tenant's post.
insert-eq-ok :
    (s : Scope) (id tenant post : ℕ) (key url : Text) (mime : String) (size : ℕ) {b : Bool}
    (db db' : Db)
    → insert_post_image_on_conflict s id tenant post key url mime size db ≡ ok (b, db')
    → (visible s tenant ≡ true)
      × (b ≡ not (any (same_object tenant key) db.images))
      × (b ≡ true → any (λ p. p.id == post && p.tenant_id == tenant) db.posts ≡ true)
      × (db' ≡ (
          if b
          then record db { images = row_of id tenant post key url mime size ∷ db.images }
          else db))
unfolding insert_post_image_on_conflict
insert-eq-ok s id tenant post key url mime size db db' h =
    (ground arith, ground arith, (λ e. ground arith), ground arith)

-- Where the object has a row, the insertion does nothing.
insert_again :
    (s : Scope) (id tenant post : ℕ) (key url : Text) (mime : String) (size : ℕ) (db : Db)
    → visible s tenant ≡ true
    → any (same_object tenant key) db.images ≡ true
    → insert_post_image_on_conflict s id tenant post key url mime size db ≡ ok (false, db)
unfolding insert_post_image_on_conflict
insert_again s id tenant post key url mime size db v a = rw (v, a) refl

enqueue-eq-ok :
    (now id : ℕ) (kind : String) (c : ℕ) (key : Text) (p : JobPayload) {r : ℕ} (db db' : Db)
    → enqueue now id kind (c ∷ key) p db ≡ ok (r, db')
    → (any (holds_key kind (c ∷ key)) db.jobs ≡ false)
      × (db' ≡ record db { jobs = new_job now id kind (some (c ∷ key)) (job_payload p) ∷ db.jobs })
unfolding enqueue
enqueue-eq-ok now id kind c key p db db' h = (ground arith, ground arith)

enqueue_variants-eq-ok :
    (fresh : FreshImage) (tenant c : ℕ) (key : Text) (b : Bool) {b' : Bool} (db db' : Db)
    → enqueue_variants fresh tenant (c ∷ key) b db ≡ ok (b', db')
    → (b' ≡ b)
      × (b ≡ true → any (holds_key variants_job_kind (c ∷ key)) db.jobs ≡ false)
      × (db'
          ≡ (if b then record db { jobs = variants_job fresh tenant (c ∷ key) ∷ db.jobs } else db))
enqueue_variants-eq-ok fresh tenant c key false db db' h =
    let (e, k) = pure-eq-ok false db h in (e, (λ t. absurd (cc)), k)
enqueue_variants-eq-ok fresh tenant c key true db db' h =
    let (id, db1, e, k) = >>=-eq-ok _ _ db h in
    let (a, b) = pure-eq-ok true db1 k in
    let (n, w) = enqueue-eq-ok fresh.now fresh.job_id variants_job_kind c key _ db db1 e in
    (a, (λ t. n), b ∙ w)

-- A confirmation that succeeds leaves everything as it is, or adds the row and the job.
abbrev pub confirmed_as :
    Bool
    → FreshImage
    → (tenant post : ℕ) → (key url : Text) → (mime : String) → (size : ℕ) → Db
    → Db
confirmed_as false fresh tenant post key url mime size db = db
confirmed_as true fresh tenant post key url mime size db = record db {
  images = row_of fresh.id tenant post key url mime size ∷ db.images;
  jobs = variants_job fresh tenant key ∷ db.jobs;
}

-- The parts of a successful confirmation.
pub record IsConfirmed (cdn : Text) (s : Scope) (fresh : FreshImage) (tenant post : ℕ) (key : Text)
    (size : ℕ) (mime : String) (b : Bool) (db db' : Db) : Type 0 where
  pub mime_ok : elem mime allowed_mimes ≡ true
  pub size_ok : size ≤ max_image_size
  pub visible_ok : visible s tenant ≡ true
  pub is_new : b ≡ not (any (same_object tenant key) db.images)
  pub attached : b ≡ true → any (λ p. p.id == post && p.tenant_id == tenant) db.posts ≡ true
  pub unqueued : b ≡ true → any (holds_key variants_job_kind key) db.jobs ≡ false
  pub written : db' ≡ confirmed_as b fresh tenant post key (cdn ++ codes "/" ++ key) mime size db

module _ (cdn : Text) (s : Scope) (tenant c : ℕ) (key : Text) where
  jobs_kept :
      (b : Bool) (r : PostImage) (db db1 : Db)
      → db1 ≡ (if b then record db { images = r ∷ db.images } else db)
      → db1.jobs ≡ db.jobs
  jobs_kept false r db db1 e = ap (λ d. d.jobs) e
  jobs_kept true r db db1 e = ap (λ d. d.jobs) e

  stored_at :
      (b : Bool) (fresh : FreshImage) (post : ℕ) (url : Text) (mime : String) (size : ℕ) (db : Db)
      → b ≡ not (any (same_object tenant (c ∷ key)) db.images)
      → any
          (same_object tenant (c ∷ key))
          (confirmed_as b fresh tenant post (c ∷ key) url mime size db).images
        ≡ true
  stored_at false fresh post url mime size db n = ground arith
  stored_at true fresh post url mime size db n = rw (==_refl tenant, ==_refl (c ∷ key)) refl

  confirmed-steps :
      (b : Bool) (fresh : FreshImage) (post : ℕ) (url : Text) (mime : String) (size : ℕ)
      (db db1 db' : Db)
      → db1 ≡ (
          if b
          then record db {
            images = row_of fresh.id tenant post (c ∷ key) url mime size ∷ db.images;
          }
          else db)
      → db'
        ≡ (if b then record db1 { jobs = variants_job fresh tenant (c ∷ key) ∷ db1.jobs } else db1)
      → db' ≡ confirmed_as b fresh tenant post (c ∷ key) url mime size db
  confirmed-steps false fresh post url mime size db db1 db' e k = k ∙ e
  confirmed-steps true fresh post url mime size db db1 db' e k =
      k ∙ ap (λ (d : Db). confirmed_jobs d) e
    where
      confirmed_jobs : Db → Db
      confirmed_jobs d = record d { jobs = variants_job fresh tenant (c ∷ key) ∷ d.jobs }

  -- A successful `Confirm` of a non-empty key has an allowed type, a size of 15 MiB at most and a tenant in
  -- the scope. Where the tenant has a row for the key, it changes nothing; otherwise the post is one of
  -- this tenant, no variants job has the key, and one row and one job are added, and nothing else: the row
  -- has the new id, the tenant, the post, the key, its address at the CDN, the size and the type, and no
  -- dimensions or variants yet; the job is a variants job for the row, with the key as its own.
  pub confirm-IsConfirmed :
      (fresh : FreshImage) (post size : ℕ) (mime : String) (b : Bool) (db db' : Db)
      → confirm cdn fresh s tenant post (c ∷ key) size mime db ≡ ok (b, db')
      → IsConfirmed cdn s fresh tenant post (c ∷ key) size mime b db db'
  unfolding confirm
  confirm-IsConfirmed fresh post size mime b db db' h =
      let (m, h1) = guard-bind-eq-ok _ _ _ db h in
      let (z, h2) = guard-bind-eq-ok _ _ _ db h1 in
      let (ins, db1, e, h3) = >>=-eq-ok _ _ db h2 in
      let (v, n, at, w) = insert-eq-ok s fresh.id tenant post (c ∷ key) _ mime size db db1 e in
      let (k, q, w1) = enqueue_variants-eq-ok fresh tenant c key ins db1 db' h3 in
      record {
        mime_ok = m;
        size_ok = ground arith;
        visible_ok = v;
        is_new = k ∙ n;
        attached = λ t. at (sym k ∙ t);
        unqueued = λ t.
            ap (λ d. any (holds_key variants_job_kind (c ∷ key)) d) (sym (jobs_kept ins _ db db1 w))
            ∙ q (sym k ∙ t);
        written =
            confirmed-steps ins fresh post (cdn ++ codes "/" ++ (c ∷ key)) mime size db db1 db' w w1
            ∙ ap
                (λ x.
                  confirmed_as x fresh tenant post (c ∷ key) (cdn ++ codes "/" ++ (c ∷ key)) mime
                    size db)
                (sym k);
      }

  -- A confirmation after a successful one, of the same object with any allowed type and size and for
  -- any post, succeeds, inserts nothing and changes nothing.
  pub confirm-again :
      (fresh fresh' : FreshImage) (post post' size size' : ℕ) (mime mime' : String) (b : Bool)
      (db db' : Db)
      → confirm cdn fresh s tenant post (c ∷ key) size mime db ≡ ok (b, db')
      → elem mime' allowed_mimes ≡ true
      → size' ≤ max_image_size
      → confirm cdn fresh' s tenant post' (c ∷ key) size' mime' db' ≡ ok (false, db')
  confirm-again fresh fresh' post post' size size' mime mime' b db db' h m z =
      let g = confirm-IsConfirmed fresh post size mime b db db' h in
      let a =
        insert_again s fresh'.id tenant post' (c ∷ key) (cdn ++ codes "/" ++ (c ∷ key)) mime' size'
          db' g.visible_ok
          (ap (λ d. any (same_object tenant (c ∷ key)) d.images) g.written
            ∙ stored_at b fresh post (cdn ++ codes "/" ++ (c ∷ key)) mime size db g.is_new) in
      let z' : ltb max_image_size size' ≡ false = ground arith in
      unfold confirm guard ◌>>=◌ pure in rw (m, z', a) refl
