-- ===== src/Api/Deletion.antt =====
-- internal/api/handlers.go and internal/publicapi: the public pages of a tenant that was deleted.
use open_blog.Base.{
  ℕ, ◌≡◌, refl, arith, Bool, true, false, ◌==◌, nat_eq, text_eq_instance, none, some, List, [], ◌∷◌,
  Text, find, leb, Bool-cases, inl, inr,
}
use open_blog.Store.Errors.{Error, Result, ok, err}
use open_blog.Store.Rows.{Db, Post, JobData}
use open_blog.Store.Tx.{Tx, scoped, scoped_rw}
use open_blog.Store.Tx.Laws.{>>=-eq-ok, scoped_rw-eq-ok}
use open_blog.Store.Platform.{without, delete_tenant}
use open_blog.Public.Codec.{PublicExternal}
use open_blog.Public.Pages.{Api, Request, list_page, fetch_page}
use open_blog.Public.Reads.{is_public, get_html, public_html, site_page, not_found}
use open_blog.Public.Response.{error_response}
use open_blog.Authz.Roles.{Actor}
use open_blog.Api.Replies.{gate, when, with_path, commit, replied, done_or, write_error}
use open_blog.Api.Laws.{write_error-IsRefused}
use open_blog.Api.Tenants.{
  purge_site, tenant_manageable, managed, tenants_delete_tx, tenants_delete,
}

find-without :
    {A : Type 0} (g : A → ℕ) (p : A → Bool) (id : ℕ)
    → ((x : A) → p x ≡ true → (g x == id) ≡ true)
    → (xs : List A) → find p (without g id xs) ≡ none
find-without g p id h [] = refl
find-without g p id h (x ∷ xs) = elim (Bool-cases (g x == id)) [
  | inl e ↦ rw e (find-without g p id h xs)
  | inr e ↦ let k : p x ≡ false = ground (arith, h x) in rw (e, k) (find-without g p id h xs)
]

deleted-rows :
    (id_text : ℕ → Text) (now job_id id : ℕ) (u : Unit {0}) (db db' : Db)
    → tenants_delete_tx id_text now job_id id db ≡ ok (u, db')
    → (before : Db) × (db'.tenants ≡ without (λ t. t.id) id before.tenants)
      × (db'.posts ≡ without (λ p. p.tenant_id) id before.posts)
unfolding tenants_delete_tx delete_tenant
deleted-rows id_text now job_id id u db db' h =
    let (a, mid, e, k) =
      >>=-eq-ok (purge_site id_text now job_id id (JobData.gone_purge_data id)) _ db h in
    (mid, ground arith, ground arith)

-- A deletion that ends without content was committed.
committed :
    (m : Tx (Unit {0})) (db : Db)
    → (commit (done_or "tenant not found") m db).0.status ≡ 204
    → m db ≡ ok (tt, (commit (done_or "tenant not found") m db).1)
unfolding commit
committed m db h = scoped_rw-eq-ok m (ended (scoped_rw m db) h)
  where
    ended :
        (p : Result (Unit {0}) × Db)
        → (replied (done_or "tenant not found") p).0.status ≡ 204
        → p ≡ (ok tt, (replied (done_or "tenant not found") p).1)
    ended (ok _, db') k = refl
    ended (err e, db') k =
        let r : leb 400 (write_error "tenant not found" e).status ≡ true =
          write_error-IsRefused "tenant not found" e in
        let f : leb 400 204 ≡ true = rw k at r in absurd (ground arith)

module _ (pub_ext : PublicExternal) (id : ℕ) (db db_images : Db) (api : Api) (req : Request)
    (slug if_none_match : Text) where
  -- The tenant's pages: no site, no post, and a list that fails.
  pub record IsGone : Type 0 where
    pub no_site : site_page pub_ext if_none_match id db ≡ ok (error_response 404 "tenant not found")
    pub no_post : get_html pub_ext slug if_none_match id db ≡ ok not_found
    pub no_list : list_page pub_ext api req id db db_images ≡ err Error.no_rows

  fetch-missing :
      find (λ t. t.id == id) db.tenants ≡ none
      → fetch_page pub_ext id api.page_size req.tag none db ≡ err Error.no_rows
  unfolding fetch_page
  fetch-missing t = rw (fetch_page, t) refl

  rows-IsGone :
      find (λ t. t.id == id) db.tenants ≡ none
      → find (is_public id slug) db.posts ≡ none
      → (req.before == []) ≡ true
      → IsGone
  unfolding site_page get_html list_page public_html scoped
  rows-IsGone t p b = record {
    no_site = rw t refl;
    no_post = elim (Bool-cases (slug == [])) [ inl e ↦ rw e refl | inr e ↦ rw (e, p) refl ];
    no_list = rw (b, fetch-missing t) refl;
  }

public-tenant :
    (id : ℕ) (slug : Text) (p : Post) → is_public id slug p ≡ true → (p.tenant_id == id) ≡ true
public-tenant id slug p h = ground arith

-- After a deletion of a tenant that was answered with 204, whoever asked for it, `Site` and `GetHTML` of the
-- tenant answer 404, but the first page of `List` fails with `ErrNoRows`.
pub tenants_delete-IsGone :
    (pub_ext : PublicExternal) (id_text : ℕ → Text) (now job_id id : ℕ) (a : Actor)
    (db db_images : Db) (api : Api) (req : Request) (slug if_none_match : Text)
    → (tenants_delete id_text now job_id a (some id) db).0.status ≡ 204
    → (req.before == []) ≡ true
    → IsGone pub_ext id
        (tenants_delete id_text now job_id a (some id) db).1
        db_images
        api
        req
        slug
        if_none_match
unfolding tenants_delete managed with_path gate when
tenants_delete-IsGone pub_ext id_text now job_id id a db db_images api req slug if_none_match h b =
    elim (Bool-cases (tenant_manageable a id)) [
      | inr e ↦ let n : ◌≡◌ {A = ℕ} 403 204 = rw e at h in absurd (ground arith)
      | inl e ↦
          let (before, t, p) =
            deleted-rows id_text now job_id id tt db _
              (committed (tenants_delete_tx id_text now job_id id) db (rw e at h)) in
          rw e (
            rows-IsGone pub_ext id _ db_images api req slug if_none_match
              (rw t (find-without (λ t. t.id) (λ t. t.id == id) id (λ x k. k) before.tenants))
              (rw p (
                find-without (λ p. p.tenant_id) (is_public id slug) id (public-tenant id slug)
                  before.posts))
              b)
    ]
