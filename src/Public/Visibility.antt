-- ===== src/Public/Visibility.antt =====
-- What the public reads show after `Publish`, `Unpublish` and `Archive`.
use mathlib.Core.Path.{subst}
use open_blog.Base.{
  ℕ, ◌≡◌, ◌≢◌, refl, sym, arith, true, false, ◌==◌, nat_eq, text_eq_instance, text_eq_iff, Option,
  none, some, List, [], ◌∷◌, Text, find, find_sound, &&-eq-true, ◌⊎◌, update_where, All, Bool-cases,
  inl, inr, eq_of_some,
}
use open_blog.Store.Errors.{ok}
use open_blog.Store.Rows.{Db, Post, PostStatus}
use open_blog.Store.Rows.PostStatus.{draft, published, archived}
use open_blog.Store.Tx.{Scope, visible, nil_id, scoped}
use open_blog.Store.Posts.{is_row, with_status}
use open_blog.Authz.Roles.{Actor, scope_from_actor}
use open_blog.Render.Html.{External}
use open_blog.Posts.Service.{Fresh, publish, unpublish, archive}
use open_blog.Posts.Transition.{
  IsTransition, publish-IsTransition, unpublish-IsTransition, archive-IsTransition,
}
use open_blog.Public.Codec.{PublicExternal}
use open_blog.Public.Response.{html_response}
use open_blog.Public.Pages.{conditional, is_published}
use open_blog.Public.Reads.{is_public, post_tag, get_html, public_html, not_found}

-- The unique index on (tenant_id, slug), for one row.
abbrev pub HasOwnSlug : (id : ℕ) → Post → List Post → Type 0
HasOwnSlug id p qs = All (λ q. q.tenant_id ≡ p.tenant_id → q.slug ≡ p.slug → q.id ≡ id) qs

module _ (s : Scope) (id : ℕ) (p : Post) (seen : visible s p.tenant_id ≡ true) where
  -- A row with the post's tenant and slug is the post.
  own-row :
      (q : Post)
      → (q.tenant_id ≡ p.tenant_id → q.slug ≡ p.slug → q.id ≡ id)
      → is_row s id q ≡ false
      → is_public p.tenant_id p.slug q ≡ false
  own-row q own other = elim (Bool-cases (is_public p.tenant_id p.slug q)) [
    | inl e ↦
        let t : q.tenant_id ≡ p.tenant_id = ground arith in
        let u : q.slug ≡ p.slug = ground (arith, text_eq_iff q.slug p.slug) in
        let i : q.id ≡ id = own t u in
        let k : is_row s id q ≡ true = rw (i, t, seen) (ground arith) in cc
    | inr e ↦ e
  ]

  module _ (now : ℕ) (at : Option ℕ) (html : Text) where
    find-published :
        (qs : List Post)
        → p.tenant_id ≢ nil_id
        → HasOwnSlug id p qs
        → find (is_row s id) qs ≡ some p
        → find
            (is_public p.tenant_id p.slug)
            (update_where (is_row s id) (with_status now published at html) qs)
          ≡ some (with_status now published at html p)
    unfolding visible
    find-published [] ne own h = cc
    find-published (q ∷ qs) ne (o, own) h = elim (Bool-cases (is_row s id q)) [
      | inl e ↦
          let same : q ≡ p = eq_of_some (rw e at h) in
          rw (e, same) (ground (arith, text_eq_iff p.slug p.slug))
      | inr e ↦ rw (e, own-row q o e) (find-published qs ne own (rw e at h))
    ]

    find-hidden :
        (status : PostStatus)
        → is_published status ≡ false
        → (qs : List Post) → HasOwnSlug id p qs
        → find
            (is_public p.tenant_id p.slug)
            (update_where (is_row s id) (with_status now status at html) qs)
          ≡ none
    find-hidden status hid [] own = refl
    find-hidden status hid (q ∷ qs) (o, own) = elim (Bool-cases (is_row s id q)) [
      | inl e ↦ rw e (ground (arith, find-hidden status hid qs own))
      | inr e ↦ rw (e, own-row q o e) (find-hidden status hid qs own)
    ]

found-visible :
    (s : Scope) (id : ℕ) (p : Post) (qs : List Post)
    → find (is_row s id) qs ≡ some p
    → visible s p.tenant_id ≡ true
found-visible s id p qs h = (&&-eq-true _ _ (find_sound (is_row s id) qs h)).1

module _ (pub_ext : PublicExternal) (ext : External) (origin : Text) (id_text : ℕ → Text) where
  -- After a successful `Publish` the public read of the post's slug, in the post's tenant, answers with
  -- the HTML that the post has now, or 304 for its new entity tag, whatever the status was before. The
  -- text of the scope's tenant id, the slug and the tenant's id are not empty, and no other post of the
  -- tenant has the slug.
  pub publish-get_html :
      (fresh : Fresh) (actor : Actor) (id c : ℕ) (key : Text) (out : Post) (db db' : Db)
      (if_none_match : Text)
      → id_text (scope_from_actor actor).tenant_id ≡ c ∷ key
      → publish ext origin id_text fresh actor id db ≡ (ok out, db')
      → out.tenant_id ≢ nil_id
      → (out.slug == []) ≡ false
      → HasOwnSlug id out db.posts
      → get_html pub_ext out.slug if_none_match out.tenant_id db'
        ≡ ok (
            conditional pub_ext if_none_match
              (post_tag pub_ext out)
              (html_response out.content_html (post_tag pub_ext out)))
  unfolding get_html public_html scoped
  publish-get_html fresh actor id c key out db db' m k h ne filled own =
      let t = publish-IsTransition ext origin id_text fresh actor id c key out db db' k h in
      let s : Scope = scope_from_actor actor in
      let row : find (is_public out.tenant_id out.slug) db'.posts ≡ some out = rw t.posts (
        subst
          (λ o.
            o.tenant_id ≢ nil_id
            → HasOwnSlug id o db.posts
            → find (is_public o.tenant_id o.slug) (
                update_where (is_row s id) (with_status fresh.now published (some fresh.now) t.html)
                  db.posts)
              ≡ some o)
          (sym t.result)
          (λ n o.
            find-published s id t.before (found-visible s id t.before db.posts t.found) fresh.now
              (some fresh.now) t.html db.posts n o t.found)
          ne own) in
      rw (filled, row)

  abbrev IsHidden : (post : Post) → Db → Type 0
  IsHidden post db' =
      (if_none_match : Text)
      → get_html pub_ext post.slug if_none_match post.tenant_id db' ≡ ok not_found

  hidden :
      (fresh : Fresh) (actor : Actor) (id c : ℕ) (key : Text) (out : Post) (db db' : Db)
      (status : PostStatus)
      → is_published status ≡ false
      → HasOwnSlug id out db.posts
      → IsTransition ext origin id_text fresh actor id status false (c ∷ key) db db' out
      → IsHidden out db'
  unfolding get_html public_html scoped
  hidden fresh actor id c key out db db' status hid own t m =
      let s : Scope = scope_from_actor actor in
      let row : find (is_public out.tenant_id out.slug) db'.posts ≡ none = rw t.posts (
        subst
          (λ o.
            HasOwnSlug id o db.posts
            → find (is_public o.tenant_id o.slug)
                (update_where (is_row s id) (with_status fresh.now status none t.html) db.posts)
              ≡ none)
          (sym t.result)
          (find-hidden s id t.before (found-visible s id t.before db.posts t.found) fresh.now none
            t.html status hid db.posts)
          own) in
      elim (Bool-cases (out.slug == [])) [ inl e ↦ rw e | inr e ↦ rw (e, row) ]

  -- After a successful `Unpublish` or `Archive` the public read of the post's slug, in the post's tenant,
  -- answers that there is no such post. The text of the scope's tenant id is not empty, and no other post
  -- of the tenant has the slug.
  pub taken_down-get_html :
      (fresh : Fresh) (actor : Actor) (id c : ℕ) (key : Text) (out : Post) (db db' : Db)
      (if_none_match : Text)
      → id_text (scope_from_actor actor).tenant_id ≡ c ∷ key
      → (unpublish ext origin id_text fresh actor id db ≡ (ok out, db'))
        ⊎ (archive ext origin id_text fresh actor id db ≡ (ok out, db'))
      → HasOwnSlug id out db.posts
      → get_html pub_ext out.slug if_none_match out.tenant_id db' ≡ ok not_found
  taken_down-get_html fresh actor id c key out db db' m k (inl h) own =
      hidden fresh actor id c key out db db' draft refl own
        (unpublish-IsTransition ext origin id_text fresh actor id c key out db db' k h) m
  taken_down-get_html fresh actor id c key out db db' m k (inr h) own =
      hidden fresh actor id c key out db db' archived refl own
        (archive-IsTransition ext origin id_text fresh actor id c key out db db' k h) m
