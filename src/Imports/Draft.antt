-- ===== src/Imports/Draft.antt =====
-- `Apply` of import.go, once and again.
use mathlib.Core.Path.{subst}
use open_blog.Base.{
  ℕ, ◌≡◌, refl, ◌∙◌, sym, ap, true, false, ◌==◌, nat_eq, text_eq_instance, Option, none, some, [],
  ◌∷◌, Text, codes, find, find-update_some, update_where, find_sound, arith, &&-eq-true, Bool-cases,
  Option-cases, inl, inr, trim_space,
}
use open_blog.Store.Errors.{Error, Result, ok, err, eq_of_ok}
use open_blog.Store.Rows.{Db, Post, Import}
use open_blog.Store.Tx.{Scope, scoped, scoped_rw, settled, row}
use open_blog.Store.Imports.{
  is_import, is_free, linked, claim_import, get_import_by_id, set_import_post_id,
}
use open_blog.Authz.Roles.{Actor, can, require, scope_from_actor}
use open_blog.Authz.Roles.Capability.{run_import}
use open_blog.Render.Html.{External}
use open_blog.Posts.Service.{Fresh, create}
use open_blog.Posts.Creation.{IsCreated, create-IsCreated}
use open_blog.Posts.Errors.{no_rows_as-eq-ok}
use open_blog.Posts.Inversion.{require-eq-ok}
use open_blog.Imports.Source.{title_from_content, derive_slug}
use open_blog.Imports.Service.{
  ImportExternal, apply_gate, nonblank_or, is_converted, apply, apply_if, apply_found, link,
  link_result, draft_input, found_import,
}

claim_import-eq-ok :
    (s : Scope) (now id post : ℕ) (o : Option Import) {u : Unit {0}} (db : Db) {db' : Db}
    → claim_import s now id post o db ≡ ok (u, db')
    → db' ≡ record db { imports = update_where (is_free s id) (linked now post) db.imports }
claim_import-eq-ok s now id post none db h = cc
claim_import-eq-ok s now id post (some i) db h = ground arith

set_import-eq-ok :
    (s : Scope) (now id post : ℕ) {u : Unit {0}} (db db' : Db)
    → set_import_post_id s now id post db ≡ ok (u, db')
    → db' ≡ record db { imports = update_where (is_free s id) (linked now post) db.imports }
unfolding set_import_post_id
set_import-eq-ok s now id post db db' h =
    claim_import-eq-ok s now id post (find (is_free s id) db.imports) db h

nonblank_or-eq-ok :
    (e : Error) (o : Option Text) {md : Text}
    → nonblank_or e o ≡ ok md
    → (o ≡ some md) × ((trim_space md == codes "") ≡ false)
nonblank_or-eq-ok e none h = cc
nonblank_or-eq-ok e (some t) {md} h = elim (Bool-cases (trim_space t == codes "")) [
  | inl b ↦ absurd (cc (rw b at h))
  | inr b ↦
      let k : t ≡ md = eq_of_ok (rw b at h) in
      (ap some k, subst (λ x. (trim_space x == codes "") ≡ false) k b)
]

-- The gate lets through a converted import without a post, and gives its Markdown, which is not blank.
pub apply_gate-eq-ok :
    (i : Import) {md : Text}
    → apply_gate i ≡ ok md
    → (is_converted i.status ≡ true) × (i.post_id ≡ none) × (i.markdown_out ≡ some md)
unfolding apply_gate
apply_gate-eq-ok i h = elim (Bool-cases (is_converted i.status)) [
  | inr c ↦ absurd (cc (rw c at h))
  | inl c ↦ elim (Option-cases i.post_id) [
    | inr (p, e) ↦ absurd (cc (rw (c, e) at h))
    | inl e ↦ (c, e, (nonblank_or-eq-ok Error.not_converted i.markdown_out (rw (c, e) at h)).0)
  ]
]

row-eq-some : {A : Type 0} (o : Option A) {a : A} → row o ≡ ok a → o ≡ some a
row-eq-some none h = cc
row-eq-some (some a) h = ap some (eq_of_ok h)

module _ (ext : External) (origin : Text) (id_text : ℕ → Text) (io : ImportExternal) where
  settled_link :
      (q : Post) (db : Db) (r : Result (Unit {0} × Db)) {post : Post} {db' : Db}
      → link_result ext origin id_text io q (settled db r) ≡ (ok post, db')
      → (q ≡ post) × (r ≡ ok (tt, db'))
  settled_link q db (err e) h = cc (ap (λ p. p.0) h)
  settled_link q db (ok (u, d)) h =
      (eq_of_ok (ap (λ p. p.0) h), ap (λ x. ok (tt, x)) (ap (λ p. p.1) h))

  link-eq-ok :
      (now id : ℕ) (s : Scope) (r : Result Post × Db) {post : Post} {db' : Db}
      → link ext origin id_text io now id s r ≡ (ok post, db')
      → (db1 : Db) × (r ≡ (ok post, db1)) × (set_import_post_id s now id post.id db1 ≡ ok (tt, db'))
  unfolding scoped_rw
  link-eq-ok now id s (err e, db1) h = cc (ap (λ p. p.0) h)
  link-eq-ok now id s (ok q, db1) h =
      let (e, k) = settled_link q db1 (set_import_post_id s now id q.id db1) h in
      (db1, ap (λ x. (ok x, db1)) e, ap (λ x. set_import_post_id s now id x.id db1) (sym e) ∙ k)

  -- The parts of a successful application.
  pub record IsApplied (fresh : Fresh) (actor : Actor) (id : ℕ) (db db' : Db) (post : Post)
      : Type 0 where
    pub allowed : can actor run_import ≡ true
    pub before : Import
    pub found : find (is_import (scope_from_actor actor) id) db.imports ≡ some before
    pub text : Text
    pub gate : apply_gate before ≡ ok text
    pub drafted : Db
    pub created :
        IsCreated ext origin id_text fresh actor
          (record {
            title = title_from_content text;
            content_markdown = text;
            slug = derive_slug text (id_text before.id);
            excerpt = [];
            metadata = [];
          })
          db
          drafted
          post
    pub linking : db' ≡ record db {
      posts = post ∷ db.posts;
      imports =
          update_where
            (is_free (scope_from_actor actor) id)
            (λ i. record i { post_id = some post.id; updated_at = fresh.now })
            db.imports;
    }

  found_import-eq-ok :
      (s : Scope) (id : ℕ) (db : Db) {i : Import}
      → found_import s id db ≡ ok i
      → find (is_import s id) db.imports ≡ some i
  unfolding get_import_by_id
  found_import-eq-ok s id db h =
      row-eq-some (find (is_import s id) db.imports) (no_rows_as-eq-ok Error.import_not_found _ h)

  apply_found-IsApplied :
      (fresh : Fresh) (actor : Actor) (id : ℕ) (r : Result Import) (post : Post) (db db' : Db)
      → can actor run_import ≡ true
      → found_import (scope_from_actor actor) id db ≡ r
      → apply_found ext origin id_text io fresh actor id r db ≡ (ok post, db')
      → IsApplied fresh actor id db db' post
  apply_found-IsApplied fresh actor id (err e) post db db' a f h = absurd (cc (ap (λ p. p.0) h))
  apply_found-IsApplied fresh actor id (ok i) post db db' a f h = gated (apply_gate i) refl h
    where
      gated :
          (g : Result Text)
          → apply_gate i ≡ g
          → elim g [
            | err e ↦ (err e, db)
            | ok md ↦ link ext origin id_text io fresh.now id (scope_from_actor actor) (
                create ext origin id_text fresh actor
                  (draft_input ext origin id_text io i.id md)
                  db)
          ]
            ≡ (ok post, db')
          → IsApplied fresh actor id db db' post
      gated (err e) g h = absurd (cc (ap (λ p. p.0) h))
      gated (ok md) g h =
          let input = draft_input ext origin id_text io i.id md in
          let (db1, c, l) =
            link-eq-ok fresh.now id (scope_from_actor actor)
              (create ext origin id_text fresh actor input db) h in
          let made : IsCreated ext origin id_text fresh actor input db db1 post =
            create-IsCreated ext origin id_text fresh actor input post db db1 c in
          let w = set_import-eq-ok (scope_from_actor actor) fresh.now id post.id db1 db' l in
          let claimed_in : Db → Db = λ d. record d {
            imports =
                update_where (is_free (scope_from_actor actor) id) (linked fresh.now post.id)
                  d.imports;
          } in
          record {
            allowed = a;
            before = i;
            found = found_import-eq-ok (scope_from_actor actor) id db f;
            text = md;
            gate = g;
            drafted = db1;
            created = made;
            linking = w ∙ ap claimed_in made.written;
          }

  apply_if-eq-ok :
      (r : Result (Unit {0})) (res : Result Post × Db) (db : Db) {post : Post} {db' : Db}
      → apply_if ext origin id_text io r res db ≡ (ok post, db')
      → (r ≡ ok tt) × (res ≡ (ok post, db'))
  apply_if-eq-ok (err e) res db h = cc (ap (λ p. p.0) h)
  apply_if-eq-ok (ok u) res db h = (refl, h)

  -- A successful `Apply` was allowed, found in the actor's scope a converted import without a post and
  -- with Markdown that is not blank, and adds a draft as `Create` does: with this Markdown, with the title
  -- and, as the slug asked for, the slug that are derived from it, and without excerpt or metadata. It
  -- links the import to this draft, and nothing else changes.
  pub apply-IsApplied :
      (fresh : Fresh) (actor : Actor) (id : ℕ) (post : Post) (db db' : Db)
      → apply ext origin id_text io fresh actor id db ≡ (ok post, db')
      → IsApplied fresh actor id db db' post
  unfolding apply scoped
  apply-IsApplied fresh actor id post db db' h =
      let (a, k) =
        apply_if-eq-ok (require actor run_import)
          (apply_found ext origin id_text io fresh actor id
            (found_import (scope_from_actor actor) id db) db)
          db h in
      apply_found-IsApplied fresh actor id (found_import (scope_from_actor actor) id db) post db db'
        (require-eq-ok actor run_import a) refl k

  applied_again :
      (fresh : Fresh) (actor : Actor) (id now p : ℕ) (i : Import) (db : Db)
      → is_converted i.status ≡ true
      → apply_found ext origin id_text io fresh actor id (ok (linked now p i)) db
        ≡ (err Error.already_applied, db)
  applied_again fresh actor id now p i db c =
      let e : apply_gate (linked now p i) ≡ err Error.already_applied =
        unfold apply_gate in (rw c refl) in
      rw (e, apply_found) refl

  -- After a successful `Apply` the same actor's next one fails with `ErrAlreadyApplied` and changes
  -- nothing: one import gives one draft.
  pub apply-once :
      (fresh fresh' : Fresh) (actor : Actor) (id : ℕ) (post : Post) (db db' : Db)
      → apply ext origin id_text io fresh actor id db ≡ (ok post, db')
      → apply ext origin id_text io fresh' actor id db' ≡ (err Error.already_applied, db')
  unfolding apply scoped apply_gate get_import_by_id
  apply-once fresh fresh' actor id post db db' h =
      let s = scope_from_actor actor in
      let g : IsApplied fresh actor id db db' post = apply-IsApplied fresh actor id post db db' h in
      let (c, n, m) = apply_gate-eq-ok g.before g.gate in
      let own : is_free s id g.before ≡ true =
        ground (arith, find_sound (is_import s id) db.imports g.found) in
      let f : find (is_import s id) db'.imports ≡ some (linked fresh.now post.id g.before) =
        ap (λ d. find (is_import s id) d.imports) g.linking
        ∙ find-update_some (is_import s id) (is_free s id) (linked fresh.now post.id) db.imports
            g.before (λ y. refl) (λ y k. (&&-eq-true (is_import s id y) _ k).0) own g.found in
      let (a, _) =
        apply_if-eq-ok (require actor run_import)
          (apply_found ext origin id_text io fresh actor id (found_import s id db) db) db h in
      rw (a, f) (applied_again fresh' actor id fresh.now post.id g.before db' c)
