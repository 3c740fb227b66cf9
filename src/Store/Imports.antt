-- ===== src/Store/Imports.antt =====
-- The queries on imports of internal/store/queries.go.
use open_blog.Base.{
  ℕ, Bool, not, ◌&&◌, ◌==◌, nat_eq, Option, none, some, ◌∷◌, if◌then◌else◌, any, find, update_where,
  or_else, is_some, Text,
}
use open_blog.Store.Errors.{Error, ok, err}
use open_blog.Store.Rows.{Import, ImportStatus}
use open_blog.Store.Rows.ImportStatus.{converting}
use open_blog.Store.Tx.{Scope, visible, Read, Tx, row}

abbrev pub is_import : Scope → ℕ → Import → Bool
is_import s id i = i.id == id && visible s i.tenant_id

unfoldable pub get_import_by_id : Scope → ℕ → Read Import
get_import_by_id s id db = row (find (is_import s id) db.imports)

-- The program creates an import with no post.
unfoldable pub create_import :
    Scope → (now id tenant user : ℕ) → (format key : Text) → Tx (Unit {0})
create_import s now id tenant user format key db =
    let inserted : Import = record {
      id = id;
      tenant_id = tenant;
      user_id = user;
      post_id = none;
      source_format = format;
      source_key = key;
      status = converting;
      markdown_out = none;
      error = none;
      updated_at = now;
    } in
    if not (visible s tenant)
    then err Error.row_security_violation
    else if any (λ i. i.id == id) db.imports
    then err Error.unique_violation
    else if not (any (λ t. t.id == tenant) db.tenants && any (λ u. u.id == user) db.users)
    then err Error.foreign_key_violation
    else ok (tt, record db { imports = inserted ∷ db.imports })

abbrev pub is_free : Scope → ℕ → Import → Bool
is_free s id i = is_import s id i && not (is_some i.post_id)

abbrev pub linked : (now post : ℕ) → Import → Import
linked now post i = record i { post_id = some post; updated_at = now }

-- The compare-and-set of `Apply`: only an import without a post is claimed. Both foreign keys want
-- the post, in the tenant of the import.
abbrev pub claim_import : Scope → (now id post : ℕ) → Option Import → Tx (Unit {0})
claim_import s now id post none db = err Error.no_rows
claim_import s now id post (some i) db =
    if not (any (λ p. p.id == post && p.tenant_id == i.tenant_id) db.posts)
    then err Error.foreign_key_violation
    else ok (tt, record db { imports = update_where (is_free s id) (linked now post) db.imports })

unfoldable pub set_import_post_id : Scope → (now id post : ℕ) → Tx (Unit {0})
set_import_post_id s now id post db = claim_import s now id post (find (is_free s id) db.imports) db

-- The fields that the worker sets; `none` leaves a field as it is. It never sets `post_id`.
pub record ImportUpdate : Type 0 where
  pub status : Option ImportStatus
  pub markdown_out : Option Text
  pub error : Option Text

abbrev pub or_keep : Option Text → Option Text → Option Text
or_keep none old = old
or_keep (some t) old = some t

abbrev pub updated : (now : ℕ) → ImportUpdate → Import → Import
updated now u i = record i {
  status = or_else u.status i.status;
  markdown_out = or_keep u.markdown_out i.markdown_out;
  error = or_keep u.error i.error;
  updated_at = now;
}

unfoldable pub update_import : Scope → (now id : ℕ) → ImportUpdate → Tx (Unit {0})
update_import s now id u db =
    if any (is_import s id) db.imports
    then ok (tt, record db { imports = update_where (is_import s id) (updated now u) db.imports })
    else err Error.no_rows
