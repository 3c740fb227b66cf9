-- ===== src/Store/Tenants.antt =====
-- The queries on tenants of internal/store/queries.go. The table has no row-level security.
use open_blog.Base.{
  ℕ, ◌+◌, ◌^◌, ◌==◌, nat_eq, text_eq_instance, Bool, Option, none, some, [], ◌∷◌, if◌then◌else◌,
  find, update_where, Text, ltb,
}
use open_blog.Store.Errors.{Error, ok, err}
use open_blog.Store.Rows.{Tenant}
use open_blog.Store.Tx.{Read, Tx, row}

abbrev pub is_tenant : ℕ → Tenant → Bool
is_tenant id t = t.id == id

unfoldable pub get_tenant : ℕ → Read Tenant
get_tenant id db = row (find (is_tenant id) db.tenants)

abbrev pub bumped : (now : ℕ) → Tenant → Tenant
bumped now t = record t { content_version = t.content_version + 1; updated_at = now }

-- One more than a `bigint` holds.
abbrev pub bigint_limit : ℕ
bigint_limit = 2 ^ 63

abbrev pub bump_at : (now id : ℕ) → (Tenant → Tenant) → Option Tenant → Tx Tenant
bump_at now id f none db = err Error.no_rows
bump_at now id f (some t) db =
    if ltb (t.content_version + 1) bigint_limit
    then ok (f t, record db { tenants = update_where (is_tenant id) f db.tenants })
    else err Error.numeric_out_of_range

unfoldable pub bump_content_version : (now id : ℕ) → Tx Tenant
bump_content_version now id db = bump_at now id (bumped now) (find (is_tenant id) db.tenants) db

abbrev pub or_old : Text → Text → Text
or_old [] old = old
or_old (c ∷ s) old = c ∷ s

-- An empty name and absent settings keep what is stored; the version is bumped in any case.
abbrev pub resettled : (now : ℕ) → Text → Text → Tenant → Tenant
resettled now name settings t = record t {
  name = or_old name t.name;
  settings = or_old settings t.settings;
  content_version = t.content_version + 1;
  updated_at = now;
}

unfoldable pub update_tenant : (now id : ℕ) → (name settings : Text) → Tx Tenant
update_tenant now id name settings db =
    bump_at now id (resettled now name settings) (find (is_tenant id) db.tenants) db
