-- ===== src/Tenancy/Resolver.antt =====
-- resolve.go. The cache is an association list; the two calls of `time.Now` are arguments.
use open_blog.Base.{
  ℕ, ◌+◌, Bool, true, false, not, ◌&&◌, ◌||◌, ◌==◌, nat_eq, text_eq_instance, if◌then◌else◌, Option,
  none, some, List, [], ◌∷◌, Text, is_lower, is_digit, leb, ltb, length, find, select,
}
use open_blog.Store.Errors.{Error, Result, ok, err}
use open_blog.Store.Rows.{Db, Tenant}
use open_blog.Store.Tx.{Read, row, no_rows_as, scoped}

-- Thirty seconds.
abbrev pub default_ttl : ℕ
default_ttl = 30_000_000_000

abbrev pub label_char : ℕ → Bool
label_char c = is_lower c || is_digit c

abbrev pub inner_char : ℕ → Bool
inner_char c = label_char c || c == b'-'

-- `[a-z0-9-]*[a-z0-9]` up to the end.
unfoldable pub ends_label : Text → Bool
ends_label [] = false
ends_label (c ∷ []) = label_char c
ends_label (c ∷ d ∷ s) = inner_char c && ends_label (d ∷ s)

abbrev pub label_rest : Text → Bool
label_rest [] = true
label_rest (c ∷ s) = leb (length (c ∷ s)) 62 && ends_label (c ∷ s)

-- `^[a-z0-9](?:[a-z0-9-]{0,61}[a-z0-9])?$`.
unfoldable pub valid_slug : Text → Bool
unfolding ends_label
valid_slug [] = false
valid_slug (c ∷ s) = label_char c && label_rest s

pub record CacheEntry : Type 0 where
  pub slug : Text
  pub tenant_id : ℕ
  pub content_version : ℕ
  pub expires_at : ℕ

pub record Resolver : Type 0 where
  pub ttl : ℕ
  pub cache : List CacheEntry
  pub last_sweep : ℕ

-- `New` with a ttl in nanoseconds, of which a non-positive one is 0 here.
unfoldable pub new_resolver : (ttl : ℕ) → Resolver
new_resolver ttl = record {
  ttl = if ttl == 0 then default_ttl else ttl;
  cache = [];
  last_sweep = 0;
}

abbrev pub is_for : Text → CacheEntry → Bool
is_for slug e = e.slug == slug

abbrev pub is_live : (now : ℕ) → CacheEntry → Bool
is_live now e = not (ltb e.expires_at now)

-- The light sweep on access.
unfoldable pub swept : (now : ℕ) → Resolver → Resolver
swept now r =
    if ltb (r.last_sweep + r.ttl) now
    then record r { cache = select (is_live now) r.cache; last_sweep = now }
    else r

-- `select id, content_version from tenants where slug = $1`.
unfoldable pub tenant_by_slug : Text → Read Tenant
tenant_by_slug slug db = row (find (λ t. t.slug == slug) db.tenants)

abbrev pub entry_of : (ttl now : ℕ) → Text → Tenant → CacheEntry
entry_of ttl now slug t = record {
  slug = slug;
  tenant_id = t.id;
  content_version = t.content_version;
  expires_at = now + ttl;
}

-- Only a positive resolution is cached.
abbrev pub cached : (now : ℕ) → Text → Resolver → Result Tenant → Result (ℕ × ℕ) × Resolver
cached now slug r (err e) = (err e, r)
cached now slug r (ok t) = (
  ok (t.id, t.content_version),
  record r { cache = entry_of r.ttl now slug t ∷ select (λ e. not (is_for slug e)) r.cache },
)

unfoldable pub looked_up : (now : ℕ) → Text → Resolver → Db → Result (ℕ × ℕ) × Resolver
looked_up now slug r db =
    cached now slug r (no_rows_as Error.tenant_not_found (scoped (tenant_by_slug slug) db))

abbrev pub answered :
    (now later : ℕ) → Text → Option CacheEntry → Resolver → Db → Result (ℕ × ℕ) × Resolver
answered now later slug none r db = looked_up later slug r db
answered now later slug (some e) r db =
    if ltb now e.expires_at
    then (ok (e.tenant_id, e.content_version), r)
    else looked_up later slug r db

-- `ResolveSlug`: the entry is read before the sweep; `later` is the time after the query, from
-- which the entry's life counts.
unfoldable pub resolve_slug : (now later : ℕ) → Text → Resolver → Db → Result (ℕ × ℕ) × Resolver
unfolding valid_slug swept
resolve_slug now later slug r db =
    if not (valid_slug slug)
    then (err Error.invalid_slug, r)
    else answered now later slug (find (is_for slug) r.cache) (swept now r) db
