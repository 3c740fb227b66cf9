-- ===== src/Tenancy/Tests.antt =====
-- Examples for internal/tenancy.
use open_blog.Base.{ℕ, arith, ◌≡◌, refl, true, List, [], ◌∷◌, Text, codes, ◌++◌}
use open_blog.Tenancy.Resolver.{Resolver, CacheEntry, new_resolver, valid_slug}
use open_blog.Tenancy.Staleness.{readings, Served, starts, resolves, IsRecent, resolve_slug-fresh}
use open_blog.Samples.{sample_db}
use open_blog.Store.Rows.{Db}

abbrev warm : Resolver
warm = record {
  ttl = 30_000_000_000;
  cache =
      record { slug = codes "t1"; tenant_id = 1; content_version = 5; expires_at = 30_000_000_011 }
      ∷ [];
  last_sweep = 0;
}

-- The table is empty by the time of the second call.
abbrev emptied : Db
emptied = record sample_db { tenants = [] }

warm-Served : Served 0 warm (readings 10 11 (codes "t1") sample_db ++ [])
unfolding open_blog.Tenancy.Resolver.resolve_slug open_blog.Tenancy.Resolver.valid_slug
    open_blog.Tenancy.Resolver.ends_label open_blog.Tenancy.Resolver.swept
    open_blog.Tenancy.Resolver.looked_up open_blog.Tenancy.Resolver.tenant_by_slug
    open_blog.Tenancy.Resolver.new_resolver open_blog.Store.Tx.scoped_rw open_blog.Store.Tx.scoped
    open_blog.Store.Tx.visible open_blog.Store.Tx.◌>>=◌ open_blog.Base.text_eq
warm-Served = resolves 9 10 11 (codes "t1") sample_db (omega arith) (omega arith) starts

resolve_slug-fresh_example :
    IsRecent
      (new_resolver 0).ttl
      (readings 10 11 (codes "t1") sample_db ++ [])
      20
      (codes "t1")
      emptied
      1
      5
unfolding open_blog.Tenancy.Resolver.resolve_slug open_blog.Tenancy.Resolver.valid_slug
    open_blog.Tenancy.Resolver.ends_label open_blog.Tenancy.Resolver.swept
    open_blog.Tenancy.Resolver.looked_up open_blog.Tenancy.Resolver.tenant_by_slug
    open_blog.Tenancy.Resolver.new_resolver open_blog.Store.Tx.scoped_rw open_blog.Store.Tx.scoped
    open_blog.Store.Tx.visible open_blog.Store.Tx.◌>>=◌ open_blog.Base.text_eq
resolve_slug-fresh_example =
    resolve_slug-fresh 0 warm warm (readings 10 11 (codes "t1") sample_db ++ []) 20 21 (codes "t1")
      emptied 1 5 warm-Served refl
