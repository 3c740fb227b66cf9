-- ===== src/Tenancy/Staleness.antt =====
-- How old an answer of the resolver can be.
use mathlib.Core.List.{Memᴰ}
use open_blog.Base.{
  ℕ, ◌+◌, ◌≡◌, refl, ◌<◌, ◌≤◌, sym, ap, true, not, ◌⊎◌, inl, inr, text_eq_instance, text_eq_iff,
  Option, none, some, List, [], ◌∷◌, ◌++◌, Text, arith, All, All-select, find, find_sound, All-find,
  ltb, Bool-cases, Option-cases,
}
use open_blog.Store.Errors.{Error, Result, ok, err, eq_of_ok}
use open_blog.Store.Rows.{Db, Tenant}
use open_blog.Store.Tx.{scoped, no_rows_as}
use open_blog.Tenancy.Resolver.{
  CacheEntry, Resolver, new_resolver, is_for, is_live, swept, tenant_by_slug, cached, looked_up,
  answered, resolve_slug, valid_slug,
}

-- What the tenants table held under a slug at the time of a query, and the time after the query, at which
-- the entry is made.
pub record Reading : Type 0 where
  pub slug : Text
  pub tenant_id : ℕ
  pub content_version : ℕ
  pub at : ℕ
  pub later : ℕ

abbrev pub readings_of : (at later : ℕ) → Text → Result Tenant → List Reading
readings_of at later slug (err e) = []
readings_of at later slug (ok t) =
    record {
      slug = slug;
      tenant_id = t.id;
      content_version = t.content_version;
      at = at;
      later = later;
    }
    ∷ []

abbrev pub readings : (at later : ℕ) → Text → Db → List Reading
readings at later slug db = readings_of at later slug (tenant_by_slug slug db)

-- The resolver after any calls, with what the table held under their slugs at the times of the queries:
-- a query is made no earlier than its call reads the clock, and the clock is read again after it. The
-- table may change between the calls.
pub data Served (configured : ℕ) : Resolver → List Reading → Type 0 where
  starts : Served configured (new_resolver configured) []
  resolves :
      {r : Resolver} {log : List Reading} (now at later : ℕ) (slug : Text) (db : Db)
      → now ≤ at
      → at ≤ later
      → Served configured r log
      → Served configured (resolve_slug now later slug r db).1 (readings at later slug db ++ log)

module _ (ttl : ℕ) where
  -- The entry is what the table held at the time of a query, and expires `ttl` after the query ended.
  abbrev pub IsBacked : List Reading → CacheEntry → Type 0
  IsBacked log e =
      (at : ℕ) × (later : ℕ) × Memᴰ
        (record {
          slug = e.slug;
          tenant_id = e.tenant_id;
          content_version = e.content_version;
          at = at;
          later = later;
        })
        log
      × (at ≤ later)
      × (e.expires_at ≡ later + ttl)

  IsBacked-append :
      (more log : List Reading) (es : List CacheEntry)
      → All (IsBacked log) es
      → All (IsBacked (more ++ log)) es
  IsBacked-append [] log es h = h
  IsBacked-append (x ∷ more) log es h = later es (IsBacked-append more log es h)
    where
      later :
          (fs : List CacheEntry)
          → All (IsBacked (more ++ log)) fs
          → All (IsBacked (x ∷ (more ++ log))) fs
      later [] k = tt
      later (f ∷ fs) ((at, ended, m, o, e), k) = ((at, ended, Memᴰ.tail m, o, e), later fs k)

  abbrev pub IsSound : List Reading → Resolver → Type 0
  IsSound log r = (r.ttl ≡ ttl) × All (IsBacked log) r.cache

  swept-IsSound :
      (log : List Reading) (now : ℕ) (r : Resolver) → IsSound log r → IsSound log (swept now r)
  unfolding swept
  swept-IsSound log now r (t, h) = elim (Bool-cases (ltb (r.last_sweep + r.ttl) now)) [
    | inl e ↦ rw e (t, All-select (IsBacked log) (is_live now) r.cache h)
    | inr e ↦ rw e (t, h)
  ]

  cached-IsSound :
      (log : List Reading) (at later : ℕ) (slug : Text) (r : Resolver) (x : Result Tenant)
      → at ≤ later
      → IsSound log r
      → IsSound
          (readings_of at later slug x ++ log)
          (cached later slug r (no_rows_as Error.tenant_not_found x)).1
  cached-IsSound log at later slug r (err Error.no_rows) o h = h
  cached-IsSound log at later slug r (err e) o h = h
  cached-IsSound log at later slug r (ok t) o (e, h) = (
    e,
    (
      (at, later, Memᴰ.head refl, o, ap (λ n. later + n) e),
      All-select (IsBacked _) (λ c. not (is_for slug c)) r.cache
          (IsBacked-append (readings_of at later slug (ok t)) log r.cache h),
    ),
  )

  looked_up-IsSound :
      (log : List Reading) (at later : ℕ) (slug : Text) (r : Resolver) (db : Db)
      → at ≤ later
      → IsSound log r
      → IsSound (readings at later slug db ++ log) (looked_up later slug r db).1
  unfolding looked_up scoped
  looked_up-IsSound log at later slug r db o h =
      cached-IsSound log at later slug r (tenant_by_slug slug db) o h

  answered-IsSound :
      (log : List Reading) (now at later : ℕ) (slug : Text) (o : Option CacheEntry) (r : Resolver)
      (db : Db)
      → at ≤ later
      → IsSound log r
      → IsSound (readings at later slug db ++ log) (answered now later slug o r db).1
  answered-IsSound log now at later slug none r db o h =
      looked_up-IsSound log at later slug r db o h
  answered-IsSound log now at later slug (some e) r db o (t, h) =
      elim (Bool-cases (ltb now e.expires_at)) [
        | inl live ↦ rw live (t, IsBacked-append (readings at later slug db) log r.cache h)
        | inr over ↦ rw over (looked_up-IsSound log at later slug r db o (t, h))
      ]

  resolve_slug-IsSound :
      (log : List Reading) (now at later : ℕ) (slug : Text) (r : Resolver) (db : Db)
      → at ≤ later
      → IsSound log r
      → IsSound (readings at later slug db ++ log) (resolve_slug now later slug r db).1
  unfolding resolve_slug
  resolve_slug-IsSound log now at later slug r db o (t, h) = elim (Bool-cases (valid_slug slug)) [
    | inr bad ↦ rw bad (t, IsBacked-append (readings at later slug db) log r.cache h)
    | inl good ↦ rw good (
        answered-IsSound log now at later slug (find (is_for slug) r.cache) (swept now r) db o
          (swept-IsSound log now r (t, h)))
  ]

  -- The table holds the answer now, or held it at the time of a query that ended less than `ttl` before
  -- `now`.
  abbrev pub IsRecent : List Reading → (now : ℕ) → Text → Db → (id version : ℕ) → Type 0
  IsRecent log now slug db id version =
      ((t : Tenant) × (tenant_by_slug slug db ≡ ok t) × (t.id ≡ id) × (t.content_version ≡ version))
      ⊎ ((at : ℕ) × (later : ℕ) × Memᴰ
            (record {
              slug = slug;
              tenant_id = id;
              content_version = version;
              at = at;
              later = later;
            })
            log
          × (at ≤ later)
          × (now < later + ttl))

  looked_up-IsRecent :
      (log : List Reading) (now later : ℕ) (slug : Text) (r r' : Resolver) (db : Db)
      (id version : ℕ)
      → looked_up later slug r db ≡ (ok (id, version), r')
      → IsRecent log now slug db id version
  unfolding looked_up scoped
  looked_up-IsRecent log now later slug r r' db id version h = go (tenant_by_slug slug db) refl h
    where
      go :
          (x : Result Tenant)
          → tenant_by_slug slug db ≡ x
          → cached later slug r (no_rows_as Error.tenant_not_found x) ≡ (ok (id, version), r')
          → IsRecent log now slug db id version
      go (err Error.no_rows) e k = absurd (cc (ap (λ p. p.0) k))
      go (err y) e k = absurd (cc (ap (λ p. p.0) k))
      go (ok t) e k =
          let q = eq_of_ok (ap (λ p. p.0) k) in inl (t, e, ap (λ p. p.0) q, ap (λ p. p.1) q)

  cache_hit :
      (log : List Reading) (now : ℕ) (slug : Text) (db : Db) (c : CacheEntry) (id version : ℕ)
      → c.tenant_id ≡ id
      → c.content_version ≡ version
      → c.slug ≡ slug
      → ltb now c.expires_at ≡ true
      → IsBacked log c
      → IsRecent log now slug db id version
  cache_hit log now slug db c id version i v n live (at, later, m, o, x) =
      inr (at, later, rw (sym i, sym v, sym n) m, o, ground arith)

  resolve_slug-IsRecent :
      (log : List Reading) (now later : ℕ) (slug : Text) (r r' : Resolver) (db : Db)
      (id version : ℕ)
      → IsSound log r
      → resolve_slug now later slug r db ≡ (ok (id, version), r')
      → IsRecent log now slug db id version
  unfolding resolve_slug
  resolve_slug-IsRecent log now later slug r r' db id version (t, h) k =
      elim (Bool-cases (valid_slug slug)) [
        | inr bad ↦ absurd (cc (ap (λ p. p.0) (rw bad at k)))
        | inl good ↦ elim (Option-cases (find (is_for slug) r.cache)) [
          | inl e ↦
              looked_up-IsRecent log now later slug (swept now r) r' db id version
                (rw (good, e) at k)
          | inr (c, e) ↦ elim (Bool-cases (ltb now c.expires_at)) [
            | inr over ↦
                looked_up-IsRecent log now later slug (swept now r) r' db id version
                  (rw (good, e, over) at k)
            | inl live ↦
                let q = eq_of_ok (ap (λ p. p.0) (rw (good, e, live) at k)) in
                cache_hit log now slug db c id version (ap (λ p. p.0) q) (ap (λ p. p.1) q)
                  ((text_eq_iff c.slug slug).0 (find_sound (is_for slug) r.cache e)) live
                  (All-find (IsBacked log) (is_for slug) r.cache h e)
          ]
        ]
      ]

Served-IsSound :
    (configured : ℕ) (r : Resolver) (log : List Reading)
    → Served configured r log
    → IsSound (new_resolver configured).ttl log r
unfolding new_resolver
Served-IsSound configured r log starts = (refl, tt)
Served-IsSound configured r log (resolves {r = r0} {log = log0} now at later slug db a o before) =
    resolve_slug-IsSound (new_resolver configured).ttl log0 now at later slug r0 db o
      (Served-IsSound configured r0 log0 before)

-- After any calls, with the table changing between them, an answer is what the table holds under the
-- slug at this call's query, or what it held at the time of an earlier query that ended less than the
-- resolver's ttl before `now`: an answer is stale by less than the ttl and the time that query took.
pub resolve_slug-fresh :
    (configured : ℕ) (r r' : Resolver) (log : List Reading) (now later : ℕ) (slug : Text) (db : Db)
    (id version : ℕ)
    → Served configured r log
    → resolve_slug now later slug r db ≡ (ok (id, version), r')
    → IsRecent (new_resolver configured).ttl log now slug db id version
resolve_slug-fresh configured r r' log now later slug db id version served h =
    resolve_slug-IsRecent (new_resolver configured).ttl log now later slug r r' db id version
      (Served-IsSound configured r log served) h
