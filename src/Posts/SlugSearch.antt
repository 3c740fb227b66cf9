-- ===== src/Posts/SlugSearch.antt =====
-- What the loop of `uniqueSlug` finds.
use mathlib.Core.Path.{subst}
use open_blog.Base.{
  ℕ, zero, suc, ◌+◌, ◌≡◌, ◌≤◌, ◌<◌, true, false, ◌&&◌, ◌==◌, nat_eq, text_eq_instance, ◌⊎◌, inl,
  inr, any, Text, arith, ap, sym, ◌∙◌, Bool-cases,
}
use open_blog.Store.Errors.{Error, ok, err, eq_of_ok, eq_of_err}
use open_blog.Store.Rows.{Db}
use open_blog.Store.Tx.{Scope, visible}
use open_blog.Store.Posts.{slug_exists}
use open_blog.Posts.Slugs.{derive_slug, suffixed, slug_loop, slug_rounds, unique_slug}

module _ (s : Scope) (tenant : ℕ) (db : Db) where
  abbrev pub IsTaken : Text → Type 0
  IsTaken slug = slug_exists s tenant slug db ≡ ok true

  abbrev pub IsFree : Text → Type 0
  IsFree slug = slug_exists s tenant slug db ≡ ok false

  -- The numbers from `low` up to `high` give slugs that are taken.
  abbrev pub AreTaken : (base : Text) → (low high : ℕ) → Type 0
  AreTaken base low high = (k : ℕ) → low ≤ k → k < high → IsTaken (suffixed base k)

  -- `slug` is the first free one of the candidates after `first`.
  abbrev pub IsNumbered : (base first : Text) → (low high : ℕ) → (slug : Text) → Type 0
  IsNumbered base first low high slug =
      IsTaken first
      × ((n : ℕ) × (low ≤ n) × (n < high) × (slug ≡ suffixed base n) × AreTaken base low n)

  slug_cases : (slug : Text) → IsTaken slug ⊎ IsFree slug
  unfolding slug_exists
  slug_cases slug =
      elim (Bool-cases
        (any (λ p. (p.tenant_id == tenant && p.slug == slug) && visible s p.tenant_id) db.posts)) [
          | inl e ↦ inl (ap ok e)
          | inr e ↦ inr (ap ok e)
        ]

  AreTaken-suc :
      (base : Text) (low high : ℕ)
      → IsTaken (suffixed base low)
      → AreTaken base (suc low) high
      → AreTaken base low high
  AreTaken-suc base low high t h = λ k a b. elim (Bool-cases (low == k)) [
    | inl e ↦ subst (λ i. IsTaken (suffixed base i)) ((nat_eq.test_iff low k).0 e) t
    | inr e ↦ h k (ground arith) b
  ]

  slug_loop_taken :
      (rounds : ℕ) (base : Text) (attempt : ℕ) (slug : Text)
      → IsTaken slug
      → slug_loop (suc rounds) s tenant base attempt slug db
        ≡ slug_loop rounds s tenant base (suc attempt) (suffixed base attempt) db
  unfolding slug_loop
  slug_loop_taken rounds base attempt slug t = ground arith

  slug_loop_free :
      (rounds : ℕ) (base : Text) (attempt : ℕ) (slug : Text)
      → IsFree slug
      → slug_loop rounds s tenant base attempt slug db ≡ ok slug
  unfolding slug_loop
  slug_loop_free zero base attempt slug t = ground arith
  slug_loop_free (suc rounds) base attempt slug t = ground arith

  slug_loop_spent :
      (base : Text) (attempt : ℕ) (slug : Text)
      → IsTaken slug
      → slug_loop zero s tenant base attempt slug db ≡ err Error.slug_taken
  unfolding slug_loop
  slug_loop_spent base attempt slug t = ground arith

  -- One more candidate in front of those that were searched.
  IsNumbered-suc :
      (base first out : Text) (low high : ℕ)
      → low < high
      → IsTaken first
      → (out ≡ suffixed base low) ⊎ IsNumbered base (suffixed base low) (suc low) high out
      → IsNumbered base first low high out
  IsNumbered-suc base first out low high b t (inl e) =
      (t, (low, omega arith, b, e, λ k a c. absurd (omega (arith, a, c))))
  IsNumbered-suc base first out low high b t (inr (t', (n, a, c, e, h))) =
      (t, (n, omega (arith, a), c, e, AreTaken-suc base low n t' h))

  slug_loop-first :
      (rounds : ℕ) (base : Text) (attempt : ℕ) (slug out : Text)
      → slug_loop rounds s tenant base attempt slug db ≡ ok out
      → IsFree out × ((out ≡ slug) ⊎ IsNumbered base slug attempt (attempt + rounds) out)
  slug_loop-first zero base attempt slug out h = elim (slug_cases slug) [
    | inr free ↦
        let e : slug ≡ out = eq_of_ok (sym (slug_loop_free zero base attempt slug free) ∙ h) in
        (subst IsFree e free, inl (sym e))
    | inl t ↦ absurd (cc (sym (slug_loop_spent base attempt slug t) ∙ h))
  ]
  slug_loop-first (suc rounds) base attempt slug out h = elim (slug_cases slug) [
    | inr free ↦
        let e : slug ≡ out =
          eq_of_ok (sym (slug_loop_free (suc rounds) base attempt slug free) ∙ h) in
        (subst IsFree e free, inl (sym e))
    | inl t ↦
        let (free, r) =
          slug_loop-first rounds base (suc attempt) (suffixed base attempt) out
            (sym (slug_loop_taken rounds base attempt slug t) ∙ h) in
        let e : suc attempt + rounds ≡ attempt + suc rounds = omega arith in
        (
          free,
          inr (
              IsNumbered-suc base slug out attempt (attempt + suc rounds) (omega arith) t (
                subst
                  (λ n.
                    (out ≡ suffixed base attempt)
                    ⊎ IsNumbered base (suffixed base attempt) (suc attempt) n out)
                  e r)),
        )
  ]

  -- The loop of `uniqueSlug` fails only with `ErrSlugTaken`, and where the slug it starts with and each
  -- numbered form of the base from the attempt on, one for each round, are taken.
  pub slug_loop-IsTaken :
      (rounds : ℕ) (base : Text) (attempt : ℕ) (slug : Text) (e : Error)
      → slug_loop rounds s tenant base attempt slug db ≡ err e
      → (e ≡ Error.slug_taken) × IsTaken slug × AreTaken base attempt (attempt + rounds)
  slug_loop-IsTaken zero base attempt slug e h = elim (slug_cases slug) [
    | inr free ↦ absurd (cc (sym (slug_loop_free zero base attempt slug free) ∙ h))
    | inl t ↦ (
      eq_of_err (sym h ∙ slug_loop_spent base attempt slug t),
      t,
      λ k a b. absurd (omega (arith, a, b)),
    )
  ]
  slug_loop-IsTaken (suc rounds) base attempt slug e h = elim (slug_cases slug) [
    | inr free ↦ absurd (cc (sym (slug_loop_free (suc rounds) base attempt slug free) ∙ h))
    | inl t ↦
        let (x, t', r) =
          slug_loop-IsTaken rounds base (suc attempt) (suffixed base attempt) e
            (sym (slug_loop_taken rounds base attempt slug t) ∙ h) in
        let n : suc attempt + rounds ≡ attempt + suc rounds = omega arith in
        (
          x,
          t,
          AreTaken-suc base attempt (attempt + suc rounds) t'
              (subst (AreTaken base (suc attempt)) n r),
        )
  ]

-- The slug that `uniqueSlug` gives is free in the tenant, and it is the first free one of the derived
-- slug and its numbered forms from -2 up to -10000: those before it are taken.
pub unique_slug-first :
    (lower_table : ℕ → ℕ) (s : Scope) (tenant : ℕ) (desired out : Text) (db : Db)
    → unique_slug lower_table s tenant desired db ≡ ok out
    → IsFree s tenant db out
      × ((out ≡ derive_slug lower_table desired)
          ⊎ IsNumbered s tenant db
              (derive_slug lower_table desired)
              (derive_slug lower_table desired)
              2
              10001
              out)
unfolding unique_slug
unique_slug-first lower_table s tenant desired out db h =
    slug_loop-first s tenant db slug_rounds (derive_slug lower_table desired) 2
      (derive_slug lower_table desired) out h

-- `uniqueSlug` fails only with `ErrSlugTaken`, where the derived slug and its numbered forms from -2 up
-- to -10000 are all taken.
pub unique_slug-IsTaken :
    (lower_table : ℕ → ℕ) (s : Scope) (tenant : ℕ) (desired : Text) (e : Error) (db : Db)
    → unique_slug lower_table s tenant desired db ≡ err e
    → (e ≡ Error.slug_taken)
      × IsTaken s tenant db (derive_slug lower_table desired)
      × AreTaken s tenant db (derive_slug lower_table desired) 2 10001
unfolding unique_slug
unique_slug-IsTaken lower_table s tenant desired e db h =
    slug_loop-IsTaken s tenant db slug_rounds (derive_slug lower_table desired) 2
      (derive_slug lower_table desired) e h
