-- ===== src/Api/Limiting.antt =====
-- internal/api/middleware.go: evicting idle buckets cannot be seen.
use open_blog.Base.{
  ℕ, ◌+◌, ◌≡◌, ◌≤◌, ◌<◌, ◌⊎◌, refl, sym, ap, ◌∙◌, arith, ◌==◌, text_eq_instance, Option, none, some,
  List, [], ◌∷◌, Text, ltb, Bool-cases, inl, inr,
}
use open_blog.Api.Limiter.{
  RateExternal, RateBucket, RateLimit, RateEvent, asked, ticked, new_rate_limit, limiter_of, put,
  allow_key, kept, sweep_buckets, verdicts, promised,
}

-- The times of the events never go back.
abbrev pub IsClocked : (clock : ℕ) → List RateEvent → Type 0
IsClocked clock [] = Unit {0}
IsClocked clock (asked now key ∷ es) = (clock ≤ now) × IsClocked now es
IsClocked clock (ticked now ∷ es) = (clock ≤ now) × IsClocked now es

module _ {L : Type 0} (ext : RateExternal L) (idle_ttl : ℕ) where
  -- A limiter that was idle for longer than the ttl answers as a new one, and goes on as one.
  abbrev pub IsForgetful : Type 0
  IsForgetful =
      (l : L) (last now : ℕ)
      → last + idle_ttl < now
      → ext.allow now (ext.allow last l).1 ≡ ext.allow now ext.new_limiter

  -- A limiter that was last asked at a time.
  pub record IsAsked (l : L) (last : ℕ) : Type 0 where
    pub earlier : L
    pub after : l ≡ (ext.allow last earlier).1

  -- What a bucket is to the limiter that was promised: the same, or missing where that one is new or idle.
  abbrev IsBucket : (clock : ℕ) → Option (RateBucket L) → L → Type 0
  IsBucket clock (some b) l = (b.lim ≡ l) × IsAsked l b.last
  IsBucket clock none l =
      (l ≡ ext.new_limiter) ⊎ ((last : ℕ) × (last + idle_ttl < clock) × IsAsked l last)

  IsBucket-mono :
      (c c' : ℕ) (o : Option (RateBucket L)) (l : L) → c ≤ c' → IsBucket c o l → IsBucket c' o l
  IsBucket-mono c c' (some b) l h k = k
  IsBucket-mono c c' none l h (inl e) = inl e
  IsBucket-mono c c' none l h (inr (last, lt, a)) = inr (last, omega arith, a)

  kept-IsBucket :
      (now : ℕ) (o : Option (RateBucket L)) (l : L)
      → IsBucket now o l
      → IsBucket now (kept ext idle_ttl now o) l
  kept-IsBucket now none l k = k
  kept-IsBucket now (some b) l (same, a) = elim (Bool-cases (ltb (b.last + idle_ttl) now)) [
    | inl e ↦ rw e (inr (b.last, ground arith, a))
    | inr e ↦ rw e (same, a)
  ]

  module _ (law : IsForgetful) where
    same-allow :
        (now : ℕ) (o : Option (RateBucket L)) (l : L)
        → IsBucket now o l
        → ext.allow now (limiter_of ext o) ≡ ext.allow now l
    same-allow now (some b) l (same, a) = ap (ext.allow now) same
    same-allow now none l (inl e) = ap (ext.allow now) (sym e)
    same-allow now none l (inr (last, lt, a)) =
        sym (ap (ext.allow now) a.after ∙ law a.earlier last now lt)

    put-IsBucket :
        (clock now : ℕ) (key k : Text) (r : RateLimit L) (lims : Text → L)
        → clock ≤ now
        → ((k : Text) → IsBucket clock (r.buckets k) (lims k))
        → IsBucket now
            ((allow_key ext now key r).1.buckets k)
            (put ext key (ext.allow now (lims key)).1 lims k)
    unfolding allow_key
    put-IsBucket clock now key k r lims h inv = elim (Bool-cases (k == key)) [
      | inl e ↦
          let same : ext.allow now (limiter_of ext (r.buckets key)) ≡ ext.allow now (lims key) =
            same-allow now (r.buckets key) (lims key)
              (IsBucket-mono clock now (r.buckets key) (lims key) h (inv key)) in
          rw e (ap (λ p. p.1) same, record { earlier = lims key; after = refl })
      | inr e ↦ rw e (IsBucket-mono clock now (r.buckets k) (lims k) h (inv k))
    ]

    verdicts-promised :
        (clock : ℕ) (r : RateLimit L) (lims : Text → L) (es : List RateEvent)
        → r.idle_ttl ≡ idle_ttl
        → ((k : Text) → IsBucket clock (r.buckets k) (lims k))
        → IsClocked clock es
        → verdicts ext r es ≡ promised ext lims es
    unfolding verdicts promised allow_key sweep_buckets
    verdicts-promised clock r lims [] t inv c = refl
    verdicts-promised clock r lims (asked now key ∷ es) t inv (h, c) =
        let same : ext.allow now (limiter_of ext (r.buckets key)) ≡ ext.allow now (lims key) =
          same-allow now (r.buckets key) (lims key)
            (IsBucket-mono clock now (r.buckets key) (lims key) h (inv key)) in
        let rest =
          verdicts-promised now (allow_key ext now key r).1
            (put ext key (ext.allow now (lims key)).1 lims) es t
            (λ k. put-IsBucket clock now key k r lims h inv) c in
        cc
    verdicts-promised clock r lims (ticked now ∷ es) t inv (h, c) =
        verdicts-promised now (sweep_buckets ext now r) lims es t
          (λ k. rw t (
            kept-IsBucket now (r.buckets k) (lims k)
              (IsBucket-mono clock now (r.buckets k) (lims k) h (inv k))))
          c

    -- The limiter with its janitor answers every sequence of requests, whose times never go back, as if each
    -- key had a limiter of its own for ever: keys do not disturb each other, and no eviction can be seen. A limiter
    -- of the library that was idle for longer than the ttl goes on as a new one.
    pub verdicts-IsPromised :
        (es : List RateEvent)
        → IsClocked 0 es
        → verdicts ext (new_rate_limit ext idle_ttl) es ≡ promised ext (λ key. ext.new_limiter) es
    verdicts-IsPromised es c =
        verdicts-promised 0 (new_rate_limit ext idle_ttl) (λ key. ext.new_limiter) es refl
          (λ k. inl refl) c
