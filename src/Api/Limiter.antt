-- ===== src/Api/Limiter.antt =====
-- internal/api/middleware.go: `rateLimit`. A limiter of golang.org/x/time/rate is given, with its times as
-- arguments; the map of buckets is a function.
use open_blog.Base.{
  ℕ, ◌+◌, Bool, ◌==◌, text_eq_instance, Option, none, some, List, [], ◌∷◌, if◌then◌else◌, Text, ltb,
}

-- A new limiter, and `Allow` at a time.
pub record RateExternal (L : Type 0) : Type 0 where
  pub new_limiter : L
  pub allow : (now : ℕ) → L → Bool × L

-- `rateBkt`.
pub record RateBucket (L : Type 0) : Type 0 where
  pub lim : L
  pub last : ℕ

-- `rateLimit`.
pub record RateLimit (L : Type 0) : Type 0 where
  pub buckets : Text → Option (RateBucket L)
  pub idle_ttl : ℕ

-- What happens to a limiter: a request under a key, or a tick of the janitor.
pub data RateEvent : Type 0 where
  asked : (now : ℕ) (key : Text) → RateEvent
  ticked : (now : ℕ) → RateEvent

module _ {L : Type 0} (ext : RateExternal L) where
  -- `newRateLimit`, with the rate and the burst in the limiters.
  abbrev pub new_rate_limit : (idle_ttl : ℕ) → RateLimit L
  new_rate_limit idle_ttl = record { buckets = λ key. none; idle_ttl = idle_ttl }

  abbrev pub limiter_of : Option (RateBucket L) → L
  limiter_of none = ext.new_limiter
  limiter_of (some b) = b.lim

  abbrev pub put {κ} : {A : Type κ} → Text → A → (Text → A) → Text → A
  put key a f k = if k == key then a else f k

  -- `Allow`.
  unfoldable pub allow_key : (now : ℕ) → Text → RateLimit L → Bool × RateLimit L
  allow_key now key r =
      let (verdict, lim) = ext.allow now (limiter_of (r.buckets key)) in
      (verdict, record r { buckets = put key (some (record { lim = lim; last = now })) r.buckets })

  abbrev pub kept : (idle_ttl now : ℕ) → Option (RateBucket L) → Option (RateBucket L)
  kept idle_ttl now none = none
  kept idle_ttl now (some b) = if ltb (b.last + idle_ttl) now then none else some b

  -- One round of `janitor`.
  unfoldable pub sweep_buckets : (now : ℕ) → RateLimit L → RateLimit L
  sweep_buckets now r = record r { buckets = λ key. kept r.idle_ttl now (r.buckets key) }

  -- The answers to the requests, in order.
  unfoldable pub verdicts : RateLimit L → List RateEvent → List Bool
  unfolding allow_key sweep_buckets
  verdicts r [] = []
  verdicts r (asked now key ∷ es) = (allow_key now key r).0 ∷ verdicts (allow_key now key r).1 es
  verdicts r (ticked now ∷ es) = verdicts (sweep_buckets now r) es

  -- The promise: each key has a limiter of its own, for ever.
  unfoldable pub promised : (Text → L) → List RateEvent → List Bool
  promised lims [] = []
  promised lims (asked now key ∷ es) =
      (ext.allow now (lims key)).0 ∷ promised (put key (ext.allow now (lims key)).1 lims) es
  promised lims (ticked now ∷ es) = promised lims es
