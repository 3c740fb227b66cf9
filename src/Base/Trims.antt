-- ===== src/Base/Trims.antt =====
-- What `strings.TrimFunc` leaves.
use Prim.Native.Nat.{ℕ, ◌≤◌}
use mathlib.Core.Path.{◌≡◌, refl, sym, ap, ◌∙◌, subst}
use mathlib.Core.Bool.{Bool, false}
use mathlib.Core.Logic.{inl, inr}
use mathlib.Core.List.{[], ◌∷◌, ◌++◌, reverse, reverse-cons, reverse-append, reverse-reverse}
use native.Mathlib.Omega.{arith}
use open_blog.Base.Tests.{Bool-cases}
use open_blog.Base.Equality.{Text}
use open_blog.Base.Lists.{length, length-append, All, All-append}
use open_blog.Base.Strings.{trim_left, trim_right, trim}

module _ {κ} (P : ℕ → Type κ) where
  pub All-reverse : (s : Text) → All P s → All P (reverse s)
  All-reverse [] h = tt
  All-reverse (c ∷ s) (p, h) =
      rw (reverse-cons c s) (All-append P (reverse s) (c ∷ []) (All-reverse s h) (p, tt))

  pub All-trim_left : (p : ℕ → Bool) (s : Text) → All P s → All P (trim_left p s)
  unfolding trim_left
  All-trim_left p [] h = tt
  All-trim_left p (c ∷ s) (x, h) = ground (arith, All-trim_left p s h)

  pub All-trim : (p : ℕ → Bool) (s : Text) → All P s → All P (trim p s)
  unfolding trim trim_right
  All-trim p s h = All-reverse (trim_left p (reverse (trim_left p s))) (
      All-trim_left p (reverse (trim_left p s)) (All-reverse (trim_left p s) (All-trim_left p s h)))

length-reverse : (s : Text) → length (reverse s) ≡ length s
length-reverse [] = refl
length-reverse (c ∷ s) =
    rw (reverse-cons c s) (omega (arith, length-append (reverse s) (c ∷ []), length-reverse s))

module _ (p : ℕ → Bool) where
  -- The first code point passes the test.
  abbrev pub starts : Text → Bool
  starts [] = false
  starts (c ∷ s) = p c

  trim_left-suffix : (s : Text) → (front : Text) × (s ≡ front ++ trim_left p s)
  unfolding trim_left
  trim_left-suffix [] = ([], refl)
  trim_left-suffix (c ∷ s) = elim (Bool-cases (p c)) [
    | inl e ↦ let (f, h) = trim_left-suffix s in (c ∷ f, rw e (ap (λ t. c ∷ t) h))
    | inr e ↦ ([], rw e refl)
  ]

  pub starts-trim_left : (s : Text) → starts (trim_left p s) ≡ false
  unfolding trim_left
  starts-trim_left [] = refl
  starts-trim_left (c ∷ s) = ground (arith, starts-trim_left s)

  pub length-trim_left : (s : Text) → length (trim_left p s) ≤ length s
  unfolding trim_left
  length-trim_left [] = omega arith
  length-trim_left (c ∷ s) = ground (arith, length-trim_left s)

  pub length-trim : (s : Text) → length (trim p s) ≤ length s
  unfolding trim trim_right
  length-trim s = omega (
    arith,
    length-trim_left s,
    length-reverse (trim_left p s),
    length-trim_left (reverse (trim_left p s)),
    length-reverse (trim_left p (reverse (trim_left p s))),
  )

  starts-append : (s t : Text) → starts (s ++ t) ≡ false → starts s ≡ false
  starts-append [] t h = refl
  starts-append (c ∷ s) t h = h

  starts-trim_right : (s : Text) → starts s ≡ false → starts (trim_right p s) ≡ false
  unfolding trim_right
  starts-trim_right s h =
      let (f, e) = trim_left-suffix (reverse s) in
      let k : s ≡ reverse (trim_left p (reverse s)) ++ reverse f =
        sym (reverse-reverse s) ∙ ap reverse e ∙ reverse-append f (trim_left p (reverse s)) in
      starts-append (reverse (trim_left p (reverse s))) (reverse f)
        (subst (λ t. starts t ≡ false) k h)

  -- Neither the first code point passes the test, nor the last.
  pub starts-trim : (s : Text) → starts (trim p s) ≡ false
  unfolding trim
  starts-trim s = starts-trim_right (trim_left p s) (starts-trim_left s)

  pub starts-reverse-trim : (s : Text) → starts (reverse (trim p s)) ≡ false
  unfolding trim trim_right
  starts-reverse-trim s =
      subst (λ t. starts t ≡ false) (sym (reverse-reverse (trim_left p (reverse (trim_left p s)))))
        (starts-trim_left (reverse (trim_left p s)))
