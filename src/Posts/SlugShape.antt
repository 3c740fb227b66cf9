-- ===== src/Posts/SlugShape.antt =====
-- The form of the slug that `deriveSlug` gives.
use open_blog.Base.{
  ℕ, ◌≡◌, refl, ◌≤◌, ◌≢◌, Bool, true, false, ◌||◌, [], ◌∷◌, reverse, Text, codes, arith, All,
  All-take, take, length, length-take-le, trim, to_lower, ltb, Bool-cases, inl, inr, starts,
  starts-trim, starts-reverse-trim, All-trim, length-trim, nat_eq,
}
use open_blog.Posts.Slugs.{
  slug_char, is_hyphen, hyphenate, derive_slug, named, capped, or_post, max_slug,
}

-- A code point of `[a-z0-9-]`.
abbrev pub IsSlugCode : ℕ → Type 0
IsSlugCode c = (slug_char c || is_hyphen c) ≡ true

-- `[a-z0-9]([a-z0-9-]*[a-z0-9])?`, with 63 code points at most.
pub record IsSlug (s : Text) : Type 0 where
  pub codes_ok : All IsSlugCode s
  pub first_ok : starts is_hyphen s ≡ false
  pub last_ok : starts is_hyphen (reverse s) ≡ false
  pub short : length s ≤ 63
  pub nonempty : s ≢ []

hyphenate-All : (in_run : Bool) (s : Text) → All IsSlugCode (hyphenate in_run s)
unfolding hyphenate
hyphenate-All in_run [] = tt
hyphenate-All in_run (c ∷ s) = ground (arith, hyphenate-All true s, hyphenate-All false s)

post-IsSlug : IsSlug (codes "post")
post-IsSlug = record {
  codes_ok = (refl, (refl, (refl, (refl, tt))));
  first_ok = refl;
  last_ok = refl;
  short = omega arith;
  nonempty = λ e. cc;
}

-- A trimmed text of such code points that is short enough, or "post".
or_post-IsSlug :
    (s : Text)
    → All IsSlugCode s
    → starts is_hyphen s ≡ false
    → starts is_hyphen (reverse s) ≡ false
    → length s ≤ 63
    → IsSlug (or_post s)
or_post-IsSlug [] a b c d = post-IsSlug
or_post-IsSlug (x ∷ s) a b c d = record {
  codes_ok = a;
  first_ok = b;
  last_ok = c;
  short = d;
  nonempty = λ e. cc;
}

capped-IsSlug :
    (s : Text)
    → All IsSlugCode s
    → starts is_hyphen s ≡ false
    → starts is_hyphen (reverse s) ≡ false
    → IsSlug (capped s)
capped-IsSlug s a b c = elim (Bool-cases (ltb max_slug (length s))) [
  | inl long ↦
      let t : Text = take max_slug s in
      rw long (
        or_post-IsSlug (trim is_hyphen t)
          (All-trim IsSlugCode is_hyphen t (All-take IsSlugCode max_slug s a))
          (starts-trim is_hyphen t) (starts-reverse-trim is_hyphen t)
          (omega (arith, length-trim is_hyphen t, length-take-le max_slug s)))
  | inr short ↦ rw short (or_post-IsSlug s a b c (ground arith))
]

named-IsSlug :
    (s : Text)
    → All IsSlugCode s
    → starts is_hyphen s ≡ false
    → starts is_hyphen (reverse s) ≡ false
    → IsSlug (named s)
named-IsSlug [] a b c = post-IsSlug
named-IsSlug (x ∷ s) a b c = capped-IsSlug (x ∷ s) a b c

-- Whatever the title, the slug is not empty, has 63 code points at most, all of `[a-z0-9-]`, and neither
-- begins nor ends with a hyphen.
pub derive_slug-IsSlug :
    (lower_table : ℕ → ℕ) (title : Text) → IsSlug (derive_slug lower_table title)
unfolding derive_slug
derive_slug-IsSlug lower_table title =
    let s : Text = hyphenate false (to_lower lower_table title) in
    named-IsSlug (trim is_hyphen s)
      (All-trim IsSlugCode is_hyphen s (hyphenate-All false (to_lower lower_table title)))
      (starts-trim is_hyphen s) (starts-reverse-trim is_hyphen s)
