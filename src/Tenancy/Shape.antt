-- ===== src/Tenancy/Shape.antt =====
-- The slugs of posts (`deriveSlug`) and the shape that `ValidSlug` asks for.
use mathlib.Core.List.{reverse-cons}
use open_blog.Base.{
  ℕ, ◌≡◌, refl, ◌∙◌, sym, true, false, [], ◌∷◌, ◌++◌, reverse, Text, arith, All, starts,
}
use open_blog.Posts.Slugs.{is_hyphen, derive_slug}
use open_blog.Posts.SlugShape.{IsSlug, IsSlugCode, derive_slug-IsSlug}
use open_blog.Tenancy.Resolver.{ends_label, valid_slug}

starts-append_cons :
    (s t : Text) (c : ℕ)
    → starts is_hyphen ((s ++ (c ∷ [])) ++ t) ≡ starts is_hyphen (s ++ (c ∷ []))
starts-append_cons [] t c = refl
starts-append_cons (d ∷ s) t c = refl

-- The last code point is no hyphen, read from the front.
last-cons :
    (c d : ℕ) (s : Text)
    → starts is_hyphen (reverse (c ∷ d ∷ s)) ≡ starts is_hyphen (reverse (d ∷ s))
last-cons c d s =
    rw (reverse-cons c (d ∷ s), reverse-cons d s) (starts-append_cons (reverse s) (c ∷ []) d)

All-ends_label :
    (c : ℕ) (s : Text)
    → All IsSlugCode (c ∷ s)
    → starts is_hyphen (reverse (c ∷ s)) ≡ false
    → ends_label (c ∷ s) ≡ true
unfolding ends_label
All-ends_label c [] (h, _) l = ground arith
All-ends_label c (d ∷ s) (h, hs) l =
    let k = All-ends_label d s hs (sym (last-cons c d s) ∙ l) in ground arith

IsSlug-valid_slug : (s : Text) → IsSlug s → valid_slug s ≡ true
unfolding valid_slug
IsSlug-valid_slug [] h = absurd (h.nonempty refl)
IsSlug-valid_slug (c ∷ []) h = let (a, _) = h.codes_ok in let b = h.first_ok in ground arith
IsSlug-valid_slug (c ∷ d ∷ s) h =
    let (a, as') = h.codes_ok in
    let b = h.first_ok in
    let n = h.short in
    let k : ends_label (d ∷ s) ≡ true =
      All-ends_label d s as' (sym (last-cons c d s) ∙ h.last_ok) in
    ground arith

-- The slug that is derived from any title has the shape that `ValidSlug` asks for.
pub derive_slug-valid_slug :
    (lower_table : ℕ → ℕ) (title : Text) → valid_slug (derive_slug lower_table title) ≡ true
derive_slug-valid_slug lower_table title =
    IsSlug-valid_slug (derive_slug lower_table title) (derive_slug-IsSlug lower_table title)
