-- ===== src/Base/Splitting.antt =====
-- Splitting at a separator, and joining with it.
use mathlib.Core.List.{append-nil, append_assoc}
use open_blog.Base.{
  ℕ, ◌≡◌, sym, ap, ◌∙◌, false, ◌==◌, nat_eq, List, [], ◌∷◌, ◌++◌, Text, All, All-append, Bool-cases,
  inl, inr, split, split_from, join, ==_refl,
}

module _ (sep : ℕ) where
  -- The separator does not occur.
  abbrev pub IsPlain : Text → Type 0
  IsPlain s = All (λ c. (c == sep) ≡ false) s

  split_from-append :
      (cur s rest : Text)
      → IsPlain s
      → split_from sep cur (s ++ rest) ≡ split_from sep (cur ++ s) rest
  unfolding split_from
  split_from-append cur [] rest h = ap (λ t. split_from sep t rest) (sym (append-nil cur))
  split_from-append cur (c ∷ s) rest (e, h) = rw e (
      split_from-append (cur ++ c ∷ []) s rest h
      ∙ ap (λ t. split_from sep t rest) (append_assoc cur (c ∷ []) s))

  -- What was joined is split again, where no part has the separator.
  pub split-join :
      (s : Text) (ss : List Text)
      → IsPlain s
      → All IsPlain ss
      → split sep (join (sep ∷ []) (s ∷ ss)) ≡ s ∷ ss
  unfolding split join split_from
  split-join s [] h hs = ap (split_from sep []) (sym (append-nil s)) ∙ split_from-append [] s [] h
  split-join s (t ∷ ss) h (ht, hs) =
      split_from-append [] s (sep ∷ join (sep ∷ []) (t ∷ ss)) h
      ∙ rw (==_refl sep) (ap (λ ts. s ∷ ts) (split-join t ss ht hs))

  split_from-IsPlain : (cur s : Text) → IsPlain cur → All IsPlain (split_from sep cur s)
  unfolding split_from
  split_from-IsPlain cur [] h = (h, tt)
  split_from-IsPlain cur (c ∷ s) h = elim (Bool-cases (c == sep)) [
    | inl e ↦ rw e (h, split_from-IsPlain [] s tt)
    | inr e ↦ rw e (
        split_from-IsPlain (cur ++ c ∷ []) s
          (All-append (λ d. (d == sep) ≡ false) cur (c ∷ []) h (e, tt)))
  ]

  -- No part that was split off has the separator.
  pub split-IsPlain : (s : Text) → All IsPlain (split sep s)
  unfolding split
  split-IsPlain s = split_from-IsPlain [] s tt
