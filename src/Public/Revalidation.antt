-- ===== src/Public/Revalidation.antt =====
-- `If-None-Match`: an entity tag that was sent is recognised when it comes back.
use mathlib.Core.List.{reverse-append, reverse-reverse, append-nil, append_assoc}
use open_blog.Base.{
  ℕ, ◌≡◌, ◌≢◌, refl, sym, ap, ◌∙◌, arith, Bool, true, false, not, ◌&&◌, ◌||◌, ◌==◌, nat_eq,
  text_eq_instance, text_eq_iff, Option, none, some, List, [], ◌∷◌, ◌++◌, reverse, if◌then◌else◌,
  All, All-reverse, All-append, any, Text, codes, split, split_from, trim, trim_left, trim_right,
  trim_space, trim_prefix, has_prefix, is_space, is_digit, leb, ==_refl, Bool-cases, inl, inr,
}
use open_blog.Public.Response.{quoted, etag_matches, is_quote}

-- A digit of a hexadecimal text in lower case.
abbrev pub is_hex : ℕ → Bool
is_hex c = is_digit c || (leb b'a' c && leb c b'f')

abbrev pub IsHex : Text → Type 0
IsHex s = All (λ c. is_hex c ≡ true) s

All-imp : (P Q : ℕ → Type 0) → ((c : ℕ) → P c → Q c) → (s : Text) → All P s → All Q s
All-imp P Q f [] h = tt
All-imp P Q f (c ∷ s) (p, h) = (f c p, All-imp P Q f s h)

trim_left-plain : (p : ℕ → Bool) (s : Text) → All (λ c. p c ≡ false) s → trim_left p s ≡ s
unfolding trim_left
trim_left-plain p [] h = refl
trim_left-plain p (c ∷ s) (e, h) = rw e

split_from-plain :
    (sep : ℕ) (cur s : Text)
    → All (λ c. (c == sep) ≡ false) s
    → split_from sep cur s ≡ (cur ++ s) ∷ []
unfolding split_from
split_from-plain sep cur [] h = ap (λ t. t ∷ []) (sym (append-nil cur))
split_from-plain sep cur (c ∷ s) (e, h) =
    rw e (split_from-plain sep (cur ++ c ∷ []) s h ∙ ap (λ t. t ∷ []) (append_assoc cur (c ∷ []) s))

hex-not : (c d : ℕ) → is_hex d ≡ false → is_hex c ≡ true → (c == d) ≡ false
hex-not c d h k = ground arith

reverse-quoted : (tag : Text) → reverse (quoted tag) ≡ b'"' ∷ reverse (b'"' ∷ tag)
reverse-quoted tag = reverse-append (b'"' ∷ tag) (b'"' ∷ [])

trim_space-quoted : (tag : Text) → trim_space (quoted tag) ≡ quoted tag
unfolding trim_space trim trim_right trim_left
trim_space-quoted tag =
    rw (reverse-quoted tag) (ap reverse (sym (reverse-quoted tag)) ∙ reverse-reverse (quoted tag))

trim-quoted : (tag : Text) → IsHex tag → tag ≢ [] → trim is_quote (quoted tag) ≡ tag
unfolding trim trim_right trim_left
trim-quoted [] h ne = absurd (ne refl)
trim-quoted (c ∷ tag) (e, h) ne =
    let k : is_quote c ≡ false = hex-not c b'"' refl e in
    rw (k, reverse-append (c ∷ tag) (b'"' ∷ []))
      (ap reverse (
          trim_left-plain is_quote (reverse (c ∷ tag)) (
            All-reverse (λ d. is_quote d ≡ false) (c ∷ tag)
              (All-imp (λ d. is_hex d ≡ true) (λ d. is_quote d ≡ false) (λ d. hex-not d b'"' refl)
                (c ∷ tag) (e, h))))
        ∙ reverse-reverse (c ∷ tag))

-- The quoted tag, as a response carries it, matches.
pub etag_matches-quoted : (tag : Text) → IsHex tag → tag ≢ [] → etag_matches (quoted tag) tag ≡ true
unfolding etag_matches split trim_prefix has_prefix open_blog.Base.text_eq
etag_matches-quoted tag h ne =
    let plain : All (λ c. (c == b',') ≡ false) (quoted tag) = (
      refl,
      All-append (λ c. (c == b',') ≡ false) tag (b'"' ∷ [])
          (All-imp (λ d. is_hex d ≡ true) (λ d. (d == b',') ≡ false) (λ d. hex-not d b',' refl) tag
            h)
          (refl, tt),
    ) in
    rw (
      split_from-plain b',' [] (quoted tag) plain,
      trim_space-quoted tag,
      trim-quoted tag h ne,
      ==_refl tag,
    )
