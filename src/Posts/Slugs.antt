-- ===== src/Posts/Slugs.antt =====
-- `deriveSlug` and `uniqueSlug` of service.go.
use open_blog.Base.{
  ℕ, zero, suc, Bool, true, false, ◌||◌, ◌++◌, ◌==◌, nat_eq, text_eq_instance, if◌then◌else◌, [],
  ◌∷◌, Text, codes, is_lower, is_digit, to_lower, trim, ltb, take, length, itoa,
}
use open_blog.Store.Errors.{Error, ok, err}
use open_blog.Store.Tx.{Scope, Read}
use open_blog.Store.Posts.{slug_exists}

-- A code point of `[a-z0-9]`.
abbrev pub slug_char : ℕ → Bool
slug_char c = is_lower c || is_digit c

abbrev pub is_hyphen : ℕ → Bool
is_hyphen c = c == b'-'

-- `nonSlug.ReplaceAllString(s, "-")`: each run of other code points becomes one hyphen; the flag says
-- that the run has begun.
unfoldable pub hyphenate : (in_run : Bool) → Text → Text
hyphenate in_run [] = []
hyphenate in_run (c ∷ s) =
    let kept = c ∷ hyphenate false s in
    let dropped = hyphenate true s in
    if slug_char c then kept else if in_run then dropped else b'-' ∷ dropped

abbrev pub max_slug : ℕ
max_slug = 63

abbrev pub or_post : Text → Text
or_post [] = codes "post"
or_post (c ∷ s) = c ∷ s

abbrev pub capped : Text → Text
capped s = or_post (if ltb max_slug (length s) then trim is_hyphen (take max_slug s) else s)

abbrev pub named : Text → Text
named [] = codes "post"
named (c ∷ s) = capped (c ∷ s)

-- After the replacement every code point is one byte. The table lowers the code points above ASCII.
unfoldable pub derive_slug : (lower_table : ℕ → ℕ) → (title : Text) → Text
unfolding hyphenate
derive_slug lower_table title =
    named (trim is_hyphen (hyphenate false (to_lower lower_table title)))

-- `fmt.Sprintf("%s-%d", base, attempt)`.
unfoldable pub suffixed : Text → (attempt : ℕ) → Text
unfolding itoa
suffixed base attempt = base ++ (b'-' ∷ itoa attempt)

-- The loop of `uniqueSlug`, with the rounds that are left before `attempt > 10000`.
unfoldable pub slug_loop :
    (rounds : ℕ) → Scope → (tenant : ℕ) → (base : Text) → (attempt : ℕ) → (slug : Text) → Read Text
unfolding slug_exists
slug_loop zero s tenant base attempt slug db = elim (slug_exists s tenant slug db) [
  | err e ↦ err e
  | ok exists ↦ if exists then err Error.slug_taken else ok slug
]
slug_loop (suc rounds) s tenant base attempt slug db =
    let rest = slug_loop rounds s tenant base (suc attempt) (suffixed base attempt) db in
    elim (slug_exists s tenant slug db) [
      | err e ↦ err e
      | ok exists ↦ if exists then rest else ok slug
    ]

-- From attempt 2 to attempt 10001, where the loop gives up.
abbrev pub slug_rounds : ℕ
slug_rounds = 9999

unfoldable pub unique_slug :
    (lower_table : ℕ → ℕ) → Scope → (tenant : ℕ) → (desired : Text) → Read Text
unique_slug lower_table s tenant desired db =
    let base : Text = derive_slug lower_table desired in
    slug_loop slug_rounds s tenant base 2 base db
