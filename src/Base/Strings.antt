-- ===== src/Base/Strings.antt =====
-- The parts of Go's `strings` and `strconv` that the program uses, over code points.
use Prim.Native.Nat.{ℕ, zero, suc, ◌+◌, ◌/◌, ◌%◌}
use Prim.Native.Char.{code}
use Prim.Native.String.{String}
use mathlib.Core.Bool.{Bool, true, false, ◌&&◌, ◌||◌}
use mathlib.Core.List.{List, [], ◌∷◌, ◌++◌, map, reverse}
use open_blog.Base.Tests.{ltb, leb, if◌then◌else◌}
use open_blog.Base.Equality.{◌==◌, Text, nat_eq, text_eq_instance}
use open_blog.Base.Lists.{length, drop}

-- The code points of a literal. `String` has its own `[]` and `∷`.
abbrev pub codes : String → Text
codes String.[] = []
codes (String.◌∷◌ c s) = code c ∷ codes s

abbrev pub is_digit : ℕ → Bool
is_digit c = leb b'0' c && leb c b'9'

abbrev pub is_lower : ℕ → Bool
is_lower c = leb b'a' c && leb c b'z'

abbrev pub is_upper : ℕ → Bool
is_upper c = leb b'A' c && leb c b'Z'

-- `strings.HasPrefix`.
unfoldable pub has_prefix : Text → Text → Bool
has_prefix [] s = true
has_prefix (c ∷ p) [] = false
has_prefix (c ∷ p) (d ∷ s) = c == d && has_prefix p s

-- `strings.TrimPrefix`.
unfoldable pub trim_prefix : Text → Text → Text
unfolding has_prefix
trim_prefix p s = if has_prefix p s then drop (length p) s else s

-- `strings.TrimLeftFunc`: without the leading code points that pass the test.
unfoldable pub trim_left : (ℕ → Bool) → Text → Text
trim_left p [] = []
trim_left p (c ∷ s) = let rest = trim_left p s in if p c then rest else c ∷ s

-- `strings.TrimRightFunc`.
unfoldable pub trim_right : (ℕ → Bool) → Text → Text
unfolding trim_left
trim_right p s = reverse (trim_left p (reverse s))

-- `strings.TrimFunc`.
unfoldable pub trim : (ℕ → Bool) → Text → Text
unfolding trim_left trim_right
trim p s = trim_right p (trim_left p s)

-- The white space of `unicode.IsSpace`.
abbrev pub is_space : ℕ → Bool
is_space c =
    (leb 9 c && leb c 13)
    || c == 32
    || c == 0x85
    || c == 0xa0
    || c == 0x1680
    || (leb 0x2000 c && leb c 0x200a)
    || c == 0x2028
    || c == 0x2029
    || c == 0x202f
    || c == 0x205f
    || c == 0x3000

-- `strings.TrimSpace`.
unfoldable pub trim_space : Text → Text
unfolding trim
trim_space s = trim is_space s

-- `strings.Split` at a separator of one code point: `cur` holds the piece so far.
unfoldable pub split_from : ℕ → Text → Text → List Text
split_from sep cur [] = cur ∷ []
split_from sep cur (c ∷ s) =
    let closed = cur ∷ split_from sep [] s in
    let longer = split_from sep (cur ++ c ∷ []) s in if c == sep then closed else longer

unfoldable pub split : ℕ → Text → List Text
unfolding split_from
split sep s = split_from sep [] s

-- `strings.Join`.
unfoldable pub join : Text → List Text → Text
join sep [] = []
join sep (s ∷ []) = s
join sep (s ∷ t ∷ ss) = s ++ (sep ++ join sep (t ∷ ss))

-- The decimal digits of a number, by fuel; a number is shorter in digits than its value plus one.
unfoldable pub digits_from : ℕ → ℕ → Text → Text
digits_from zero n acc = acc
digits_from (suc f) n acc =
    let more = digits_from f (n / 10) ((b'0' + n % 10) ∷ acc) in
    if ltb n 10 then (b'0' + n) ∷ acc else more

-- `strconv.Itoa` and the verb `%d`.
unfoldable pub itoa : ℕ → Text
unfolding digits_from
itoa n = digits_from (suc n) n []

-- `strings.ToLower` over a table for the code points above ASCII.
unfoldable pub lower_rune : (ℕ → ℕ) → ℕ → ℕ
lower_rune table c = if ltb c 128 then (if is_upper c then c + 32 else c) else table c

unfoldable pub to_lower : (ℕ → ℕ) → Text → Text
unfolding lower_rune
to_lower table s = map (lower_rune table) s

-- `strings.EqualFold` against a text of ASCII letters in lower case: the code points that fold to an
-- ASCII letter are its upper case, and the long s and the Kelvin sign.
unfoldable pub fold_rune : ℕ → ℕ
fold_rune c =
    if is_upper c then c + 32 else if c == 0x17f then b's' else if c == 0x212a then b'k' else c

unfoldable pub folds_to : Text → Text → Bool
unfolding fold_rune
folds_to s ascii = map fold_rune s == ascii

-- `len` of a Go string: the bytes of its UTF-8.
abbrev pub rune_len : ℕ → ℕ
rune_len c = if ltb c 0x80 then 1 else if ltb c 0x800 then 2 else if ltb c 0x10000 then 3 else 4

unfoldable pub byte_len : Text → ℕ
byte_len [] = 0
byte_len (c ∷ s) = rune_len c + byte_len s
