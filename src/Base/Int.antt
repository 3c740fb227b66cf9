-- ===== src/Base/Int.antt =====
-- Go's signed `int`, over the native numbers, with `strconv.Atoi` and the verb `%d`.
use open_blog.Base.{
  ℕ, zero, suc, ◌+◌, ◌-◌, ◌*◌, ◌^◌, Bool, true, false, ◌==◌, nat_eq, Option, none, some, [], ◌∷◌,
  if◌then◌else◌, ltb, leb, is_digit, all, Text, itoa, digits_from,
}

-- `negsuc n` is -(n + 1).
pub data ℤ : Type 0 where
  pos : ℕ → ℤ
  negsuc : ℕ → ℤ

abbrev pub lt_int : ℤ → ℤ → Bool
lt_int (pos a) (pos b) = ltb a b
lt_int (pos a) (negsuc b) = false
lt_int (negsuc a) (pos b) = true
lt_int (negsuc a) (negsuc b) = ltb b a

abbrev pub is_positive : ℤ → Bool
is_positive a = lt_int (pos 0) a

unfoldable pub int_text : ℤ → Text
unfolding itoa digits_from
int_text (pos n) = itoa n
int_text (negsuc n) = b'-' ∷ itoa (suc n)

abbrev neg : ℕ → ℤ
neg zero = pos 0
neg (suc n) = negsuc n

unfoldable digits_value : ℕ → Text → ℕ
digits_value acc [] = acc
digits_value acc (c ∷ s) = digits_value (acc * 10 + (c - b'0')) s

-- Digits alone, at least one, up to a bound.
unfoldable unsigned : (bound : ℕ) → Text → Option ℕ
unfolding digits_value
unsigned bound [] = none
unsigned bound (c ∷ s) =
    let value : ℕ = digits_value 0 (c ∷ s) in
    if all is_digit (c ∷ s) then (if leb value bound then some value else none) else none

abbrev map_int : (ℕ → ℤ) → Option ℕ → Option ℤ
map_int f none = none
map_int f (some n) = some (f n)

-- A sign and digits, in the range of an int64.
unfoldable pub atoi : Text → Option ℤ
unfolding unsigned
atoi [] = none
atoi (c ∷ s) =
    if c == b'-'
    then map_int neg (unsigned (2 ^ 63) s)
    else map_int pos (unsigned (2 ^ 63 - 1) (if c == b'+' then s else c ∷ s))
