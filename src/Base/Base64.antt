-- ===== src/Base/Base64.antt =====
-- `base64.RawURLEncoding` of Go's encoding/base64, over bytes: no padding, and the decoder passes over
-- line breaks and takes left-over bits as they come.
use open_blog.Base.{
  ℕ, ◌+◌, ◌-◌, ◌*◌, ◌/◌, ◌%◌, ◌<◌, ◌≡◌, refl, arith, Bool, true, not, ◌||◌, ◌==◌, nat_eq, Option,
  none, some, List, [], ◌∷◌, if◌then◌else◌, ltb, is_upper, is_lower, is_digit, All, select, Text,
}

abbrev pub Bytes : Type 0
Bytes = List ℕ

abbrev pub IsBytes : Bytes → Type 0
IsBytes bs = All (λ b. b < 256) bs

-- The digit of a number below 64.
unfoldable pub b64_digit : ℕ → ℕ
b64_digit n =
    if ltb n 26
    then n + 65
    else if ltb n 52
    then n + 71
    else if ltb n 62
    then n - 4
    else if n == 62
    then b'-'
    else b'_'

unfoldable pub b64_value : ℕ → Option ℕ
b64_value c =
    if is_upper c
    then some (c - 65)
    else if is_lower c
    then some (c - 71)
    else if is_digit c
    then some (c + 4)
    else if c == b'-'
    then some 62
    else if c == b'_'
    then some 63
    else none

unfoldable pub encode_base64 : Bytes → Text
unfolding b64_digit
encode_base64 [] = []
encode_base64 (a ∷ []) = b64_digit (a / 4) ∷ b64_digit (a % 4 * 16) ∷ []
encode_base64 (a ∷ b ∷ []) =
    b64_digit (a / 4) ∷ b64_digit (a % 4 * 16 + b / 16) ∷ b64_digit (b % 16 * 4) ∷ []
encode_base64 (a ∷ b ∷ c ∷ bs) =
    b64_digit (a / 4)
    ∷ b64_digit (a % 4 * 16 + b / 16)
    ∷ b64_digit (b % 16 * 4 + c / 64)
    ∷ b64_digit (c % 64)
    ∷ encode_base64 bs

abbrev pub and_then {ℓ κ} : {A : Type ℓ} {B : Type κ} → Option A → (A → Option B) → Option B
and_then none f = none
and_then (some a) f = f a

abbrev pub quad : (p q r s : ℕ) → Bytes → Bytes
quad p q r s bs = (p * 4 + q / 16) ∷ (q % 16 * 16 + r / 4) ∷ (r % 4 * 64 + s) ∷ bs

-- One digit alone is an error; two and three are the last quantum.
unfoldable pub decode_quads : Text → Option Bytes
unfolding b64_value
decode_quads [] = some []
decode_quads (p ∷ []) = none
decode_quads (p ∷ q ∷ []) =
    and_then (b64_value p) λ a. and_then (b64_value q) λ b. some ((a * 4 + b / 16) ∷ [])
decode_quads (p ∷ q ∷ r ∷ []) = and_then (b64_value p) λ a.
    and_then (b64_value q)
      λ b. and_then (b64_value r) λ c. some ((a * 4 + b / 16) ∷ (b % 16 * 16 + c / 4) ∷ [])
decode_quads (p ∷ q ∷ r ∷ s ∷ cs) =
    let rest = decode_quads cs in
    and_then (b64_value p) λ a. and_then (b64_value q) λ b.
      and_then (b64_value r)
        λ c. and_then (b64_value s) λ d. and_then rest λ bs. some (quad a b c d bs)

abbrev is_line_break : ℕ → Bool
is_line_break c = c == 10 || c == 13

unfoldable pub decode_base64 : Text → Option Bytes
unfolding decode_quads
decode_base64 s = decode_quads (select (λ c. not (is_line_break c)) s)

value-digit : (n : ℕ) → n < 64 → b64_value (b64_digit n) ≡ some n
unfolding b64_value b64_digit
value-digit n h = ground arith

plain-digit : (n : ℕ) → n < 64 → is_line_break (b64_digit n) ≡ not true
unfolding b64_digit
plain-digit n h = ground arith

-- A digit is no line break.
select-encode :
    (bs : Bytes)
    → IsBytes bs
    → select (λ c. not (is_line_break c)) (encode_base64 bs) ≡ encode_base64 bs
unfolding encode_base64
select-encode [] h = refl
select-encode (a ∷ []) (ha, h) =
    rw (plain-digit (a / 4) (omega arith), plain-digit (a % 4 * 16) (omega arith))
select-encode (a ∷ b ∷ []) (ha, (hb, h)) = rw (
  plain-digit (a / 4) (omega arith),
  plain-digit (a % 4 * 16 + b / 16) (omega arith),
  plain-digit (b % 16 * 4) (omega arith),
)
select-encode (a ∷ b ∷ c ∷ bs) (ha, (hb, (hc, h))) = rw (
  plain-digit (a / 4) (omega arith),
  plain-digit (a % 4 * 16 + b / 16) (omega arith),
  plain-digit (b % 16 * 4 + c / 64) (omega arith),
  plain-digit (c % 64) (omega arith),
  select-encode bs h,
)

quads-encode : (bs : Bytes) → IsBytes bs → decode_quads (encode_base64 bs) ≡ some bs
unfolding encode_base64 decode_quads
quads-encode [] h = refl
quads-encode (a ∷ []) (ha, h) =
    rw (value-digit (a / 4) (omega arith), value-digit (a % 4 * 16) (omega arith)) (ground arith)
quads-encode (a ∷ b ∷ []) (ha, (hb, h)) =
    rw
      (
        value-digit (a / 4) (omega arith),
        value-digit (a % 4 * 16 + b / 16) (omega arith),
        value-digit (b % 16 * 4) (omega arith),
      )
      (ground arith)
quads-encode (a ∷ b ∷ c ∷ bs) (ha, (hb, (hc, h))) =
    rw
      (
        value-digit (a / 4) (omega arith),
        value-digit (a % 4 * 16 + b / 16) (omega arith),
        value-digit (b % 16 * 4 + c / 64) (omega arith),
        value-digit (c % 64) (omega arith),
        quads-encode bs h,
      )
      (ground arith)

-- Bytes are decoded from what they are encoded to.
pub decode_base64-encode_base64 :
    (bs : Bytes) → IsBytes bs → decode_base64 (encode_base64 bs) ≡ some bs
unfolding decode_base64
decode_base64-encode_base64 bs h = rw (select-encode bs h) (quads-encode bs h)
