-- ===== src/Public/CodecLaws.antt =====
-- A cursor survives its text.
use open_blog.Base.{
  ℕ, ◌<◌, ◌≡◌, ◌≢◌, refl, arith, false, ◌==◌, text_eq, text_eq_instance, some, [], ◌∷◌,
}
use open_blog.Base.Base64.{IsBytes, Bytes, encode_base64, decode_base64-encode_base64}
use open_blog.Public.Codec.{Cursor, PublicExternal, encode_cursor, decode_cursor}

-- The nanoseconds from the zero time to the year 10000, where RFC 3339 ends.
abbrev pub year_10000 : ℕ
year_10000 = 315_537_897_600_000_000_000

-- What the program relies on of encoding/json, of a cursor before the year 10000: it becomes bytes that
-- are not empty, and is read back from them.
pub record IsCodec (ext : PublicExternal) : Type 0 where
  pub bytes : (c : Cursor) → c.published_at < year_10000 → IsBytes (ext.marshal_cursor c)
  pub parsed :
      (c : Cursor)
      → c.published_at < year_10000
      → ext.unmarshal_cursor (ext.marshal_cursor c) ≡ some c
  pub filled : (c : Cursor) → c.published_at < year_10000 → ext.marshal_cursor c ≢ []

pub decode_cursor-encode_cursor :
    (ext : PublicExternal)
    → IsCodec ext
    → (c : Cursor) → c.published_at ≢ 0
    → c.published_at < year_10000
    → c.id ≢ 0
    → decode_cursor ext (encode_cursor ext c) ≡ some c
unfolding decode_cursor encode_cursor
decode_cursor-encode_cursor ext codec c dated bound named =
    rw
      (
        decode_base64-encode_base64 (ext.marshal_cursor c) (codec.bytes c bound),
        codec.parsed c bound,
      )
      (ground arith)

encode_base64-filled : (b : Bytes) → b ≢ [] → (encode_base64 b == []) ≡ false
unfolding encode_base64 text_eq
encode_base64-filled [] h = absurd (h refl)
encode_base64-filled (a ∷ []) h = refl
encode_base64-filled (a ∷ b ∷ []) h = refl
encode_base64-filled (a ∷ b ∷ c ∷ d) h = refl

pub encode_cursor-filled :
    (ext : PublicExternal)
    → IsCodec ext
    → (c : Cursor) → c.published_at < year_10000
    → (encode_cursor ext c == []) ≡ false
unfolding encode_cursor
encode_cursor-filled ext codec c bound =
    encode_base64-filled (ext.marshal_cursor c) (codec.filled c bound)
