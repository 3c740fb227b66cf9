-- ===== src/Public/Codec.antt =====
-- internal/publicapi/cursor.go: the cursor of a page and its text. What encoding/json, sha256 and
-- Postgres do is given.
use open_blog.Base.{ℕ, Bool, ◌||◌, ◌==◌, nat_eq, Option, none, some, List, if◌then◌else◌, Text}
use open_blog.Base.Base64.{Bytes, encode_base64, decode_base64}
use open_blog.Base.Int.{ℤ}
use open_blog.Store.Tx.{nil_id}

-- `Cursor`; a time counts from Go's zero time, which is 0.
pub record Cursor : Type 0 where
  pub published_at : ℕ
  pub id : ℕ

-- `variantEnt`.
pub record VariantEnt : Type 0 where
  pub url : Text
  pub width : ℤ
  pub height : ℤ

-- The JSON of a cursor and back, the hexadecimal SHA-256 of a text, jsonb containment of the tag,
-- the variants object with its entries in some order, and the digits of `UnixNano`.
pub record PublicExternal : Type 0 where
  pub marshal_cursor : Cursor → Bytes
  pub unmarshal_cursor : Bytes → Option Cursor
  pub sha256_hex : Text → Text
  pub contains_tag : (metadata tag : Text) → Bool
  pub variants_of : Text → Option (List (Text × VariantEnt))
  pub unix_nano : ℕ → Text

-- A cursor needs a time and an id.
abbrev pub checked_cursor : Option Cursor → Option Cursor
checked_cursor none = none
checked_cursor (some c) = if c.id == nil_id || c.published_at == 0 then none else some c

abbrev of_bytes : (Bytes → Option Cursor) → Option Bytes → Option Cursor
of_bytes f none = none
of_bytes f (some b) = checked_cursor (f b)

module _ (ext : PublicExternal) where
  open ext use {marshal_cursor, unmarshal_cursor}

  unfoldable pub encode_cursor : Cursor → Text
  encode_cursor c = encode_base64 (marshal_cursor c)

  -- `none` is `ErrMalformedCursor`.
  unfoldable pub decode_cursor : Text → Option Cursor
  decode_cursor s = of_bytes unmarshal_cursor (decode_base64 s)
