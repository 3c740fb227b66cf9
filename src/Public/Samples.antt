-- ===== src/Public/Samples.antt =====
-- A codec of cursors and a digest for the examples, which meet what is relied on.
use open_blog.Base.{
  ℕ, zero, suc, ◌+◌, ◌*◌, ◌/◌, ◌%◌, ◌≤◌, ◌≡◌, ◌≢◌, refl, arith, ◌==◌, nat_eq, Option, none, some,
  [], ◌∷◌, if◌then◌else◌, codes, text_eq_instance,
}
use open_blog.Base.Base64.{Bytes, IsBytes}
use open_blog.Public.Codec.{Cursor, PublicExternal}
use open_blog.Public.CodecLaws.{IsCodec}
use open_blog.Public.Conditional.{IsDigest}

-- The bytes of a number, the lowest first; the number is fuel enough.
unfoldable pub number_bytes : (fuel : ℕ) → ℕ → Bytes
number_bytes zero n = []
number_bytes (suc f) n =
    let rest = number_bytes f (n / 256) in if n == 0 then [] else n % 256 ∷ rest

unfoldable pub of_number_bytes : Bytes → ℕ
of_number_bytes [] = 0
of_number_bytes (b ∷ bs) = b + 256 * of_number_bytes bs

number-bytes : (f n : ℕ) → n ≤ f → of_number_bytes (number_bytes f n) ≡ n
unfolding number_bytes of_number_bytes
number-bytes zero n h = omega arith
number-bytes (suc f) n h = ground (arith, number-bytes f (n / 256))

number_bytes-IsBytes : (f n : ℕ) → IsBytes (number_bytes f n)
unfolding number_bytes
number_bytes-IsBytes zero n = tt
number_bytes-IsBytes (suc f) n = ground (arith, number_bytes-IsBytes f (n / 256))

-- Each byte behind a 1, and a 0 at the end.
unfoldable pub tagged : Bytes → Bytes → Bytes
tagged [] rest = 0 ∷ rest
tagged (b ∷ bs) rest = 1 ∷ b ∷ tagged bs rest

unfoldable pub untagged : (bs : Bytes) → Bytes × Bytes
untagged [] = ([], [])
untagged (t ∷ []) = ([], [])
untagged (t ∷ b ∷ bs) =
    let (front, rest) = untagged bs in if t == 0 then ([], b ∷ bs) else (b ∷ front, rest)

untagged-tagged : (bs rest : Bytes) → untagged (tagged bs rest) ≡ (bs, rest)
unfolding tagged untagged
untagged-tagged [] [] = refl
untagged-tagged [] (r ∷ rs) = refl
untagged-tagged (b ∷ bs) rest = rw (untagged-tagged bs rest)

tagged-IsBytes : (bs rest : Bytes) → IsBytes bs → IsBytes rest → IsBytes (tagged bs rest)
unfolding tagged
tagged-IsBytes [] rest h k = (omega arith, k)
tagged-IsBytes (b ∷ bs) rest (p, h) k = (omega arith, (p, tagged-IsBytes bs rest h k))

tagged-filled : (bs rest : Bytes) → tagged bs rest ≢ []
unfolding tagged
tagged-filled [] rest e = cc
tagged-filled (b ∷ bs) rest e = cc

abbrev sample_marshal : Cursor → Bytes
sample_marshal c = tagged (number_bytes c.published_at c.published_at) (number_bytes c.id c.id)

abbrev sample_unmarshal : Bytes → Option Cursor
sample_unmarshal bs =
    let (front, rest) = untagged bs in
    some (record { published_at = of_number_bytes front; id = of_number_bytes rest })

-- A tag is in the metadata where they are the same text, and an image has one variant.
abbrev pub sample_public : PublicExternal
sample_public = record {
  marshal_cursor = sample_marshal;
  unmarshal_cursor = sample_unmarshal;
  sha256_hex = λ s. codes "ab12";
  contains_tag = λ metadata tag. metadata == tag;
  variants_of = λ raw. none;
  unix_nano = λ t. t ∷ [];
}

sample-parsed : (c : Cursor) → sample_unmarshal (sample_marshal c) ≡ some c
sample-parsed c =
    rw
      (
        untagged-tagged (number_bytes c.published_at c.published_at) (number_bytes c.id c.id),
        number-bytes c.published_at c.published_at (omega arith),
        number-bytes c.id c.id (omega arith),
      )
      refl

pub sample_public-IsCodec : IsCodec sample_public
sample_public-IsCodec = record {
  bytes = λ c h. tagged-IsBytes _ _ (number_bytes-IsBytes _ _) (number_bytes-IsBytes _ _);
  parsed = λ c h. sample-parsed c;
  filled = λ c h. tagged-filled _ _;
}

pub sample_public-IsDigest : IsDigest sample_public
sample_public-IsDigest = record {
  hex = λ s. (refl, (refl, (refl, (refl, tt))));
  filled = λ s e. cc;
}
