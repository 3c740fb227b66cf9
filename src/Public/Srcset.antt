-- ===== src/Public/Srcset.antt =====
-- internal/publicapi/srcset.go. The entries of the JSON object come in some order, as Go's map does.
use open_blog.Base.{
  Bool, true, false, not, ◌&&◌, ◌||◌, ◌==◌, nat_eq, text_eq_instance, Option, none, some, List, [],
  ◌∷◌, ◌++◌, map, if◌then◌else◌, ltb, Text, codes, has_prefix, trim_left, sort_by,
}
use open_blog.Base.Int.{ℤ, lt_int, is_positive, int_text, atoi}
use open_blog.Public.Codec.{VariantEnt, PublicExternal}
use open_blog.Public.Response.{ImageItem}

-- The order of Go's strings, which on UTF-8 is that of the code points.
unfoldable pub lt_text : Text → Text → Bool
lt_text s [] = false
lt_text [] (d ∷ t) = true
lt_text (c ∷ s) (d ∷ t) = ltb c d || (c == d && lt_text s t)

-- `kv`.
pub record Candidate : Type 0 where
  pub width : ℤ
  pub ent : VariantEnt

abbrev eq_int : ℤ → ℤ → Bool
eq_int a b = not (lt_int a b) && not (lt_int b a)

-- The comparison of `sort.Slice`.
abbrev pub less : (width : ℤ) (url : Text) (width' : ℤ) (url' : Text) → Bool
less w u w' u' = if not (eq_int w w') then lt_int w w' else lt_text u u'

abbrev pub before : Candidate → Candidate → Bool
before a b = not (less b.width b.ent.url a.width a.ent.url)

abbrev pub with_width : VariantEnt → Option ℤ → List Candidate → List Candidate
with_width e none rest = rest
with_width e (some w) rest =
    if e.url == []
    then rest
    else record { width = if is_positive e.width then e.width else w; ent = e } ∷ rest

unfoldable pub candidates : List (Text × VariantEnt) → List Candidate
unfolding atoi
candidates [] = []
candidates ((label, e) ∷ m) = with_width e (atoi label) (candidates m)

unfoldable pub resolve_url : (media_origin u : Text) → Text
resolve_url media_origin u =
    if (u == [] || has_prefix (codes "/") u) && not (media_origin == [])
    then media_origin ++ b'/' ∷ trim_left (λ c. c == b'/') u
    else u

abbrev pub srcset_entry : (media_origin : Text) → Candidate → Text
srcset_entry origin p = resolve_url origin p.ent.url ++ (b' ' ∷ (int_text p.width ++ b'w' ∷ []))

abbrev pub last {ℓ} : {A : Type ℓ} → A → List A → A
last a [] = a
last a (b ∷ bs) = last b bs

abbrev pub item_of : (media_origin : Text) → List Candidate → Option ImageItem
item_of origin [] = none
item_of origin (p ∷ ps) =
    let primary : Candidate = last p ps in
    some (record {
      url = resolve_url origin primary.ent.url;
      width = primary.width;
      height = primary.ent.height;
      srcset = map (srcset_entry origin) (p ∷ ps);
    })

abbrev pub image_of : (media_origin : Text) → Option (List (Text × VariantEnt)) → Option ImageItem
image_of origin none = none
image_of origin (some m) = item_of origin (sort_by before (candidates m))

-- `imageFromVariants`: without a text, entries or a candidate there is no image.
unfoldable pub image_from_variants : PublicExternal → (raw media_origin : Text) → Option ImageItem
unfolding candidates resolve_url lt_text
image_from_variants ext raw origin =
    if raw == [] then none else image_of origin (ext.variants_of raw)
