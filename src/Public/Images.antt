-- ===== src/Public/Images.antt =====
-- internal/publicapi/srcset.go: the image does not hang on the order in which Go walks its map.
use open_blog.Base.{
  ◌≡◌, refl, sym, ap, ◌∙◌, arith, Bool, true, false, not, ◌==◌, nat_eq, text_eq_instance, Option,
  none, some, List, [], ◌∷◌, ◌++◌, Text, map, sort_by, Bool-cases, inl, inr,
}
use open_blog.Base.Sorting.{IsOrder}
use open_blog.Base.Reordering.{
  Reordered, same, keep, swap, join, sort_by-Reordered, map-sort_by, map-Reordered,
}
use open_blog.Base.Int.{ℤ, pos, negsuc, int_text, atoi}
use open_blog.Public.Codec.{PublicExternal, VariantEnt}
use open_blog.Public.Response.{ImageItem}
use open_blog.Public.Srcset.{
  lt_text, Candidate, less, before, with_width, candidates, resolve_url, srcset_entry, last,
  item_of, image_of, image_from_variants,
}

-- What the sort looks at.
record Key : Type 0 where
  width : ℤ
  url : Text

abbrev key : Candidate → Key
key c = record { width = c.width; url = c.ent.url }

abbrev key_before : Key → Key → Bool
key_before a b = not (less b.width b.url a.width a.url)

lt_text-asym : (s t : Text) → lt_text s t ≡ true → lt_text t s ≡ false
unfolding lt_text
lt_text-asym [] [] h = cc
lt_text-asym [] (d ∷ t) h = refl
lt_text-asym (c ∷ s) [] h = cc
lt_text-asym (c ∷ s) (d ∷ t) h = ground (arith, lt_text-asym s t)

lt_text_trans : (s t u : Text) → lt_text t s ≡ false → lt_text u t ≡ false → lt_text u s ≡ false
unfolding lt_text
lt_text_trans [] t u p q = refl
lt_text_trans (c ∷ s) [] u p q = cc
lt_text_trans (c ∷ s) (d ∷ t) [] p q = cc
lt_text_trans (c ∷ s) (d ∷ t) (e ∷ u) p q = ground (arith, lt_text_trans s t u)

lt_text-antisym : (s t : Text) → lt_text s t ≡ false → lt_text t s ≡ false → s ≡ t
unfolding lt_text
lt_text-antisym [] [] p q = refl
lt_text-antisym [] (d ∷ t) p q = cc
lt_text-antisym (c ∷ s) [] p q = cc
lt_text-antisym (c ∷ s) (d ∷ t) p q = ground (arith, lt_text-antisym s t)

less-asym : (w w' : ℤ) (s t : Text) → less w s w' t ≡ true → less w' t w s ≡ false
less-asym (pos a) (pos b) s t h = ground (arith, lt_text-asym s t)
less-asym (pos a) (negsuc b) s t h = cc
less-asym (negsuc a) (pos b) s t h = refl
less-asym (negsuc a) (negsuc b) s t h = ground (arith, lt_text-asym s t)

less-antisym :
    (w w' : ℤ) (s t : Text) → less w s w' t ≡ false → less w' t w s ≡ false → (w ≡ w') × (s ≡ t)
less-antisym (pos a) (pos b) s t p q = (ground arith, ground (arith, lt_text-antisym s t))
less-antisym (pos a) (negsuc b) s t p q = ((cc), (cc))
less-antisym (negsuc a) (pos b) s t p q = ((cc), (cc))
less-antisym (negsuc a) (negsuc b) s t p q = (ground arith, ground (arith, lt_text-antisym s t))

less_trans :
    (v w x : ℤ) (s t u : Text) → less w t v s ≡ false → less x u w t ≡ false → less x u v s ≡ false
less_trans (pos a) (pos b) (pos c) s t u p q = ground (arith, lt_text_trans s t u)
less_trans (pos a) (pos b) (negsuc c) s t u p q = cc
less_trans (pos a) (negsuc b) x s t u p q = cc
less_trans (negsuc a) (pos b) (pos c) s t u p q = refl
less_trans (negsuc a) (pos b) (negsuc c) s t u p q = cc
less_trans (negsuc a) (negsuc b) (pos c) s t u p q = refl
less_trans (negsuc a) (negsuc b) (negsuc c) s t u p q = ground (arith, lt_text_trans s t u)

not-true : (b : Bool) → not b ≡ true → b ≡ false
not-true true h = cc
not-true false h = refl

not-false : (b : Bool) → not b ≡ false → b ≡ true
not-false true h = refl
not-false false h = cc

total_at : (a b : Key) → key_before a b ≡ false → key_before b a ≡ true
total_at a b h = rw (less-asym b.width a.width b.url a.url (not-false _ h))

trans_at : (a b c : Key) → key_before a b ≡ true → key_before b c ≡ true → key_before a c ≡ true
trans_at a b c p q =
    rw (less_trans a.width b.width c.width a.url b.url c.url (not-true _ p) (not-true _ q))

antisym_at : (a b : Key) → key_before a b ≡ true → key_before b a ≡ true → a ≡ b
antisym_at a b p q =
    let (w, u) = less-antisym a.width b.width a.url b.url (not-true _ q) (not-true _ p) in
    ground (arith, w, u)

key-IsOrder : IsOrder key_before
key-IsOrder = record {
  total = λ a b h. total_at a b h;
  before_trans = λ a b c p q. trans_at a b c p q;
}

with_width-Reordered :
    (e : VariantEnt) (o : Option ℤ) {xs ys : List Candidate}
    → Reordered xs ys
    → Reordered (with_width e o xs) (with_width e o ys)
with_width-Reordered e none r = r
with_width-Reordered e (some w) r = elim (Bool-cases (e.url == [])) [
  | inl h ↦ rw h r
  | inr h ↦ rw h (keep _ r)
]

with_width-swap :
    (e : VariantEnt) (o : Option ℤ) (e' : VariantEnt) (o' : Option ℤ) (xs : List Candidate)
    → Reordered (with_width e o (with_width e' o' xs)) (with_width e' o' (with_width e o xs))
with_width-swap e none e' o' xs = same _
with_width-swap e (some w) e' none xs = same _
with_width-swap e (some w) e' (some w') xs = elim (Bool-cases (e.url == [])) [
  | inl h ↦ rw h (same _)
  | inr h ↦ elim (Bool-cases (e'.url == [])) [
    | inl k ↦ rw (h, k) (same _)
    | inr k ↦ rw (h, k) (swap _ _ xs)
  ]
]

candidates-Reordered :
    {m m' : List (Text × VariantEnt)} → Reordered m m' → Reordered (candidates m) (candidates m')
unfolding candidates
candidates-Reordered (same xs) = same _
candidates-Reordered (keep (label, e) r) =
    with_width-Reordered e (atoi label) (candidates-Reordered r)
candidates-Reordered (swap (label, e) (label', e') xs) =
    with_width-swap e (atoi label) e' (atoi label') (candidates xs)
candidates-Reordered (join r q) = join (candidates-Reordered r) (candidates-Reordered q)

-- An image, its height aside.
abbrev pub without_height : Option ImageItem → Option (Text × ℤ × List Text)
without_height none = none
without_height (some i) = some (i.url, i.width, i.srcset)

key_entry : (origin : Text) → Key → Text
key_entry origin k = resolve_url origin k.url ++ (b' ' ∷ (int_text k.width ++ b'w' ∷ []))

of_keys : (origin : Text) → List Key → Option (Text × ℤ × List Text)
of_keys origin [] = none
of_keys origin (k ∷ ks) =
    some (resolve_url origin (last k ks).url, (last k ks).width, map (key_entry origin) (k ∷ ks))

last-map : (c : Candidate) (cs : List Candidate) → last (key c) (map key cs) ≡ key (last c cs)
last-map c [] = refl
last-map c (d ∷ cs) = last-map d cs

map-key_entry :
    (origin : Text) (cs : List Candidate)
    → map (key_entry origin) (map key cs) ≡ map (srcset_entry origin) cs
unfolding key_entry
map-key_entry origin [] = refl
map-key_entry origin (c ∷ cs) = ap (λ ts. srcset_entry origin c ∷ ts) (map-key_entry origin cs)

item_of-of_keys :
    (origin : Text) (cs : List Candidate)
    → without_height (item_of origin cs) ≡ of_keys origin (map key cs)
unfolding of_keys
item_of-of_keys origin [] = refl
item_of-of_keys origin (c ∷ cs) = rw (last-map c cs, map-key_entry origin (c ∷ cs))

image_of-Reordered :
    (origin : Text) {m m' : List (Text × VariantEnt)}
    → Reordered m m'
    → without_height (image_of origin (some m)) ≡ without_height (image_of origin (some m'))
image_of-Reordered origin {m} {m'} r =
    item_of-of_keys origin (sort_by before (candidates m))
    ∙ ap (of_keys origin) (
        map-sort_by key key_before (candidates m)
        ∙ sort_by-Reordered key_before key-IsOrder antisym_at
            (map-Reordered key key_before (candidates-Reordered r))
        ∙ sym (map-sort_by key key_before (candidates m')))
    ∙ sym (item_of-of_keys origin (sort_by before (candidates m')))

-- In whatever order Go walks the map of an image's variants, the image that a post shows has the same
-- URL, width and srcset.
pub image_from_variants-Reordered :
    (ext ext' : PublicExternal) (raw origin : Text) (m m' : List (Text × VariantEnt))
    → ext.variants_of raw ≡ some m
    → ext'.variants_of raw ≡ some m'
    → Reordered m m'
    → without_height (image_from_variants ext raw origin)
      ≡ without_height (image_from_variants ext' raw origin)
unfolding image_from_variants
image_from_variants-Reordered ext ext' raw origin m m' e e' r = elim (Bool-cases (raw == [])) [
  | inl h ↦ rw h
  | inr h ↦ rw (h, e, e') (image_of-Reordered origin r)
]
