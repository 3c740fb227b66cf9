-- ===== src/Base/Reordering.antt =====
-- The same members in another order, and sorting by an order that tells all keys apart.
use open_blog.Base.{
  ◌≡◌, refl, sym, ap, ◌∙◌, arith, Bool, true, false, List, [], ◌∷◌, map, Bool-cases, inl, inr,
  insert_by, sort_by,
}
use open_blog.Base.Sorting.{IsOrder}

module _ {ℓ} {A : Type ℓ} where
  pub data Reordered : List A → List A → Type ℓ where
    same : (xs : List A) → Reordered xs xs
    keep : {xs ys : List A} (x : A) → Reordered xs ys → Reordered (x ∷ xs) (x ∷ ys)
    swap : (x y : A) (xs : List A) → Reordered (x ∷ y ∷ xs) (y ∷ x ∷ xs)
    join : {xs ys zs : List A} → Reordered xs ys → Reordered ys zs → Reordered xs zs

  module _ (before : A → A → Bool) (o : IsOrder before)
      (antisym : (a b : A) → before a b ≡ true → before b a ≡ true → a ≡ b) where
    insert_by-swap_strict :
        (a b : A) (cs : List A)
        → before a b ≡ true
        → before b a ≡ false
        → insert_by before a (insert_by before b cs) ≡ insert_by before b (insert_by before a cs)
    insert_by-swap_strict a b [] e f = rw (e, f)
    insert_by-swap_strict a b (c ∷ cs) e f =
        ground (arith, o.before_trans a b c, insert_by-swap_strict a b cs)

    insert_by-swap :
        (a b : A) (cs : List A)
        → insert_by before a (insert_by before b cs) ≡ insert_by before b (insert_by before a cs)
    insert_by-swap a b cs = elim (Bool-cases (before a b)) [
      | inl e ↦ elim (Bool-cases (before b a)) [
        | inl f ↦
            let k : a ≡ b = antisym a b e f in
            ap (λ x. insert_by before a (insert_by before x cs)) (sym k)
            ∙ ap (λ x. insert_by before x (insert_by before a cs)) k
        | inr f ↦ insert_by-swap_strict a b cs e f
      ]
      | inr e ↦ sym (insert_by-swap_strict b a cs (o.total a b e) e)
    ]

    pub sort_by-Reordered :
        {xs ys : List A} → Reordered xs ys → sort_by before xs ≡ sort_by before ys
    sort_by-Reordered (same xs) = refl
    sort_by-Reordered (keep x r) = ap (insert_by before x) (sort_by-Reordered r)
    sort_by-Reordered (swap x y xs) = insert_by-swap x y (sort_by before xs)
    sort_by-Reordered (join r q) = sort_by-Reordered r ∙ sort_by-Reordered q

-- To sort and then to take the keys is to take the keys and then to sort.
module _ {ℓ κ} {A : Type ℓ} {K : Type κ} (f : A → K) (before : K → K → Bool) where
  map-insert_by :
      (a : A) (bs : List A)
      → map f (insert_by (λ x y. before (f x) (f y)) a bs) ≡ insert_by before (f a) (map f bs)
  map-insert_by a [] = refl
  map-insert_by a (b ∷ bs) = elim (Bool-cases (before (f a) (f b))) [
    | inl e ↦ rw e
    | inr e ↦ rw e (ap (λ cs. f b ∷ cs) (map-insert_by a bs))
  ]

  pub map-sort_by :
      (xs : List A) → map f (sort_by (λ x y. before (f x) (f y)) xs) ≡ sort_by before (map f xs)
  map-sort_by [] = refl
  map-sort_by (x ∷ xs) =
      map-insert_by x (sort_by (λ x y. before (f x) (f y)) xs)
      ∙ ap (insert_by before (f x)) (map-sort_by xs)

  pub map-Reordered : {xs ys : List A} → Reordered xs ys → Reordered (map f xs) (map f ys)
  map-Reordered (same xs) = same (map f xs)
  map-Reordered (keep x r) = keep (f x) (map-Reordered r)
  map-Reordered (swap x y xs) = swap (f x) (f y) (map f xs)
  map-Reordered (join r q) = join (map-Reordered r) (map-Reordered q)
