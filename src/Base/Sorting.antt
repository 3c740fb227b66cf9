-- ===== src/Base/Sorting.antt =====
-- Laws of `sort_by` for an order that is total and transitive: the sorted list is in order, and to
-- select and to sort commute.
use open_blog.Base.{
  ℕ, ◌≡◌, refl, sym, ◌∙◌, Bool, true, false, inl, inr, List, [], ◌∷◌, if◌then◌else◌, Bool-cases,
  All, select, insert_by, sort_by, All-select, ◌≢◌, ◌&&◌,
}

module _ {ℓ} {A : Type ℓ} where
  -- No member comes before the one that it stands after.
  abbrev pub IsOrdered : (A → A → Bool) → List A → Type 0
  IsOrdered before [] = Unit
  IsOrdered before (a ∷ bs) = All (λ b. before a b ≡ true) bs × IsOrdered before bs

  pub record IsOrder (before : A → A → Bool) : Type ℓ where
    pub total : (a b : A) → before a b ≡ false → before b a ≡ true
    pub before_trans : (a b c : A) → before a b ≡ true → before b c ≡ true → before a c ≡ true

  module _ (before : A → A → Bool) (o : IsOrder before) where
    All-before :
        (a b : A) (cs : List A)
        → before a b ≡ true
        → All (λ c. before b c ≡ true) cs
        → All (λ c. before a c ≡ true) cs
    All-before a b [] h k = tt
    All-before a b (c ∷ cs) h (p, k) = (o.before_trans a b c h p, All-before a b cs h k)

    All-insert_by :
        (P : A → Type 0) (a : A) (bs : List A) → P a → All P bs → All P (insert_by before a bs)
    All-insert_by P a [] pa h = (pa, tt)
    All-insert_by P a (b ∷ bs) pa (pb, h) = elim (Bool-cases (before a b)) [
      | inl e ↦ rw e (pa, (pb, h))
      | inr e ↦ rw e (pb, All-insert_by P a bs pa h)
    ]

    insert_by-IsOrdered :
        (a : A) (bs : List A) → IsOrdered before bs → IsOrdered before (insert_by before a bs)
    insert_by-IsOrdered a [] h = (tt, tt)
    insert_by-IsOrdered a (b ∷ bs) (p, h) = elim (Bool-cases (before a b)) [
      | inl e ↦ rw e ((e, All-before a b bs e p), (p, h))
      | inr e ↦ rw e (
        All-insert_by (λ c. before b c ≡ true) a bs (o.total a b e) p,
        insert_by-IsOrdered a bs h,
      )
    ]

    pub sort_by-IsOrdered : (xs : List A) → IsOrdered before (sort_by before xs)
    sort_by-IsOrdered [] = tt
    sort_by-IsOrdered (a ∷ bs) = insert_by-IsOrdered a (sort_by before bs) (sort_by-IsOrdered bs)

    insert_by-front :
        (a : A) (bs : List A) → All (λ b. before a b ≡ true) bs → insert_by before a bs ≡ a ∷ bs
    insert_by-front a [] h = refl
    insert_by-front a (b ∷ bs) (p, h) = rw p

    select-insert_by :
        (p : A → Bool) (a : A) (bs : List A)
        → IsOrdered before bs
        → select p (insert_by before a bs)
          ≡ (if p a then insert_by before a (select p bs) else select p bs)
    select-insert_by p a [] h = elim (Bool-cases (p a)) [ inl e ↦ rw e | inr e ↦ rw e ]
    select-insert_by p a (b ∷ bs) (k, h) = elim (Bool-cases (before a b)) [
      | inl e ↦ elim (Bool-cases (p a)) [
        | inl pa ↦ rw (
          e,
          pa,
          insert_by-front a (select p (b ∷ bs))
              (All-select (λ c. before a c ≡ true) p (b ∷ bs) (e, All-before a b bs e k)),
        )
        | inr pa ↦ rw (e, pa)
      ]
      | inr e ↦ elim (Bool-cases (p b)) [
        | inl pb ↦
            rw (e, pb, select-insert_by p a bs h)
              (elim (Bool-cases (p a)) [ inl pa ↦ rw (pa, e) | inr pa ↦ rw pa ])
        | inr pb ↦ rw (e, pb, select-insert_by p a bs h)
      ]
    ]

    -- To select and to sort commute.
    pub select-sort_by :
        (p : A → Bool) (xs : List A) → select p (sort_by before xs) ≡ sort_by before (select p xs)
    select-sort_by p [] = refl
    select-sort_by p (x ∷ xs) =
        select-insert_by p x (sort_by before xs) (sort_by-IsOrdered xs) ∙ elim (Bool-cases (p x)) [
          | inl e ↦ rw (e, select-sort_by p xs)
          | inr e ↦ rw (e, select-sort_by p xs)
        ]

    -- What holds of every member holds of every member of the sorted list.
    pub All-sort_by : (P : A → Type 0) (xs : List A) → All P xs → All P (sort_by before xs)
    All-sort_by P [] h = tt
    All-sort_by P (x ∷ xs) (p, h) = All-insert_by P x (sort_by before xs) p (All-sort_by P xs h)

  -- Two tests, one after the other.
  pub select-&& :
      (p q : A → Bool) (xs : List A) → select (λ x. p x && q x) xs ≡ select q (select p xs)
  select-&& p q [] = refl
  select-&& p q (x ∷ xs) = elim (Bool-cases (p x)) [
    | inl e ↦ rw (e, select-&& p q xs)
    | inr e ↦ rw (e, select-&& p q xs)
  ]

  -- Every member is distinct from every later one, by a measure.
  abbrev pub Distinct : (A → ℕ) → List A → Type 0
  Distinct f [] = Unit
  Distinct f (x ∷ xs) = All (λ y. f x ≢ f y) xs × Distinct f xs

  pub Distinct-select :
      (f : A → ℕ) (p : A → Bool) (xs : List A) → Distinct f xs → Distinct f (select p xs)
  Distinct-select f p [] h = tt
  Distinct-select f p (x ∷ xs) (k, h) = elim (Bool-cases (p x)) [
    | inl e ↦ rw e (All-select (λ y. f x ≢ f y) p xs k, Distinct-select f p xs h)
    | inr e ↦ rw e (Distinct-select f p xs h)
  ]

  module _ (before : A → A → Bool) (o : IsOrder before) (f : A → ℕ) where
    Distinct-insert_by :
        (a : A) (bs : List A)
        → All (λ b. f a ≢ f b) bs
        → Distinct f bs
        → Distinct f (insert_by before a bs)
    Distinct-insert_by a [] k h = (tt, tt)
    Distinct-insert_by a (b ∷ bs) (ne, k) (kb, h) = elim (Bool-cases (before a b)) [
      | inl e ↦ rw e ((ne, k), (kb, h))
      | inr e ↦ rw e (
        All-insert_by before o (λ c. f b ≢ f c) a bs (λ q. ne (sym q)) kb,
        Distinct-insert_by a bs k h,
      )
    ]

    pub Distinct-sort_by : (xs : List A) → Distinct f xs → Distinct f (sort_by before xs)
    Distinct-sort_by [] h = tt
    Distinct-sort_by (x ∷ xs) (k, h) =
        Distinct-insert_by x (sort_by before xs) (All-sort_by before o (λ y. f x ≢ f y) xs k)
          (Distinct-sort_by xs h)
