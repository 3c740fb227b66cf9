-- ===== src/Base/Lists.antt =====
-- Lists measured by native numbers, searched by Boolean tests, and predicates on their members.
use Prim.Native.Nat.{ℕ, zero, suc, ◌+◌, ◌≤◌}
use mathlib.Core.Path.{◌≡◌, refl, ap, ◌∙◌}
use mathlib.Core.Logic.{inl, inr}
use mathlib.Core.Bool.{Bool, true, false, ◌||◌, ◌&&◌}
use mathlib.Core.List.{List, [], ◌∷◌, ◌++◌}
use mathlib.Core.Option.{Option, none, some}
use native.Mathlib.Omega.{arith}
use open_blog.Base.Tests.{if◌then◌else◌, Bool-cases, eq_of_some}
use open_blog.Base.Equality.{HasEq, ◌==◌}

module _ {ℓ} {A : Type ℓ} where
  abbrev pub length : List A → ℕ
  length [] = 0
  length (x ∷ xs) = suc (length xs)

  abbrev pub take : ℕ → List A → List A
  take zero xs = []
  take (suc n) [] = []
  take (suc n) (x ∷ xs) = x ∷ take n xs

  abbrev pub drop : ℕ → List A → List A
  drop zero xs = xs
  drop (suc n) [] = []
  drop (suc n) (x ∷ xs) = drop n xs

  -- Some member passes the test.
  abbrev pub any : (A → Bool) → List A → Bool
  any p [] = false
  any p (x ∷ xs) = p x || any p xs

  -- Every member passes the test.
  abbrev pub all : (A → Bool) → List A → Bool
  all p [] = true
  all p (x ∷ xs) = p x && all p xs

  -- The first member that passes the test.
  abbrev pub find : (A → Bool) → List A → Option A
  find p [] = none
  find p (x ∷ xs) = let rest = find p xs in if p x then some x else rest

  -- The members that pass the test, in order.
  abbrev pub select : (A → Bool) → List A → List A
  select p [] = []
  select p (x ∷ xs) = let rest = select p xs in if p x then x ∷ rest else rest

  -- Each member that passes the test is changed by the function.
  abbrev pub update_where : (A → Bool) → (A → A) → List A → List A
  update_where p f [] = []
  update_where p f (x ∷ xs) = (if p x then f x else x) ∷ update_where p f xs

  abbrev pub All {κ} : (A → Type κ) → List A → Type κ
  All P [] = Unit
  All P (x ∷ xs) = P x × All P xs

module _ {ℓ} {A : Type ℓ} where
  pub length-append : (xs ys : List A) → length (xs ++ ys) ≡ length xs + length ys
  length-append [] ys = omega arith
  length-append (x ∷ xs) ys = omega (arith, length-append xs ys)

  pub length-take-le : (n : ℕ) (xs : List A) → length (take n xs) ≤ n
  length-take-le zero xs = omega arith
  length-take-le (suc n) [] = omega arith
  length-take-le (suc n) (x ∷ xs) = omega (arith, length-take-le n xs)

  pub find_sound : (p : A → Bool) (xs : List A) {x : A} → find p xs ≡ some x → p x ≡ true
  find_sound p [] h = ground arith
  find_sound p (x ∷ xs) {x = y} h = ground (arith, find_sound p xs {x = y})

  -- A search fails only where no member passes.
  pub find-none : (p : A → Bool) (xs : List A) → find p xs ≡ none → any p xs ≡ false
  find-none p [] h = refl
  find-none p (x ∷ xs) h = ground (arith, find-none p xs)

  pub find-any : (p : A → Bool) (xs : List A) {x : A} → find p xs ≡ some x → any p xs ≡ true
  find-any p [] h = ground arith
  find-any p (x ∷ xs) {x = y} h = ground (arith, find-any p xs {x = y})

  -- A change that the test does not see is a change of the member that is found.
  pub find-update_where :
      (p : A → Bool) (f : A → A) (xs : List A) (x : A)
      → ((y : A) → p (f y) ≡ p y)
      → find p xs ≡ some x
      → find p (update_where p f xs) ≡ some (f x)
  find-update_where p f [] x same h = cc
  find-update_where p f (y ∷ ys) x same h = ground (arith, same y, find-update_where p f ys x same)

  -- The same for a change of some of the members that pass, the one that is found among them.
  pub find-update_some :
      (p q : A → Bool) (f : A → A) (xs : List A) (x : A)
      → ((y : A) → p (f y) ≡ p y)
      → ((y : A) → q y ≡ true → p y ≡ true)
      → q x ≡ true
      → find p xs ≡ some x
      → find p (update_where q f xs) ≡ some (f x)
  find-update_some p q f [] x same sub here h = cc
  find-update_some p q f (y ∷ ys) x same sub here h = elim (Bool-cases (p y)) [
    | inl e ↦
        let k : y ≡ x = eq_of_some (rw e at h) in
        rw (ap q k ∙ here, same y, e) (ap (λ z. some (f z)) k)
    | inr e ↦
        let g : q y ≡ false = ground (arith, sub y) in
        rw (g, e) (find-update_some p q f ys x same sub here (rw e at h))
  ]

  module _ {κ} (P : A → Type κ) where
    pub All-append : (xs ys : List A) → All P xs → All P ys → All P (xs ++ ys)
    All-append [] ys h k = k
    All-append (x ∷ xs) ys (p, h) k = (p, All-append xs ys h k)

    pub All-take : (n : ℕ) (xs : List A) → All P xs → All P (take n xs)
    All-take zero xs h = tt
    All-take (suc n) [] h = tt
    All-take (suc n) (x ∷ xs) (p, h) = (p, All-take n xs h)

    pub All-find : (p : A → Bool) (xs : List A) {x : A} → All P xs → find p xs ≡ some x → P x
    All-find p [] h e = absurd (cc)
    All-find p (x ∷ xs) {x = y} (px, h) e = ground (arith, All-find p xs {x = y} h)

    pub All-update_where :
        (p : A → Bool) (f : A → A) (xs : List A)
        → ((x : A) → p x ≡ true → P x → P (f x))
        → All P xs
        → All P (update_where p f xs)
    All-update_where p f [] k h = tt
    All-update_where p f (x ∷ xs) k (px, h) = (ground (arith, k x), All-update_where p f xs k h)

    pub All-select : (p : A → Bool) (xs : List A) → All P xs → All P (select p xs)
    All-select p [] h = tt
    All-select p (x ∷ xs) (px, h) = ground (arith, All-select p xs h)

-- The Boolean membership test.
abbrev pub elem {ℓ} : {A : Type ℓ} ⦃e : HasEq A⦄ → A → List A → Bool
elem a xs = any (λ x. x == a) xs

-- `order by`: a stable insertion sort; `before a b` says that `a` must not stand after `b`.
module _ {ℓ} {A : Type ℓ} where
  abbrev pub insert_by : (A → A → Bool) → A → List A → List A
  insert_by before a [] = a ∷ []
  insert_by before a (b ∷ bs) =
      let rest = b ∷ insert_by before a bs in if before a b then a ∷ b ∷ bs else rest

  abbrev pub sort_by : (A → A → Bool) → List A → List A
  sort_by before [] = []
  sort_by before (a ∷ bs) = insert_by before a (sort_by before bs)
