-- ===== src/Public/Order.antt =====
-- The order of the public list, and what a cursor leaves of an ordered list.
use open_blog.Base.{
  ℕ, ◌<◌, ◌≡◌, ◌≢◌, refl, arith, Bool, true, false, Option, none, some, List, [], ◌∷◌, ◌++◌, All,
  select,
}
use open_blog.Base.Sorting.{IsOrder, IsOrdered, Distinct}
use open_blog.Store.Rows.{Post}
use open_blog.Public.Codec.{Cursor}
use open_blog.Public.CodecLaws.{year_10000}
use open_blog.Public.Pages.{order_desc, newer, before_cursor}

order_desc_total :
    (x : Option ℕ) (i : ℕ) (y : Option ℕ) (j : ℕ)
    → order_desc x i y j ≡ false
    → order_desc y j x i ≡ true
order_desc_total none i none j h = ground arith
order_desc_total none i (some t) j h = cc
order_desc_total (some s) i none j h = refl
order_desc_total (some s) i (some t) j h = ground arith

order_desc_trans :
    (x : Option ℕ) (i : ℕ) (y : Option ℕ) (j : ℕ) (z : Option ℕ) (k : ℕ)
    → order_desc x i y j ≡ true
    → order_desc y j z k ≡ true
    → order_desc x i z k ≡ true
order_desc_trans none i none j none k p q = ground arith
order_desc_trans none i none j (some u) k p q = refl
order_desc_trans none i (some t) j none k p q = cc
order_desc_trans none i (some t) j (some u) k p q = refl
order_desc_trans (some s) i none j z k p q = cc
order_desc_trans (some s) i (some t) j none k p q = cc
order_desc_trans (some s) i (some t) j (some u) k p q = ground arith

pub newer-IsOrder : IsOrder newer
newer-IsOrder = record {
  total = λ p q h. order_desc_total p.published_at p.id q.published_at q.id h;
  before_trans =
      λ p q r h k. order_desc_trans p.published_at p.id q.published_at q.id r.published_at r.id h k;
}

-- A post with an id and with a time of publication that a cursor can hold.
abbrev pub IsDated : Post → Type 0
IsDated p = (t : ℕ) × (p.published_at ≡ some t) × (t ≢ 0) × (t < year_10000) × (p.id ≢ 0)

abbrev pub cursor_of : (t : ℕ) → Post → Cursor
cursor_of t p = record { published_at = t; id = p.id }

before-below :
    (t : ℕ) (i : ℕ) (y : Option ℕ) (j : ℕ)
    → order_desc (some t) i y j ≡ true
    → i ≢ j
    → (u : ℕ) → y ≡ some u
    → before_cursor (record { published_at = t; id = i }) y j ≡ true
before-below t i none j h ne u e = cc
before-below t i (some v) j h ne u e = ground arith

above-below :
    (t : ℕ) (i : ℕ) (y : Option ℕ) (j : ℕ)
    → order_desc y j (some t) i ≡ true
    → before_cursor (record { published_at = t; id = i }) y j ≡ false
above-below t i none j h = refl
above-below t i (some v) j h = ground arith

pub All-middle :
    (P : Post → Type 0) (xs : List Post) (x : Post) (ys : List Post) → All P (xs ++ x ∷ ys) → P x
All-middle P [] x ys h = h.0
All-middle P (z ∷ xs) x ys h = All-middle P xs x ys h.1

module _ (x : Post) (t : ℕ) (dated : x.published_at ≡ some t) where
  abbrev is_after : Post → Bool
  is_after p = before_cursor (cursor_of t x) p.published_at p.id

  select-rest :
      (ys : List Post)
      → All (λ y. newer x y ≡ true) ys
      → All (λ y. x.id ≢ y.id) ys
      → All IsDated ys
      → select is_after ys ≡ ys
  select-rest [] h ne d = refl
  select-rest (y ∷ ys) (h, hs) (ne, nes) ((u, e, z, b, i), ds) =
      rw (before-below t x.id y.published_at y.id (rw dated at h) ne u e, select-rest ys hs nes ds)

  not-after : (z : Post) → newer z x ≡ true → is_after z ≡ false
  not-after z h = above-below t x.id z.published_at z.id (rw dated at h)

  -- In an ordered list the cursor of a post leaves exactly what stands after it.
  pub select-IsRest :
      (xs ys : List Post)
      → IsOrdered newer (xs ++ x ∷ ys)
      → Distinct (λ p. p.id) (xs ++ x ∷ ys)
      → All IsDated (xs ++ x ∷ ys)
      → select is_after (xs ++ x ∷ ys) ≡ ys
  select-IsRest [] ys (h, hs) (ne, nes) (d, ds) =
      let e : is_after x ≡ false = rw dated (ground arith) in rw e (select-rest ys h ne ds)
  select-IsRest (z ∷ xs) ys (p, h) (ne, nes) (d, ds) =
      rw (not-after z (All-middle (λ y. newer z y ≡ true) xs x ys p)) (select-IsRest xs ys h nes ds)
