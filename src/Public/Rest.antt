-- ===== src/Public/Rest.antt =====
-- What one request of the public list reads: the whole list, or what a cursor leaves of it.
use open_blog.Base.{
  ℕ, zero, suc, ◌≤◌, ◌<◌, ◌≡◌, refl, sym, ap, ◌∙◌, arith, true, nat_eq, text_eq_instance, Option,
  none, some, List, [], ◌∷◌, ◌++◌, All, select, sort_by, take, length, Text,
}
use open_blog.Base.Sorting.{IsOrdered, Distinct, sort_by-IsOrdered, select-sort_by, select-&&}
use open_blog.Store.Rows.{Db, Post}
use open_blog.Public.Codec.{Cursor, PublicExternal, encode_cursor}
use open_blog.Public.Pages.{is_shown, from_cursor, newer, list_rows, next_cursor}
use open_blog.Public.Order.{newer-IsOrder, IsDated, cursor_of, select-IsRest}
use mathlib.Core.Path.{subst}

-- The published posts of the tenant under the tag, newest first: the list without pages.
abbrev pub published_posts : PublicExternal → (tenant : ℕ) (tag : Text) → Db → List Post
published_posts ext tenant tag db = sort_by newer (select (is_shown ext tenant tag) db.posts)

select-all : (xs : List Post) → select (λ p. true) xs ≡ xs
select-all [] = refl
select-all (x ∷ xs) = ap (λ ys. x ∷ ys) (select-all xs)

-- The page that starts at the cursor of a post of the list is what stands after it.
pub list_rows-none :
    (ext : PublicExternal) (tenant n : ℕ) (tag : Text) (db : Db)
    → list_rows ext tenant n tag none db ≡ take (suc n) (published_posts ext tenant tag db)
unfolding list_rows
list_rows-none ext tenant n tag db =
    ap (λ ps. take (suc n) (sort_by newer ps))
      (select-&& (is_shown ext tenant tag) (λ p. true) db.posts ∙ select-all _)

pub list_rows-after :
    (ext : PublicExternal) (tenant n : ℕ) (tag : Text) (db : Db) (x : Post) (t : ℕ)
    (xs ys : List Post)
    → x.published_at ≡ some t
    → published_posts ext tenant tag db ≡ xs ++ x ∷ ys
    → Distinct (λ p. p.id) (xs ++ x ∷ ys)
    → All IsDated (xs ++ x ∷ ys)
    → list_rows ext tenant n tag (some (cursor_of t x)) db ≡ take (suc n) ys
unfolding list_rows
list_rows-after ext tenant n tag db x t xs ys dated e ne d =
    let c : Option Cursor = some (cursor_of t x) in
    let sorted : IsOrdered newer (xs ++ x ∷ ys) =
      subst (IsOrdered newer) e
        (sort_by-IsOrdered newer newer-IsOrder (select (is_shown ext tenant tag) db.posts)) in
    ap (take (suc n)) (
      ap (sort_by newer) (select-&& (is_shown ext tenant tag) (from_cursor ext c) db.posts)
      ∙ sym (
          select-sort_by newer newer-IsOrder (from_cursor ext c)
            (select (is_shown ext tenant tag) db.posts))
      ∙ ap (select (from_cursor ext c)) e
      ∙ select-IsRest x t dated xs ys sorted ne d)

module _ {ℓ} {A : Type ℓ} where
  pub take-all : (n : ℕ) (ys : List A) → length ys ≤ n → take (suc n) ys ≡ ys
  take-all n [] h = refl
  take-all zero (y ∷ ys) h = absurd (omega arith)
  take-all (suc n) (y ∷ ys) h = ap (λ zs. y ∷ zs) (take-all n ys (omega arith))

  pub take-take : (n : ℕ) (ys : List A) → take n (take (suc n) ys) ≡ take n ys
  take-take zero ys = refl
  take-take (suc n) [] = refl
  take-take (suc n) (y ∷ ys) = ap (λ zs. y ∷ zs) (take-take n ys)

  pub length-take : (n : ℕ) (ys : List A) → n < length ys → length (take (suc n) ys) ≡ suc n
  length-take zero [] h = absurd (omega arith)
  length-take zero (y ∷ ys) h = refl
  length-take (suc n) [] h = absurd (omega arith)
  length-take (suc n) (y ∷ ys) h = ap suc (length-take n ys (omega arith))

  -- A full page of a longer list ends with a member, after which the rest stands.
  pub record IsPage (m : ℕ) (ys : List A) : Type ℓ where
    pub front : List A
    pub anchor : A
    pub rest : List A
    pub page : take (suc m) ys ≡ front ++ anchor ∷ []
    pub whole : ys ≡ front ++ anchor ∷ rest
    pub shorter : length rest < length ys

  pub IsPage-take : (m : ℕ) (ys : List A) → suc m < length ys → IsPage m ys
  IsPage-take m [] h = absurd (omega arith)
  IsPage-take zero (y ∷ ys) h = record {
    front = [];
    anchor = y;
    rest = ys;
    page = refl;
    whole = refl;
    shorter = omega arith;
  }
  IsPage-take (suc m) (y ∷ ys) h =
      let r : IsPage m ys = IsPage-take m ys (omega arith) in
      record {
        front = y ∷ r.front;
        anchor = r.anchor;
        rest = r.rest;
        page = ap (λ zs. y ∷ zs) r.page;
        whole = ap (λ zs. y ∷ zs) r.whole;
        shorter = omega (arith, r.shorter);
      }

module _ (ext : PublicExternal) where
  pub next_cursor-page :
      (front : List Post) (x : Post) (t : ℕ)
      → x.published_at ≡ some t
      → next_cursor ext true (front ++ x ∷ []) ≡ encode_cursor ext (cursor_of t x)
  next_cursor-page [] x t e = rw e
  next_cursor-page (y ∷ []) x t e = rw e
  next_cursor-page (y ∷ z ∷ zs) x t e = next_cursor-page (z ∷ zs) x t e
