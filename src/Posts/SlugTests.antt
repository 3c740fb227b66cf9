-- ===== src/Posts/SlugTests.antt =====
-- Examples for the slugs of internal/posts.
use open_blog.Base.{ℕ, ◌≡◌, refl, false, ◌⊎◌, [], ◌∷◌, none, Text, codes}
use open_blog.Store.Rows.{Db, PostStatus}
use open_blog.Store.Tx.{Scope}
use open_blog.Posts.Slugs.{derive_slug}
use open_blog.Posts.SlugShape.{IsSlug, derive_slug-IsSlug}
use open_blog.Posts.SlugSearch.{IsFree, IsNumbered, unique_slug-first}
use open_blog.Samples.{sample_db, draft_post, sample_post}

abbrev ascii : ℕ → ℕ
ascii c = c

abbrev in_first : Scope
in_first = record { tenant_id = 1; platform = false }

derive_slug-IsSlug_example : IsSlug (derive_slug ascii (codes "Hello, World!"))
derive_slug-IsSlug_example = derive_slug-IsSlug ascii (codes "Hello, World!")

unique_slug-first_example :
    IsFree in_first 1 sample_db (codes "mine-2")
    × ((codes "mine-2" ≡ derive_slug ascii (codes "Mine"))
        ⊎ IsNumbered in_first 1 sample_db
            (derive_slug ascii (codes "Mine"))
            (derive_slug ascii (codes "Mine"))
            2
            10001
            (codes "mine-2"))
unfolding open_blog.Posts.Slugs.unique_slug open_blog.Posts.Slugs.slug_loop
    open_blog.Posts.Slugs.derive_slug open_blog.Posts.Slugs.hyphenate open_blog.Posts.Slugs.suffixed
    open_blog.Store.Posts.slug_exists open_blog.Base.to_lower open_blog.Base.lower_rune
    open_blog.Base.itoa open_blog.Base.digits_from open_blog.Store.Tx.scoped_rw
    open_blog.Store.Tx.scoped open_blog.Store.Tx.visible open_blog.Store.Tx.◌>>=◌
    open_blog.Base.text_eq open_blog.Base.trim_space open_blog.Base.trim open_blog.Base.trim_left
    open_blog.Base.trim_right
unique_slug-first_example =
    unique_slug-first ascii in_first 1 (codes "Mine") (codes "mine-2") sample_db refl

abbrev two_taken : Db
two_taken = record sample_db {
  posts = draft_post ∷ sample_post 102 1 11 "mine-2" PostStatus.draft none ∷ [];
}
