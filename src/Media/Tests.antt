-- ===== src/Media/Tests.antt =====
-- Examples for internal/media.
use open_blog.Base.{
  ℕ, ◌≡◌, refl, ◌≤◌, true, false, none, some, [], ◌∷◌, Text, codes, find, select, not, arith,
}
use open_blog.Store.Errors.{ok}
use open_blog.Store.Rows.{Db, JobData, Payload}
use open_blog.Store.Tx.{Scope}
use open_blog.Store.Images.{is_image}
use open_blog.Jobs.Queue.{new_job}
use open_blog.Media.Service.{FreshImage, confirm}
use open_blog.Media.Confirmation.{IsConfirmed, confirm-IsConfirmed}
use open_blog.Samples.{sample_db, sample_image}

abbrev in_first : Scope
in_first = record { tenant_id = 1; platform = false }

abbrev minted : FreshImage
minted = record { now = 50; id = 301; job_id = 500 }

abbrev cdn : Text
cdn = codes "c"

abbrev confirmed_db : Db
confirmed_db = record sample_db {
  images = record (sample_image 301 1 100 (codes "n")) { url = codes "c/n" } ∷ sample_db.images;
  jobs =
      new_job 50 500 "variants" (some (codes "n")) (
        Payload.job_payload
          (record { tenant_id = 1; content = JobData.variants_data 1 301 (codes "n") }))
      ∷ [];
}

first_confirm :
    confirm cdn minted in_first 1 100 (codes "n") 5 "image/png" sample_db ≡ ok (true, confirmed_db)
unfolding open_blog.Media.Service.confirm open_blog.Store.Images.insert_post_image_on_conflict
    open_blog.Store.Posts.empty_object open_blog.Jobs.Queue.enqueue open_blog.Jobs.Queue.holds_key
    open_blog.Store.Tx.scoped_rw open_blog.Store.Tx.scoped open_blog.Store.Tx.visible
    open_blog.Store.Tx.◌>>=◌ open_blog.Base.text_eq
first_confirm = refl

confirm-IsConfirmed_example :
    IsConfirmed cdn in_first minted 1 100 (codes "n") 5 "image/png" true sample_db confirmed_db
confirm-IsConfirmed_example =
    confirm-IsConfirmed cdn in_first 1 b'n' [] minted 100 5 "image/png" true sample_db confirmed_db
      first_confirm

abbrev without_images : Db
without_images = record sample_db { images = [] }
