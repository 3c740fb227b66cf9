-- ===== src/Store/Images.antt =====
-- The queries on post_images of internal/store/queries.go.
use open_blog.Base.{
  ℕ, Bool, true, false, not, ◌&&◌, ◌==◌, nat_eq, text_eq_instance, ◌∷◌, if◌then◌else◌, any, find,
  select, update_where, Text, String,
}
use open_blog.Store.Errors.{Error, ok, err}
use open_blog.Store.Rows.{PostImage}
use open_blog.Store.Tx.{Scope, visible, Read, Tx, row}
use open_blog.Store.Posts.{empty_object}

abbrev pub is_image : Scope → ℕ → PostImage → Bool
is_image s id i = i.id == id && visible s i.tenant_id

unfoldable pub get_post_image_by_id : Scope → ℕ → Read PostImage
get_post_image_by_id s id db = row (find (is_image s id) db.images)

abbrev pub same_object : ℕ → Text → PostImage → Bool
same_object tenant key i = i.tenant_id == tenant && i.r2_key == key

-- INSERT … ON CONFLICT (tenant_id, r2_key) DO NOTHING: whether a row was inserted. The composite
-- foreign key wants the post in the same tenant.
unfoldable pub insert_post_image_on_conflict :
    Scope
    → (id tenant post : ℕ) → (r2_key url : Text) → (mime_type : String) → (size_bytes : ℕ) → Tx Bool
insert_post_image_on_conflict s id tenant post r2_key url mime_type size_bytes db =
    let inserted : PostImage = record {
      id = id;
      tenant_id = tenant;
      post_id = post;
      r2_key = r2_key;
      url = url;
      width = 0;
      height = 0;
      size_bytes = size_bytes;
      mime_type = mime_type;
      variants = empty_object;
    } in
    if not (visible s tenant)
    then err Error.row_security_violation
    else if any (same_object tenant r2_key) db.images
    then ok (false, db)
    else if any (λ i. i.id == id) db.images
    then err Error.unique_violation
    else if not (any (λ p. p.id == post && p.tenant_id == tenant) db.posts)
    then err Error.foreign_key_violation
    else ok (true, record db { images = inserted ∷ db.images })

unfoldable pub delete_post_image : Scope → ℕ → Tx (Unit {0})
delete_post_image s id db =
    ok (tt, record db { images = select (λ i. not (is_image s id i)) db.images })

abbrev pub sized : (width height : ℕ) → Text → PostImage → PostImage
sized width height variants i = record i { width = width; height = height; variants = variants }

unfoldable pub update_post_image_variants : Scope → (id width height : ℕ) → Text → Tx (Unit {0})
update_post_image_variants s id width height variants db = ok (
  tt,
  record db { images = update_where (is_image s id) (sized width height variants) db.images },
)
