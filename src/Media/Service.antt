-- ===== src/Media/Service.antt =====
-- media.go, and the processor of variants.go that encodes nothing. The object store, the decoder of the
-- image header, the signer and the ids are given.
use open_blog.Base.{
  ℕ, ◌++◌, Bool, true, false, not, ◌||◌, ◌==◌, nat_eq, string_eq, text_eq_instance, if◌then◌else◌,
  Option, none, some, List, [], ◌∷◌, map, Text, codes, String, elem, ltb, itoa, to_lower, drop,
  length, take, ◌-◌,
}
use open_blog.Store.Errors.{Error, Result, ok, err}
use open_blog.Store.Rows.{Db, PostImage, JobData}
use open_blog.Store.Tx.{Scope, Read, Tx, ◌>>=◌, ◌>>◌, pure, guard, read, no_rows_as, scoped_rw}
use open_blog.Store.Posts.{get_post_by_id}
use open_blog.Store.Images.{
  get_post_image_by_id, insert_post_image_on_conflict, delete_post_image,
  update_post_image_variants,
}
use open_blog.Authz.Roles.{Actor, can, owns_post, scope_from_actor}
use open_blog.Authz.Roles.Capability.{edit_any_post}
use open_blog.Jobs.Queue.{enqueue}
use open_blog.Imports.Source.{file_ext}

abbrev pub max_image_size : ℕ
max_image_size = 15728640

abbrev pub variants_job_kind : String
variants_job_kind = "variants"

abbrev pub allowed_mimes : List String
allowed_mimes = "image/jpeg" ∷ "image/png" ∷ "image/webp" ∷ "image/gif" ∷ "image/avif" ∷ []

abbrev pub variant_sizes : List ℕ
variant_sizes = 480 ∷ 800 ∷ 1200 ∷ []

abbrev pub allowed_exts : List Text
allowed_exts = codes ".png" ∷ codes ".webp" ∷ codes ".gif" ∷ codes ".avif" ∷ []

abbrev pub normal_ext : Text → Text
normal_ext ext =
    if ext == codes ".jpg" || ext == codes ".jpeg"
    then codes ".jpg"
    else if elem ext allowed_exts
    then ext
    else []

unfoldable pub ext_from_name : (lower_table : ℕ → ℕ) → Text → Text
ext_from_name lower_table name = normal_ext (to_lower lower_table (file_ext name))

-- The key that `Presign` binds an upload to, or an error for a name without an allowed extension.
abbrev pub keyed : (tenant post object : Text) → (ext : Text) → Result Text
keyed tenant post object [] = err Error.bad_filename
keyed tenant post object (c ∷ ext) =
    ok (tenant ++ codes "/posts/" ++ post ++ codes "/" ++ object ++ (c ∷ ext))

unfoldable pub presign_key :
    (lower_table : ℕ → ℕ) → (tenant post object : Text) → (filename : Text) → Result Text
unfolding ext_from_name
presign_key lower_table tenant post object filename =
    keyed tenant post object (ext_from_name lower_table filename)

-- The ids that one call mints.
pub record FreshImage : Type 0 where
  pub now : ℕ
  pub id : ℕ
  pub job_id : ℕ

-- The job of a new row; none for a row that is there.
abbrev pub enqueue_variants : FreshImage → (tenant : ℕ) → (key : Text) → Bool → Tx Bool
enqueue_variants fresh tenant key false = pure false
enqueue_variants fresh tenant key true = do
  job ←
      enqueue fresh.now fresh.job_id variants_job_kind key
        (record { tenant_id = tenant; content = JobData.variants_data tenant fresh.id key })
  pure true

-- `Confirm`, inside the transaction of its caller.
unfoldable pub confirm :
    (cdn_base : Text)
    → FreshImage
    → Scope
    → (tenant post : ℕ) → (key : Text) → (size_bytes : ℕ) → (mime_type : String) → Tx Bool
confirm cdn_base fresh s tenant post key size_bytes mime_type = do
  guard (elem mime_type allowed_mimes) Error.invalid_mime
  guard (not (ltb max_image_size size_bytes)) Error.payload_too_large
  inserted ←
      insert_post_image_on_conflict s fresh.id tenant post key (cdn_base ++ codes "/" ++ key)
        mime_type size_bytes
  enqueue_variants fresh tenant key inserted

abbrev pub found_image : Scope → ℕ → Read PostImage
found_image scope id db = no_rows_as Error.image_not_found (get_post_image_by_id scope id db)

-- The author of the image's post is asked for only where the actor may not edit any post.
abbrev pub may_delete : Actor → Scope → PostImage → Tx (Unit {0})
may_delete actor scope img = if can actor edit_any_post then pure tt else do
  p ← read (get_post_by_id scope img.post_id)
  guard (owns_post actor p.author_id) Error.media_forbidden

unfoldable pub delete_image_tx : Actor → ℕ → Tx (Unit {0})
delete_image_tx actor id = do
  let scope = scope_from_actor actor
  img ← read (found_image scope id)
  may_delete actor scope img
  delete_post_image scope id

unfoldable pub delete_image : Actor → ℕ → Db → Result (Unit {0}) × Db
delete_image actor id db = scoped_rw (delete_image_tx actor id) db

-- A derived variant; no data (nil) is the empty text.
pub record Variant : Type 0 where
  pub label : Text
  pub key : Text
  pub data_bytes : Text
  pub width : ℕ
  pub height : ℕ

pub record Processed : Type 0 where
  pub original_width : ℕ
  pub original_height : ℕ
  pub variants : List Variant

-- `strings.TrimSuffix` of the extension as the name has it in normal form.
abbrev pub trim_suffix : (suffix : Text) → Text → Text
trim_suffix suffix s =
    if drop (length s - length suffix) s == suffix then take (length s - length suffix) s else s

abbrev pub noop_variant : (base : Text) → (width height size : ℕ) → Variant
noop_variant base width height size = record {
  label = itoa size;
  key = base ++ codes "-" ++ itoa size ++ codes ".webp";
  data_bytes = [];
  width = width;
  height = height;
}

-- `noopProcessor.Process` with the header's dimensions, 0 and 0 where there are none.
unfoldable pub noop_process :
    (lower_table : ℕ → ℕ) → (decoded : Option (ℕ × ℕ)) → (key : Text) → Processed
unfolding ext_from_name
noop_process lower_table decoded key =
    let base : Text = trim_suffix (ext_from_name lower_table key) key in
    let dims : ℕ × ℕ = elim decoded [ none ↦ (0, 0) | some d ↦ d ] in
    record {
      original_width = dims.0;
      original_height = dims.1;
      variants = map (noop_variant base dims.0 dims.1) variant_sizes;
    }

pub record VariantEntry : Type 0 where
  pub label : Text
  pub url : Text
  pub width : ℕ
  pub height : ℕ
  pub pending : Bool

abbrev pub entry_of : (cdn_base original_key : Text) → Variant → VariantEntry
entry_of cdn_base original_key v =
    if v.data_bytes == codes ""
    then record {
      label = v.label;
      url = cdn_base ++ codes "/" ++ original_key;
      width = v.width;
      height = v.height;
      pending = true;
    }
    else record {
      label = v.label;
      url = cdn_base ++ codes "/" ++ v.key;
      width = v.width;
      height = v.height;
      pending = false;
    }

-- The entries of `buildVariantsJSON`, in the order of the variants; the encoder is given.
unfoldable pub build_variants :
    (cdn_base : Text) → Processed → (original_key : Text) → List VariantEntry
build_variants cdn_base p original_key = map (entry_of cdn_base original_key) p.variants

unfoldable pub write_variants :
    (encode : List VariantEntry → Text)
    → (cdn_base : Text) → (tenant image : ℕ) → Processed
    → (original_key : Text) → Db
    → Result (Unit {0}) × Db
unfolding build_variants
write_variants encode cdn_base tenant image p original_key db =
    scoped_rw
      (update_post_image_variants (record { tenant_id = tenant; platform = false }) image
        p.original_width p.original_height (encode (build_variants cdn_base p original_key)))
      db
