-- ===== src/Samples.antt =====
-- Concrete data for the examples: two tenants, a super admin, an editor and an author.
use open_blog.Base.{ℕ, ◌+◌, Bool, true, false, Option, none, some, [], ◌∷◌, Text, codes, String}
use open_blog.Store.Rows.{
  Db, Tenant, User, Post, PostStatus, PostImage, Import, ImportStatus, JobRow, JobState, Payload,
  JobData,
}
use open_blog.Authz.Roles.{Actor, author, editor}
use open_blog.Render.Html.{text, element, other, Nodes, nil, cons, External}
use open_blog.Posts.Service.{Fresh}
use open_blog.Imports.Convert.{Tools, prints, answers}
use open_blog.Imports.Service.{ImportExternal}

abbrev pub sample_tenant : (id version : ℕ) → Tenant
sample_tenant id version = record {
  id = id;
  slug = b't' ∷ (b'0' + id) ∷ [];
  name = codes "Tenant";
  settings = codes "{}";
  content_version = version;
  updated_at = 0;
}

abbrev pub sample_user : ℕ → Bool → User
sample_user id super = record {
  id = id;
  email = codes "user@example.com";
  password_hash = none;
  display_name = codes "User";
  super_admin = super;
}

abbrev pub sample_post : (id tenant author_id : ℕ) → (slug : String) → PostStatus → Option ℕ → Post
sample_post id tenant author_id slug status published_at = record {
  id = id;
  tenant_id = tenant;
  author_id = author_id;
  slug = codes slug;
  title = codes "Title";
  excerpt = [];
  content_markdown = codes "hi";
  content_html = codes "hi";
  status = status;
  published_at = published_at;
  metadata = codes "{}";
  created_at = 1;
  updated_at = 1;
}

abbrev pub sample_image : (id tenant post : ℕ) → Text → PostImage
sample_image id tenant post key = record {
  id = id;
  tenant_id = tenant;
  post_id = post;
  r2_key = key;
  url = key;
  width = 0;
  height = 0;
  size_bytes = 5;
  mime_type = "image/png";
  variants = codes "{}";
}

abbrev pub sample_import : (id tenant : ℕ) → ImportStatus → Option Text → Import
sample_import id tenant status md = record {
  id = id;
  tenant_id = tenant;
  user_id = 11;
  post_id = none;
  source_format = codes "md";
  source_key = codes "key";
  status = status;
  markdown_out = md;
  error = none;
  updated_at = 0;
}

abbrev pub draft_post : Post
draft_post = sample_post 100 1 11 "mine" PostStatus.draft none

abbrev pub other_post : Post
other_post = sample_post 200 2 12 "other" PostStatus.published (some 1)

abbrev pub sample_db : Db
sample_db = record {
  tenants = sample_tenant 1 5 ∷ sample_tenant 2 7 ∷ [];
  users = sample_user 10 true ∷ sample_user 11 false ∷ sample_user 12 false ∷ [];
  memberships = record { tenant_id = 1; user_id = 11; role = "editor" } ∷ [];
  sessions = [];
  identities = [];
  invitations = [];
  posts = draft_post ∷ other_post ∷ [];
  images = sample_image 300 1 100 (codes "k") ∷ [];
  imports =
      sample_import 400 1 ImportStatus.converted (some (codes "hello"))
      ∷ sample_import 401 1 ImportStatus.converting none
      ∷ [];
  jobs = [];
  flows = [];
  tokens = [];
}

abbrev pub editor_actor : Actor
editor_actor = record { user_id = 11; tenant = some 1; role = editor; platform = false }

abbrev pub author_actor : Actor
author_actor = record { user_id = 11; tenant = some 1; role = author; platform = false }

abbrev pub sample_fresh : Fresh
sample_fresh = record { now = 50; id = 101; job_id = 500 }

abbrev pub sample_id_text : ℕ → Text
sample_id_text n = b't' ∷ n ∷ []

abbrev pub first_text : Nodes → Text
first_text nil = []
first_text (cons (text t) ns) = t
first_text (cons _ ns) = []

-- Markdown is its own HTML, a document with one text, and every URL is one of the media origin.
abbrev pub sample_ext : External
sample_ext = record {
  convert = λ md. some md;
  parse = λ html. some (other (cons (element "body" [] (cons (text html) nil)) nil));
  print = λ ns. some (first_text ns);
  parse_url = λ u. some (record { scheme = codes "https"; host = codes "media.example.com" });
  lower_table = λ c. c;
  allow_external_images = λ m. none;
  to_jsonb = λ m. some m;
}

abbrev pub sample_origin : Text
sample_origin = codes "media.example.com"

abbrev pub sample_tools : Tools
sample_tools = record {
  pandoc = λ from src. prints src;
  pdf_to_text = λ src. prints src;
  drive = λ doc token. answers 200 (some doc);
}

abbrev pub sample_io : ImportExternal
sample_io = record {
  tenant_slug = [];
  exts_by_type = λ m. [];
  put = λ key file. true;
  get = λ key. some (codes "hello");
  tools = sample_tools;
  google_token = none;
}

abbrev pub sample_job : JobRow
sample_job = record {
  id = 1;
  kind = "purge";
  dedupe_key = some (codes "k");
  payload = Payload.job_payload (record { tenant_id = 1; content = JobData.purge_data 1 2 3 });
  state = JobState.queued;
  attempts = 0;
  run_after = 10;
  lease_until = none;
  last_err = none;
}
