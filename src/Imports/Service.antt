-- ===== src/Imports/Service.antt =====
-- import.go: the life of an import. What the object store and the id generators do is given.
use open_blog.Base.{
  ℕ, ◌++◌, Bool, true, false, not, ◌==◌, nat_eq, text_eq_instance, if◌then◌else◌, Option, none,
  some, List, [], ◌∷◌, Text, codes, String, is_some, trim_space,
}
use open_blog.Store.Errors.{Error, Result, ok, err}
use open_blog.Store.Rows.{Db, Post, Import, ImportStatus, JobData}
use open_blog.Store.Rows.ImportStatus.{converting, converted, failed}
use open_blog.Store.Rows.JobData.{import_data}
use open_blog.Store.Tx.{
  Scope, nil_id, Read, Tx, ◌>>=◌, ◌>>◌, pure, guard, lift, no_rows_as, scoped, scoped_rw,
}
use open_blog.Store.Imports.{
  ImportUpdate, get_import_by_id, create_import, set_import_post_id, update_import,
}
use open_blog.Authz.Roles.{Actor, require, scope_from_actor}
use open_blog.Authz.Roles.Capability.{run_import}
use open_blog.Jobs.Queue.{enqueue}
use open_blog.Render.Html.{External}
use open_blog.Posts.Service.{Fresh, CreateInput, create}
use open_blog.Imports.Convert.{Tools, Conversion, markdown, no_markdown, dispatch, gdoc_export}
use open_blog.Imports.Source.{Source, SourceKind, parse_source, title_from_content, derive_slug}
use open_blog.Imports.Source.SourceKind.{multipart, google_docs, unknown_kind}

abbrev pub import_job_kind : String
import_job_kind = "import"

-- A token, or the message of the error.
pub data TokenRun : Type 0 where
  token refused : Text → TokenRun

-- The configured slug, `mime.ExtensionsByType`, `Put` and `Get` of the object store, and the exporter
-- of Google tokens, if there is one.
pub record ImportExternal : Type 0 where
  pub tenant_slug : Text
  pub exts_by_type : Text → List Text
  pub put : Text → Text → Bool
  pub get : Text → Option Text
  pub tools : Tools
  pub google_token : Option (ℕ → TokenRun)

-- The time, the id of the import, the text of the object's id, and the id of the job.
pub record FreshImport : Type 0 where
  pub now : ℕ
  pub id : ℕ
  pub object_id : Text
  pub job_id : ℕ

-- The result that `Get` gives.
pub record ImportResult : Type 0 where
  pub id : ℕ
  pub status : ImportStatus
  pub markdown : Option Text
  pub fidelity : String
  pub error : Option Text

unfoldable pub fidelity_for_format : Text → String
fidelity_for_format format = if format == codes "pdf" then "medium" else "high"

abbrev pub result_of : Import → ImportResult
result_of i = record {
  id = i.id;
  status = i.status;
  markdown = i.markdown_out;
  fidelity = fidelity_for_format i.source_format;
  error = i.error;
}

abbrev pub shown : Result Import → Result ImportResult
shown (err e) = err e
shown (ok i) = ok (result_of i)

-- The row, or `ErrNotFound`.
abbrev pub found_import : Scope → ℕ → Read Import
found_import scope id db = no_rows_as Error.import_not_found (get_import_by_id scope id db)

unfoldable pub get_import : Actor → ℕ → Read ImportResult
get_import actor id db = shown (scoped (found_import (scope_from_actor actor) id) db)

abbrev pub nonblank_or : Error → Option Text → Result Text
nonblank_or e none = err e
nonblank_or e (some md) = if trim_space md == codes "" then err e else ok md

abbrev pub is_converted : ImportStatus → Bool
is_converted converted = true
is_converted _ = false

-- `applyGate`, with the Markdown that it lets through.
unfoldable pub apply_gate : Import → Result Text
apply_gate i =
    if not (is_converted i.status)
    then err Error.not_converted
    else if is_some i.post_id
    then err Error.already_applied
    else nonblank_or Error.not_converted i.markdown_out

abbrev pub tenant_scope : ℕ → Scope
tenant_scope tenant = record { tenant_id = tenant; platform = false }

abbrev pub of_conversion : Conversion → ImportUpdate
of_conversion (markdown md fidelity) = record {
  status = some converted;
  markdown_out = some md;
  error = none;
}
of_conversion (no_markdown [] message) = record {
  status = some failed;
  markdown_out = none;
  error = some message;
}
of_conversion (no_markdown (c ∷ fidelity) message) = record {
  status = some failed;
  markdown_out = none;
  error = some (codes "fidelity=" ++ (c ∷ fidelity) ++ codes ": " ++ message);
}

abbrev pub is_converting : ImportStatus → Bool
is_converting converting = true
is_converting _ = false

abbrev pub record_outcome :
    (now tenant : ℕ) → Import → Result Conversion → Db → Result (Unit {0}) × Db
record_outcome now tenant i (err e) db = (err e, db)
record_outcome now tenant i (ok c) db =
    scoped_rw (update_import (tenant_scope tenant) now i.id (of_conversion c)) db

module _ (ext : External) (media_origin : Text) (id_text : ℕ → Text) (io : ImportExternal) where
  open ext use {lower_table}
  open io use {tenant_slug, exts_by_type, put, tools, google_token}

  abbrev pub key_prefix : ℕ → Text
  key_prefix tenant = if tenant_slug == codes "" then id_text tenant else tenant_slug

  abbrev pub object_key : (tenant id : ℕ) → (object_id ext : Text) → Text
  object_key tenant id object_id extension =
      key_prefix tenant ++ codes "/imports/" ++ id_text id ++ codes "/" ++ object_id ++ extension

  -- The source key and the payload; a multipart file is stored first.
  abbrev pub stored :
      FreshImport
      → (tenant : ℕ) → (extension format : Text) → Source
      → SourceKind
      → Result (Text × JobData)
  stored fresh tenant extension format source multipart =
      let key : Text = object_key tenant fresh.id fresh.object_id extension in
      if put key source.file
      then ok (key, import_data fresh.id format key [])
      else err Error.upload_failed
  stored fresh tenant extension format source google_docs = ok (
    codes "gdoc/" ++ id_text tenant ++ codes "/" ++ id_text fresh.id,
    import_data fresh.id (codes "gdoc") [] source.doc_id,
  )
  stored fresh tenant extension format source unknown_kind = ok ([], import_data nil_id [] [] [])

  unfoldable pub start_tx : FreshImport → Actor → Source → Tx ℕ
  start_tx fresh actor source = do
    lift (require actor run_import)
    let scope = scope_from_actor actor
    guard (not (scope.tenant_id == nil_id)) Error.invalid_source
    parsed ← lift (parse_source lower_table exts_by_type source)
    kept ← lift (stored fresh scope.tenant_id parsed.0 parsed.1 source source.kind)
    create_import scope fresh.now fresh.id scope.tenant_id actor.user_id parsed.1 kept.0
    job ←
        enqueue fresh.now fresh.job_id import_job_kind (id_text fresh.id)
          (record { tenant_id = scope.tenant_id; content = kept.1 })
    pure fresh.id

  unfoldable pub start : FreshImport → Actor → Source → Db → Result ℕ × Db
  start fresh actor source db = scoped_rw (start_tx fresh actor source) db

  -- Any error of the link is `ErrAlreadyApplied`.
  abbrev pub link_result : Post → Result (Unit {0}) × Db → Result Post × Db
  link_result post (ok _, db) = (ok post, db)
  link_result post (err e, db) = (err Error.already_applied, db)

  abbrev pub link : (now id : ℕ) → Scope → Result Post × Db → Result Post × Db
  link now id scope (err e, db) = (err e, db)
  link now id scope (ok post, db) =
      link_result post (scoped_rw (set_import_post_id scope now id post.id) db)

  abbrev pub draft_input : (id : ℕ) → (md : Text) → CreateInput
  draft_input id md = record {
    title = title_from_content md;
    content_markdown = md;
    slug = derive_slug md (id_text id);
    excerpt = [];
    metadata = [];
  }

  -- What `Apply` does once the row is read: three transactions in a row.
  abbrev pub apply_found : Fresh → Actor → (id : ℕ) → Result Import → Db → Result Post × Db
  apply_found fresh actor id (err e) db = (err e, db)
  apply_found fresh actor id (ok i) db = elim (apply_gate i) [
    | err e ↦ (err e, db)
    | ok md ↦
        link fresh.now id (scope_from_actor actor)
          (create ext media_origin id_text fresh actor (draft_input i.id md) db)
  ]

  abbrev pub apply_if : Result (Unit {0}) → Result Post × Db → Db → Result Post × Db
  apply_if (err e) done db = (err e, db)
  apply_if (ok _) done db = done

  unfoldable pub apply : Fresh → Actor → ℕ → Db → Result Post × Db
  unfolding apply_gate
  apply fresh actor id db =
      apply_if (require actor run_import)
        (apply_found fresh actor id (scoped (found_import (scope_from_actor actor) id) db) db) db

  abbrev pub with_token : (doc_id : Text) → TokenRun → Conversion
  with_token doc_id (token t) = gdoc_export tools doc_id t
  with_token doc_id (refused e) = no_markdown [] (codes "import: Google re-consent required: " ++ e)

  abbrev pub gdoc_of : (doc_id : Text) → (user : ℕ) → Option (ℕ → TokenRun) → Conversion
  gdoc_of doc_id user none = no_markdown [] (codes "import: Google token provider not configured")
  gdoc_of doc_id user (some exporter) = with_token doc_id (exporter user)

  abbrev pub dispatched :
      (format : Text) → (original : Text) → Option (Text → Conversion) → Conversion
  dispatched format original none =
      no_markdown [] (codes "unsupported format \"" ++ format ++ codes "\"")
  dispatched format original (some conv) = conv original

  abbrev pub fetched : (format : Text) → Option Text → Result Conversion
  fetched format none = err Error.upload_failed
  fetched format (some original) = ok (dispatched format original (dispatch tools format))

  -- The conversion, or the error of the fetch, which the queue tries again.
  unfoldable pub convert_source : (user : ℕ) → (format key doc_id : Text) → Result Conversion
  convert_source user format key doc_id =
      if format == codes "gdoc"
      then ok (gdoc_of doc_id user google_token)
      else fetched format (io.get key)

  abbrev pub handle_found :
      (now tenant : ℕ) → (format key doc_id : Text) → Result Import → Db → Result (Unit {0}) × Db
  handle_found now tenant format key doc_id (err Error.no_rows) db = (ok tt, db)
  handle_found now tenant format key doc_id (err e) db = (err e, db)
  handle_found now tenant format key doc_id (ok i) db =
      if is_converting i.status
      then record_outcome now tenant i (convert_source i.user_id format key doc_id) db
      else (ok tt, db)

  -- `handleJob` on a payload that is decoded.
  unfoldable pub handle_job :
      (now tenant import_id : ℕ) → (format key doc_id : Text) → Db → Result (Unit {0}) × Db
  unfolding convert_source
  handle_job now tenant import_id format key doc_id db =
      handle_found now tenant format key doc_id
        (scoped (get_import_by_id (tenant_scope tenant) import_id) db) db
