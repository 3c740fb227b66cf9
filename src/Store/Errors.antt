-- ===== src/Store/Errors.antt =====
-- The sentinel errors of the packages, and the SQL states that the program or its callers see.
use mathlib.Core.Path.{◌≡◌, ap}

pub data Error : Type 0 where
  -- pgx and Postgres
  no_rows unique_violation foreign_key_violation row_security_violation : Error
  numeric_out_of_range invalid_text_representation check_violation : Error
  -- internal/store, internal/authz
  not_member forbidden unknown_role : Error
  -- internal/posts
  post_not_found slug_taken slug_immutable empty_content no_tenant render_failed : Error
  -- internal/jobs
  duplicate_job no_job : Error
  -- internal/media
  media_forbidden invalid_mime payload_too_large image_not_found bad_filename : Error
  -- internal/import
  already_applied import_not_found invalid_source not_converted google_token : Error
  unsupported_file_type upload_failed : Error
  -- internal/auth
  invalid_credentials invited invalid_user_id no_session session_expired : Error
  missing_credentials : Error
  -- internal/oauth
  unknown_provider disallowed_redirect invalid_flow provider_denied exchange_failed : Error
  identity_claims unverified_email identity_taken no_invitation no_token : Error
  scope_missing refresh_failed decrypt_failed missing_subject missing_email : Error
  -- internal/tenancy
  invalid_slug tenant_not_found : Error

pub Error-discrete : Discrete Error
Error-discrete = hlevel

pub data Result {ℓ} (A : Type ℓ) : Type ℓ where
  ok : A → Result A
  err : Error → Result A

abbrev value_or {ℓ} : {A : Type ℓ} → A → Result A → A
value_or d (ok a) = a
value_or d (err e) = d

pub eq_of_ok {ℓ} : {A : Type ℓ} {a b : A} → ok a ≡ ok b → a ≡ b
eq_of_ok {a} e = ap (value_or a) e

abbrev error_or {ℓ} : {A : Type ℓ} → Error → Result A → Error
error_or d (ok a) = d
error_or d (err e) = e

pub eq_of_err {ℓ} : {A : Type ℓ} {e e' : Error} → ◌≡◌ {A = Result A} (err e) (err e') → e ≡ e'
eq_of_err {e} h = ap (error_or e) h
