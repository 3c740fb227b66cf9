-- ===== src/Api/Replies.antt =====
-- internal/api/errors.go and the helpers of internal/api/handlers.go: replies, and handlers as functions from
-- a database to a reply and the database after it.
use open_blog.Base.{
  ℕ, Bool, ◌==◌, nat_eq, if◌then◌else◌, Option, none, some, List, Text, String, codes,
}
use open_blog.Store.Errors.{Error, Result, ok, err}
use open_blog.Store.Rows.{Db, Tenant, Post}
use open_blog.Store.Posts.{PostSummary}
use open_blog.Imports.Service.{ImportResult}
use open_blog.Oauth.Service.{CallbackResult}
use open_blog.Store.Tx.{Tx, scoped_rw}
use open_blog.Authz.Roles.{Actor, Capability, require}

-- The bodies: the envelope of an error, or the fields of an answer.
pub data Body : Type 0 where
  empty : Body
  failure : (code : String) (message : Text) → Body
  id_field : ℕ → Body
  tenant_fields : (id : ℕ) (slug : Text) → Body
  tenant_row : Tenant → Body
  user_field : ℕ → Body
  token_field : Text → Body
  url_field : Text → Body
  signed_in : CallbackResult → Body
  scope_field : ℕ → Body
  all_right : Body
  post_row : Post → Body
  post_rows : List PostSummary → Body
  html_text : Text → Body
  import_row : ImportResult → Body

-- The cookie is the session's: none is left alone, an empty one is cleared.
pub record Reply : Type 0 where
  pub status : ℕ
  pub body : Body
  pub cookie : Option Text

abbrev pub answer : (status : ℕ) → Body → Reply
answer status body = record { status = status; body = body; cookie = none }

-- `codeForStatus`.
unfoldable pub code_for_status : ℕ → String
code_for_status status =
    if status == 404
    then "not_found"
    else if status == 403
    then "forbidden"
    else if status == 401
    then "unauthorized"
    else if status == 409
    then "conflict"
    else if status == 422
    then "validation"
    else if status == 429
    then "too_many_requests"
    else "internal"

-- The cases of `mapError`, in the order of the source.
pub data ErrorKind : Type 0 where
  absent denied_access conflicting unprocessable unauthenticated unknown : ErrorKind

abbrev pub kind_of : Error → ErrorKind
kind_of Error.post_not_found = absent
kind_of Error.import_not_found = absent
kind_of Error.image_not_found = absent
kind_of Error.no_rows = absent
kind_of Error.forbidden = denied_access
kind_of Error.no_tenant = denied_access
kind_of Error.slug_taken = conflicting
kind_of Error.slug_immutable = conflicting
kind_of Error.already_applied = conflicting
kind_of Error.identity_taken = conflicting
kind_of Error.no_invitation = conflicting
kind_of Error.invited = conflicting
kind_of Error.empty_content = unprocessable
kind_of Error.not_converted = unprocessable
kind_of Error.invalid_source = unprocessable
kind_of Error.invalid_mime = unprocessable
kind_of Error.payload_too_large = unprocessable
kind_of Error.unknown_provider = unprocessable
kind_of Error.disallowed_redirect = unprocessable
kind_of Error.invalid_flow = unauthenticated
kind_of Error.provider_denied = unauthenticated
kind_of Error.exchange_failed = unauthenticated
kind_of Error.identity_claims = unauthenticated
kind_of Error.unverified_email = unauthenticated
kind_of Error.refresh_failed = unauthenticated
kind_of Error.no_token = unauthenticated
kind_of Error.scope_missing = unauthenticated
kind_of _ = unknown

abbrev pub map_kind : ErrorKind → ℕ × Text
map_kind absent = (404, codes "not found")
map_kind denied_access = (403, codes "forbidden")
map_kind conflicting = (409, codes "conflict")
map_kind unprocessable = (422, codes "validation failed")
map_kind unauthenticated = (401, codes "unauthorized")
map_kind unknown = (500, codes "internal server error")

-- `mapError`.
abbrev pub map_error : Error → ℕ × Text
map_error e = map_kind (kind_of e)

abbrev pub error_reply : (status : ℕ) → (code : String) → Text → Reply
error_reply status code message = answer status (failure code message)

-- `writeServiceError`.
unfoldable pub service_error : Error → Reply
unfolding code_for_status
service_error e =
    let (status, message) = map_error e in error_reply status (code_for_status status) message

abbrev pub invalid : String → Reply
invalid message = error_reply 422 "validation" (codes message)

-- A decoded request, or the decoder's message.
pub data Parsed (A : Type 0) : Type 0 where
  malformed : Text → Parsed A
  parsed : A → Parsed A

abbrev pub Handler : Type 0
Handler = Db → Reply × Db

-- An early return.
unfoldable pub gate : Option Reply → Handler → Handler
gate none h db = h db
gate (some r) h db = (r, db)

unfoldable pub when : Bool → Reply → Option Reply
when b r = if b then some r else none

unfoldable pub with_request : {A : Type 0} → Parsed A → (A → Handler) → Handler
with_request (malformed message) h db = (error_reply 422 "validation" message, db)
with_request (parsed a) h db = h a db

-- `pathID`, and the parse of a user's id.
unfoldable pub with_path : Option ℕ → String → (ℕ → Handler) → Handler
with_path none message h db = (invalid message, db)
with_path (some id) message h db = h id db

abbrev pub replied : {A : Type 0} → (Result A → Reply) → Result A × Db → Reply × Db
replied f (r, db) = (f r, db)

-- A transaction and the reply to what came of it.
unfoldable pub commit : {A : Type 0} → (Result A → Reply) → Tx A → Handler
commit f m db = replied f (scoped_rw m db)

abbrev denied : Result (Unit {0}) → Option Reply
denied (ok _) = none
denied (err e) = some (service_error e)

-- What `authz.Require` refuses.
abbrev pub lacks : Actor → Capability → Option Reply
lacks a cap = denied (require a cap)

-- An error of a write: `ErrNoRows` has the message of the handler.
abbrev pub write_error : (missing : String) → Error → Reply
write_error missing Error.no_rows = error_reply 404 "not_found" (codes missing)
write_error missing e = service_error e

-- No content, or an error.
abbrev pub done_or : (missing : String) → {A : Type 0} → Result A → Reply
done_or missing (ok _) = answer 204 empty
done_or missing (err e) = write_error missing e
