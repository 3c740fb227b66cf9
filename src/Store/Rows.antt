-- ===== src/Store/Rows.antt =====
-- The rows of the tables (internal/store/queries.go, migrations/0001_tables.sql). An id is a
-- number, with 0 for `uuid.Nil`; a time is in nanoseconds; a NULL-able column is an `Option`.
use open_blog.Base.{ℕ, Bool, Option, List, Text, String}

pub data PostStatus : Type 0 where
  draft published archived : PostStatus

pub record Post : Type 0 where
  pub id : ℕ
  pub tenant_id : ℕ
  pub author_id : ℕ
  pub slug : Text
  pub title : Text
  pub excerpt : Text
  pub content_markdown : Text
  pub content_html : Text
  pub status : PostStatus
  pub published_at : Option ℕ
  pub metadata : Text
  pub created_at : ℕ
  pub updated_at : ℕ

pub record PostImage : Type 0 where
  pub id : ℕ
  pub tenant_id : ℕ
  pub post_id : ℕ
  pub r2_key : Text
  pub url : Text
  pub width : ℕ
  pub height : ℕ
  pub size_bytes : ℕ
  pub mime_type : String
  pub variants : Text

pub data ImportStatus : Type 0 where
  converting converted failed : ImportStatus

pub record Import : Type 0 where
  pub id : ℕ
  pub tenant_id : ℕ
  pub user_id : ℕ
  pub post_id : Option ℕ
  pub source_format : Text
  pub source_key : Text
  pub status : ImportStatus
  pub markdown_out : Option Text
  pub error : Option Text
  pub updated_at : ℕ

pub record Tenant : Type 0 where
  pub id : ℕ
  pub slug : Text
  pub name : Text
  pub settings : Text
  pub content_version : ℕ
  pub updated_at : ℕ

pub record User : Type 0 where
  pub id : ℕ
  pub email : Text
  pub password_hash : Option Text
  pub display_name : Text
  pub super_admin : Bool

pub record Membership : Type 0 where
  pub tenant_id : ℕ
  pub user_id : ℕ
  pub role : String

pub record Session : Type 0 where
  pub token_hash : Text
  pub user_id : ℕ
  pub scope : Option ℕ
  pub expires_at : ℕ

pub record Identity : Type 0 where
  pub provider : String
  pub subject : Text
  pub user_id : ℕ

pub record Invitation : Type 0 where
  pub id : ℕ
  pub tenant_id : ℕ
  pub email : Option Text
  pub role : String
  pub expires_at : ℕ
  pub consumed_at : Option ℕ

-- oauth_flows: the hash of the state, and that of the session that began the flow, if one did.
pub record OauthFlow : Type 0 where
  pub id : ℕ
  pub provider : String
  pub state : Text
  pub code_verifier : Text
  pub redirect : Text
  pub session_token_hash : Option Text
  pub expires_at : ℕ

-- oauth_tokens: the tokens are sealed.
pub record OauthToken : Type 0 where
  pub user_id : ℕ
  pub provider : String
  pub refresh_token : Option Text
  pub access_token : Text
  pub token_scopes : Text
  pub token_expiry : Option ℕ

-- jobs: the payload column holds the JSON of a `JobPayload`, or JSON that is none, with the message of
-- the decoder.
pub data JobData : Type 0 where
  purge_data : (tenant_id post_id version : ℕ) → JobData
  tenant_purge_data : (tenant_id version : ℕ) → JobData
  gone_purge_data : (tenant_id : ℕ) → JobData
  variants_data : (tenant_id image_id : ℕ) (r2_key : Text) → JobData
  import_data : (import_id : ℕ) (source_format source_key gdoc_id : Text) → JobData

pub record JobPayload : Type 0 where
  pub tenant_id : ℕ
  pub content : JobData

pub data Payload : Type 0 where
  job_payload : JobPayload → Payload
  malformed : Text → Payload

pub data JobState : Type 0 where
  queued running done failed : JobState

pub record JobRow : Type 0 where
  pub id : ℕ
  pub kind : String
  pub dedupe_key : Option Text
  pub payload : Payload
  pub state : JobState
  pub attempts : ℕ
  pub run_after : ℕ
  pub lease_until : Option ℕ
  pub last_err : Option Text

pub record Db : Type 0 where
  pub tenants : List Tenant
  pub users : List User
  pub memberships : List Membership
  pub sessions : List Session
  pub identities : List Identity
  pub invitations : List Invitation
  pub posts : List Post
  pub images : List PostImage
  pub imports : List Import
  pub jobs : List JobRow
  pub flows : List OauthFlow
  pub tokens : List OauthToken
