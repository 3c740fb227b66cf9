-- ===== src/Oauth/External.antt =====
-- What internal/oauth relies on: x/oauth2 and the providers' endpoints, `url.Parse`, SHA-256, AES-GCM,
-- and Postgres. The wrapping of crypto.go and the test of redirects stand here too.
use open_blog.Base.{
  ℕ, Bool, false, not, ◌&&◌, ◌||◌, ◌==◌, nat_eq, text_eq_instance, if◌then◌else◌, Option, none,
  some, List, [], ◌∷◌, ◌++◌, any, length, take, drop, ltb, has_prefix, trim_right, Text, String,
}
use open_blog.Base.Int.{ℤ}
use open_blog.Base.Base64.{encode_base64}

pub record Url : Type 0 where
  pub scheme : Text
  pub host : Text
  pub path : Text
  pub has_user : Bool

-- `Claims`.
pub record Claims : Type 0 where
  pub subject : Text
  pub email : Text
  pub email_verified : Bool
  pub display_name : Text

-- `oauth2.Token`: no expiry is Go's zero time; `scope` is the extra field of that name.
pub record Token : Type 0 where
  pub access_token : Text
  pub refresh_token : Text
  pub expiry : Option ℕ
  pub scope : Option Text

-- The answers of the providers' endpoints.
pub record GoogleUser : Type 0 where
  pub sub : Text
  pub email : Text
  pub email_verified : Bool
  pub name : Text

pub record GithubUser : Type 0 where
  pub id : ℤ
  pub login : Text
  pub name : Text
  pub email : Text

pub record GithubEmail : Type 0 where
  pub email : Text
  pub primary : Bool
  pub verified : Bool

pub record OauthExternal : Type 0 where
  pub sha256 : Text → Text
  pub gcm_seal : (nonce plain : Text) → Text
  pub gcm_open : (nonce sealed : Text) → Option Text
  pub parse_url : Text → Option Url
  pub equal_fold : Text → Text → Bool
  pub auth_code_url : (provider : String) (scopes : List Text) (state challenge : Text) → Text
  pub exchange : (provider : String) (code verifier : Text) → Option Token
  pub google_userinfo : (access_token : Text) → Option GoogleUser
  pub github_user : (access_token : Text) → Option GithubUser
  pub github_emails : (access_token : Text) → Option (List GithubEmail)
  pub refreshed : (access_token refresh_token : Text) → Option Token
  pub sql_lower : Text → Text
  pub collate : Text → Text → Bool

-- `OAuth`, with the scopes that are configured for the two providers.
pub record Oauth : Type 0 where
  pub google_scopes : List Text
  pub github_scopes : List Text
  pub allow : List Url
  pub ttl : ℕ

-- Twelve bytes.
abbrev pub nonce_size : ℕ
nonce_size = 12

module _ (ext : OauthExternal) where
  open ext use {sha256, gcm_seal, gcm_open, parse_url, equal_fold}

  -- `seal` with the fresh nonce, which stands before the ciphertext.
  unfoldable pub seal : (nonce plain : Text) → Text
  seal nonce plain = nonce ++ gcm_seal nonce plain

  -- `open`, of which every failure is `errDecrypt`.
  unfoldable pub unseal : Text → Option Text
  unseal sealed =
      if ltb (length sealed) nonce_size
      then none
      else gcm_open (take nonce_size sealed) (drop nonce_size sealed)

  unfoldable pub session_hash : (token : Text) → Option Text
  session_hash token = if token == [] then none else some (sha256 token)

  unfoldable pub code_challenge : (verifier : Text) → Text
  code_challenge verifier = encode_base64 (sha256 verifier)

  abbrev slash_ended : Text → Text
  slash_ended s = s ++ b'/' ∷ []

  abbrev path_allowed : (path base : Text) → Bool
  path_allowed path base =
      let prefix : Text = trim_right (λ c. c == b'/') base in
      path == base
      || ((not (prefix == []) && has_prefix (slash_ended prefix) path)
          || (prefix == [] && has_prefix (b'/' ∷ []) path))

  abbrev pub is_under : Url → Url → Bool
  is_under u base =
      equal_fold u.scheme base.scheme
      && (equal_fold u.host base.host && path_allowed u.path base.path)

  abbrev pub url_allowed : List Url → Option Url → Bool
  url_allowed allow none = false
  url_allowed allow (some u) =
      not (u.scheme == []) && (not u.has_user && (not (u.host == []) && any (is_under u) allow))

  -- `isAllowedRedirect`.
  unfoldable pub is_allowed_redirect : List Url → (callback_url : Text) → Bool
  is_allowed_redirect allow callback_url = url_allowed allow (parse_url callback_url)
