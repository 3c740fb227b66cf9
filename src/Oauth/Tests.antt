-- ===== src/Oauth/Tests.antt =====
-- Examples for logins by OAuth.
use open_blog.Base.{
  ℕ, ◌≡◌, refl, arith, Bool, true, false, ◌||◌, Option, none, some, List, [], ◌∷◌, ◌++◌, Text,
  codes, String, elem, find, text_eq_instance,
}
use open_blog.Store.Errors.{Error, err}
use open_blog.Store.Rows.{Db, OauthFlow}
use open_blog.Store.Oauth.{is_identity, merged_scopes}
use open_blog.Auth.Service.{AuthExternal}
use open_blog.Samples.{sample_db, sample_user}
use open_blog.Base.Int.{pos}
use open_blog.Oauth.External.{
  GithubEmail, OauthExternal, Oauth, Url, Claims, Token, is_allowed_redirect,
}
use open_blog.Oauth.Scopes.{merge_scopes, scope_set, google}
use open_blog.Oauth.Identities.{resolve_identity}
use open_blog.Oauth.Service.{Fresh, start, callback, store_oauth_token}
use open_blog.Oauth.Tokens.{get_google_token}
use open_blog.Oauth.Providers.{claims_of}
use open_blog.Oauth.Verified.{IsListed, claims_of-IsListed}
use open_blog.Oauth.Flows.{IsGuarded, IsSafe, callback-once, redirects-IsGuarded}
use open_blog.Oauth.Ownership.{IsEntitled, IsStill, IsOwned, resolve_identity-IsOwned}
use open_blog.Oauth.TokenLaws.{store_oauth_token-get_google_token}

abbrev app_url : Url
app_url = record {
  scheme = codes "https";
  host = codes "app";
  path = codes "/in";
  has_user = false;
}

abbrev ada : Claims
ada = record {
  subject = codes "s1";
  email = codes "ada@x";
  email_verified = true;
  display_name = [];
}

abbrev granted : Token
granted = record {
  access_token = codes "at";
  refresh_token = codes "rt";
  expiry = some 900_000_000_000;
  scope = none;
}

abbrev two_emails : List GithubEmail
two_emails =
    record { email = codes "old@x"; primary = false; verified = true }
    ∷ record { email = codes "ada@x"; primary = true; verified = true }
    ∷ []

-- Every address is the one on the allow-list, and the provider answers with one token and one identity.
abbrev ext : OauthExternal
ext = record {
  sha256 = λ s. b'#' ∷ s;
  gcm_seal = λ n p. p;
  gcm_open = λ n s. some s;
  parse_url = λ u. some app_url;
  equal_fold = λ s t. true;
  auth_code_url = λ p ss state challenge. state;
  exchange = λ p code verifier. some granted;
  google_userinfo = λ t.
      some (record { sub = codes "s1"; email = codes "ada@x"; email_verified = true; name = [] });
  github_user = λ t. some (record { id = pos 5; login = codes "ada"; name = []; email = [] });
  github_emails = λ t. some (two_emails);
  refreshed = λ a r. none;
  sql_lower = λ s. s;
  collate = λ s t. true;
}

abbrev auth_ext : AuthExternal
auth_ext = record {
  token_hash = λ t. t;
  verify_password = λ e p. false;
  hash_password = λ p. p;
  sql_lower = λ s. s;
  lower_table = λ c. c;
}

abbrev both : Oauth
both = record {
  google_scopes = codes "email" ∷ [];
  github_scopes = codes "read:user" ∷ [];
  allow = app_url ∷ [];
  ttl = 1000;
}

abbrev nonce : Text
nonce = codes "abcdefghijkl"

abbrev fresh : Fresh
fresh = record {
  now = 5;
  user_id = 77;
  access_nonce = nonce;
  refresh_nonce = nonce;
  session_token = codes "sess";
}

abbrev begun : OauthFlow
begun = record {
  id = 1;
  provider = "google";
  state = codes "#st";
  code_verifier = codes "v";
  redirect = codes "https://app/in";
  session_token_hash = none;
  expires_at = 100;
}

abbrev begun_db : Db
begun_db = record sample_db { flows = begun ∷ [] }

callback-once_example :
    callback ext auth_ext both fresh
      (codes "st")
      (codes "c2")
      []
      (callback ext auth_ext both fresh (codes "st") (codes "c") [] begun_db).1
    ≡ (
      err Error.invalid_flow,
      (callback ext auth_ext both fresh (codes "st") (codes "c") [] begun_db).1,
    )
callback-once_example =
    callback-once ext auth_ext both fresh fresh (codes "st") (codes "c") (codes "c2") [] begun_db
      (omega arith)

redirects-IsGuarded_example :
    IsGuarded ext auth_ext both
      (start ext auth_ext both 4 2
        (codes "st2")
        (codes "v2")
        "github"
        (codes "https://app/in")
        []
        []
        begun_db).1
    × IsGuarded ext auth_ext both
        (callback ext auth_ext both fresh (codes "st") (codes "c") [] begun_db).1
    × IsSafe ext auth_ext both
        (callback ext auth_ext both fresh (codes "st") (codes "c") [] begun_db).0
unfolding is_allowed_redirect open_blog.Base.text_eq open_blog.Base.trim_right
    open_blog.Base.trim_left open_blog.Base.has_prefix
redirects-IsGuarded_example =
    redirects-IsGuarded ext auth_ext both 4 2 (codes "st2") (codes "v2") "github"
      (codes "https://app/in") [] fresh (codes "st") (codes "c") [] begun_db (refl, tt)

abbrev ada_db : Db
ada_db = record sample_db {
  users =
      record {
        id = 77;
        email = codes "ada@x";
        password_hash = none;
        display_name = codes "ada";
        super_admin = false;
      }
      ∷ sample_user 10 true
      ∷ sample_user 11 false
      ∷ sample_user 12 false
      ∷ [];
  identities = record { provider = "google"; subject = codes "s1"; user_id = 77 } ∷ [];
}

resolve_identity-IsOwned_example :
    IsEntitled ext auth_ext both 77 google ada 77 sample_db
    × IsOwned google (codes "s1") 77 ada_db
    × ((p : String) (s : Text)
        → IsStill
            (find (is_identity p s) sample_db.identities)
            (find (is_identity p s) ada_db.identities))
unfolding resolve_identity open_blog.Store.Tx.◌>>=◌ open_blog.Base.text_eq
    open_blog.Store.Tx.scoped_rw open_blog.Store.Oauth.get_identity
    open_blog.Auth.Service.normalize_email open_blog.Base.to_lower open_blog.Base.trim_space
    open_blog.Store.Users.get_user_by_email open_blog.Store.Users.create_user
    open_blog.Store.Oauth.insert_identity open_blog.Store.Oauth.consume_pending_invitation
    open_blog.Oauth.Identities.display_name open_blog.Auth.Service.before_at
resolve_identity-IsOwned_example =
    resolve_identity-IsOwned ext auth_ext both 5 77 google ada 77 sample_db ada_db refl

abbrev stored_db : Db
stored_db = record ada_db {
  tokens =
      record {
        user_id = 77;
        provider = "google";
        refresh_token = some (nonce ++ codes "rt");
        access_token = nonce ++ codes "at";
        token_scopes = codes "email";
        token_expiry = some 900_000_000_000;
      }
      ∷ [];
}

-- The Drive scope is wanted and was not granted.
store_oauth_token-get_google_token_example :
    get_google_token ext auth_ext both 6 nonce nonce 77 true stored_db
    ≡ (err Error.scope_missing, stored_db)
unfolding store_oauth_token open_blog.Store.Tx.scoped_rw open_blog.Store.Oauth.upsert_oauth_token
    open_blog.Oauth.Scopes.granted_scopes open_blog.Base.text_eq open_blog.Oauth.External.seal
    open_blog.Base.join open_blog.Oauth.Scopes.scope_set open_blog.Base.split
    open_blog.Base.split_from
store_oauth_token-get_google_token_example =
    store_oauth_token-get_google_token ext auth_ext both (record { opened = λ n p. refl }) nonce
      nonce nonce nonce 77 6 900_000_000_000 true granted ada_db stored_db refl refl (omega arith)
      refl

claims_of-IsListed_example : IsListed two_emails (record {
  subject = codes "5";
  email = codes "ada@x";
  email_verified = true;
  display_name = codes "ada";
})
unfolding claims_of open_blog.Base.Int.int_text
claims_of-IsListed_example =
    claims_of-IsListed ext (codes "t")
      (record { id = pos 5; login = codes "ada"; name = []; email = [] }) two_emails
      (record {
        subject = codes "5";
        email = codes "ada@x";
        email_verified = true;
        display_name = codes "ada";
      })
      refl refl refl
