-- ===== src/Oauth/Service.antt =====
-- internal/oauth/oauth.go: flows, callbacks and the tokens that they store.
use open_blog.Base.{
  ℕ, ◌+◌, not, ◌==◌, nat_eq, string_eq, text_eq_instance, if◌then◌else◌, Option, none, some, List,
  [], Text, String,
}
use open_blog.Store.Errors.{Error, Result, ok, err}
use open_blog.Store.Rows.{Db, OauthFlow, OauthToken}
use open_blog.Store.Tx.{scoped_rw}
use open_blog.Store.Oauth.{insert_oauth_flow, consume_oauth_flow, upsert_oauth_token}
use open_blog.Auth.Service.{AuthExternal, issue}
use open_blog.Oauth.Scopes.{merge_scopes, granted_scopes, google, github}
use open_blog.Oauth.External.{
  OauthExternal, Oauth, Claims, Token, seal, session_hash, code_challenge, is_allowed_redirect,
}
use open_blog.Oauth.Providers.{claims_of}
use open_blog.Oauth.Identities.{resolve_identity}

-- Fifteen minutes in nanoseconds.
abbrev pub flow_ttl : ℕ
flow_ttl = 900_000_000_000

-- What is new in a callback: the time, the id of a user, two nonces and the session's token.
pub record Fresh : Type 0 where
  pub now : ℕ
  pub user_id : ℕ
  pub access_nonce : Text
  pub refresh_nonce : Text
  pub session_token : Text

pub record CallbackResult : Type 0 where
  pub session_token : Text
  pub user_id : ℕ
  pub redirect : Text
  pub provider : String

-- The scopes of a provider that is configured: the two of `New`.
abbrev pub provider_scopes : Oauth → String → Option (List Text)
provider_scopes o name =
    if name == google
    then some o.google_scopes
    else if name == github
    then some o.github_scopes
    else none

abbrev pub scopes_or_none : Option (List Text) → List Text
scopes_or_none none = []
scopes_or_none (some ss) = ss

module _ (ext : OauthExternal) (auth_ext : AuthExternal) (o : Oauth) where
  open ext use {sha256, auth_code_url, exchange, sql_lower, collate}

  -- The row that `storeOAuthToken` writes: no refresh token is NULL.
  unfoldable pub token_row : (access_nonce refresh_nonce : Text) → ℕ → String → Token → OauthToken
  unfolding granted_scopes
  token_row access_nonce refresh_nonce user provider tok = record {
    user_id = user;
    provider = provider;
    refresh_token =
        if tok.refresh_token == [] then none else some (seal ext refresh_nonce tok.refresh_token);
    access_token = seal ext access_nonce tok.access_token;
    token_scopes = granted_scopes provider tok.scope (scopes_or_none (provider_scopes o provider));
    token_expiry = tok.expiry;
  }

  unfoldable pub store_oauth_token :
      (access_nonce refresh_nonce : Text) → ℕ → String → Token → Db → Result (Unit {0}) × Db
  unfolding token_row
  store_oauth_token access_nonce refresh_nonce user provider tok db =
      scoped_rw
        (upsert_oauth_token collate (token_row access_nonce refresh_nonce user provider tok)) db

  abbrev pub started : Text → Result (Unit {0}) × Db → Result Text × Db
  started url (ok _, db) = (ok url, db)
  started url (err e, db) = (err e, db)

  abbrev pub start_with :
      (now id : ℕ) (state verifier : Text)
      → String
      → (redirect session_token : Text) → (extra : List Text) → Option (List Text)
      → Db
      → Result Text × Db
  start_with now id state verifier provider redirect session_token extra none db =
      (err Error.unknown_provider, db)
  start_with now id state verifier provider redirect session_token extra (some scopes) db =
      if not (is_allowed_redirect ext o.allow redirect)
      then (err Error.disallowed_redirect, db)
      else started
          (auth_code_url provider (merge_scopes scopes extra) state (code_challenge ext verifier))
          (scoped_rw
            (insert_oauth_flow (record {
              id = id;
              provider = provider;
              state = sha256 state;
              code_verifier = verifier;
              redirect = redirect;
              session_token_hash = session_hash ext session_token;
              expires_at = now + flow_ttl;
            }))
            db)

  -- `Start`, with the time, the new id and the random state and verifier.
  unfoldable pub start :
      (now id : ℕ) (state verifier : Text)
      → String
      → (redirect session_token : Text) → (extra : List Text) → Db
      → Result Text × Db
  unfolding merge_scopes is_allowed_redirect session_hash code_challenge
  start now id state verifier provider redirect session_token extra db =
      start_with now id state verifier provider redirect session_token extra
        (provider_scopes o provider) db

  abbrev pub issued : OauthFlow → ℕ → Result Text × Db → Result CallbackResult × Db
  issued flow user (err e, db) = (err e, db)
  issued flow user (ok session, db) = (
    ok (record {
      session_token = session;
      user_id = user;
      redirect = flow.redirect;
      provider = flow.provider;
    }),
    db,
  )

  abbrev pub with_stored :
      Fresh → OauthFlow → ℕ → Result (Unit {0}) × Db → Result CallbackResult × Db
  with_stored fresh flow user (err e, db) = (err e, db)
  with_stored fresh flow user (ok _, db) =
      issued flow user (issue auth_ext fresh.now user o.ttl none fresh.session_token db)

  abbrev pub with_user : Fresh → OauthFlow → Token → Result ℕ × Db → Result CallbackResult × Db
  with_user fresh flow tok (err e, db) = (err e, db)
  with_user fresh flow tok (ok user, db) =
      with_stored fresh flow user
        (store_oauth_token fresh.access_nonce fresh.refresh_nonce user flow.provider tok db)

  abbrev pub with_claims :
      Fresh → OauthFlow → Token → Option Claims → Db → Result CallbackResult × Db
  with_claims fresh flow tok none db = (err Error.identity_claims, db)
  with_claims fresh flow tok (some c) db =
      with_user fresh flow tok
        (resolve_identity ext auth_ext o fresh.now fresh.user_id flow.provider c db)

  abbrev pub with_token : Fresh → OauthFlow → Option Token → Db → Result CallbackResult × Db
  with_token fresh flow none db = (err Error.exchange_failed, db)
  with_token fresh flow (some tok) db =
      with_claims fresh flow tok (claims_of ext flow.provider tok.access_token) db

  abbrev pub with_provider :
      Fresh → (code : Text) → OauthFlow → Option (List Text) → Db → Result CallbackResult × Db
  with_provider fresh code flow none db = (err Error.unknown_provider, db)
  with_provider fresh code flow (some _) db =
      if code == []
      then (err Error.provider_denied, db)
      else with_token fresh flow (exchange flow.provider code flow.code_verifier) db

  abbrev pub with_flow : Fresh → (code : Text) → Result OauthFlow × Db → Result CallbackResult × Db
  with_flow fresh code (err Error.no_rows, db) = (err Error.invalid_flow, db)
  with_flow fresh code (err e, db) = (err e, db)
  with_flow fresh code (ok flow, db) =
      with_provider fresh code flow (provider_scopes o flow.provider) db

  -- `Callback`.
  unfoldable pub callback :
      Fresh → (state code session_token : Text) → Db → Result CallbackResult × Db
  unfolding resolve_identity store_oauth_token session_hash
  callback fresh state code session_token db =
      with_flow fresh code (
        scoped_rw (consume_oauth_flow fresh.now (sha256 state) (session_hash ext session_token)) db)
