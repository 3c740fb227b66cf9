-- ===== src/Api/Session.antt =====
-- internal/api/middleware.go: who asks; and the handlers of internal/api/handlers.go for sign-up, login, logout,
-- the active tenant and OAuth. `MembershipViews` of `handleMe` orders by a column that the rows do not hold.
use open_blog.Base.{
  ℕ, Bool, true, false, not, ◌&&◌, ◌||◌, ◌==◌, nat_eq, text_eq_instance, if◌then◌else◌, Option,
  none, some, [], Text, String, codes, string_eq, ltb, length, take, drop, folds_to, trim_space,
  or_else,
}
use open_blog.Store.Errors.{Error, Result, ok, err}
use open_blog.Store.Rows.{Db}
use open_blog.Store.Tx.{nil_id, scoped}
use open_blog.Store.Accounts.{membership_role, set_session_scope}
use open_blog.Authz.Roles.{Actor, author, resolve_actor}
use open_blog.Auth.Service.{AuthExternal, verify, login, logout, signup}
use open_blog.Oauth.External.{OauthExternal, Oauth}
use open_blog.Oauth.Service.{Fresh, CallbackResult, start, callback}
use open_blog.Api.Replies.{
  Reply, Body, Handler, Parsed, gate, when, with_request, commit, replied, invalid, answer,
  error_reply, service_error,
}

-- The headers that carry a token.
pub record Credentials : Type 0 where
  pub authorization : Text
  pub cookie : Option Text

-- `sessionToken`.
unfoldable pub session_token : Credentials → Text
session_token c =
    if ltb 7 (length c.authorization) && folds_to (take 7 c.authorization) (codes "bearer ")
    then trim_space (drop 7 c.authorization)
    else or_else c.cookie []

-- A session without a tenant, of a user who is no super admin, has an actor of its own; any other error
-- admits nobody.
abbrev pub actor_or_session : (user tenant : ℕ) → Result Actor → Option Actor
actor_or_session user tenant (ok a) = some a
actor_or_session user tenant (err Error.not_member) =
    if tenant == nil_id
    then some (record { user_id = user; tenant = none; role = author; platform = false })
    else none
actor_or_session user tenant (err e) = none

abbrev pub actor_of : Db → Result (ℕ × ℕ) → Option Actor
actor_of db (ok (user, tenant)) =
    actor_or_session user tenant (scoped (resolve_actor user tenant) db)
actor_of db (err e) = none

abbrev pub unauthorized : Reply
unauthorized = error_reply 401 "unauthorized" (codes "unauthorized")

abbrev pub admitted : (Actor → Handler) → Option Actor → Handler
admitted h none db = (unauthorized, db)
admitted h (some a) db = h a db

pub record CredsRequest : Type 0 where
  pub email : Text
  pub password : Text

pub record StartRequest : Type 0 where
  pub provider : String
  pub redirect : Text

abbrev no_credentials : CredsRequest → Option Reply
no_credentials r =
    when (r.email == [] || r.password == []) (invalid "email and password are required")

abbrev pub signed_up : Result ℕ → Reply
signed_up (ok user) = answer 201 (Body.user_field user)
signed_up (err Error.invited) =
    error_reply 409 "conflict" (codes "auth: a pending invitation exists for this email")
signed_up (err Error.unique_violation) =
    error_reply 409 "conflict" (codes "email already registered")
signed_up (err e) = service_error e

abbrev pub logged_in : Result Text → Reply
logged_in (ok token) = record { status = 200; body = Body.token_field token; cookie = some token }
logged_in (err e) = error_reply 401 "unauthorized" (codes "invalid credentials")

abbrev pub is_refused : Result String → Bool
is_refused (ok role) = false
is_refused (err e) = true

abbrev pub scope_answer : (tenant : ℕ) → Result (Unit {0}) → Reply
scope_answer tenant (ok _) = answer 200 (Body.scope_field tenant)
scope_answer tenant (err e) = service_error e

module _ (auth_ext : AuthExternal) where
  open auth_ext use {token_hash}

  -- The actor of a request, where the middleware `auth` admits one.
  unfoldable pub authenticate : (now : ℕ) → Credentials → Db → Option Actor
  unfolding session_token resolve_actor
  authenticate now c db = actor_of db (verify auth_ext now (session_token c) db)

  -- `auth`.
  unfoldable pub with_session : (now : ℕ) → Credentials → (Actor → Handler) → Handler
  with_session now c h db = admitted h (authenticate now c db) db

  -- `handleSignup`, with the time and the new id.
  unfoldable pub handle_signup : (now id : ℕ) → Parsed CredsRequest → Handler
  unfolding gate when with_request
  handle_signup now id req = with_request req (λ r.
      gate (no_credentials r)
        (λ db. replied signed_up (signup auth_ext now id r.email r.password db)))

  -- `handleLogin`, with the time and the new token.
  unfoldable pub handle_login : (now : ℕ) (token : Text) → Parsed CredsRequest → Handler
  unfolding gate when with_request
  handle_login now token req = with_request req (λ r.
      gate (no_credentials r)
        (λ db. replied logged_in (login auth_ext now r.email r.password token db)))

  -- `handleLogout`: whatever comes of it, the cookie is cleared.
  unfoldable pub handle_logout : (token : Text) → Handler
  handle_logout token db =
      replied (λ r. record { status = 200; body = Body.all_right; cookie = some [] })
        (logout auth_ext token db)

  abbrev pub not_in : Actor → (tenant : ℕ) → Db → Bool
  not_in a tenant db = not a.platform && is_refused (scoped (membership_role a.user_id tenant) db)

  -- `handleSetTenant`.
  unfoldable pub handle_set_tenant : (token : Text) → Actor → Parsed ℕ → Handler
  unfolding gate when with_request commit
  handle_set_tenant token a req = with_request req (λ tenant.
      gate (when (tenant == nil_id) (invalid "tenant_id is required")) (λ db.
        gate
          (when (not_in a tenant db)
            (error_reply 403 "forbidden" (codes "not a member of this tenant")))
          (commit (scope_answer tenant) (set_session_scope (token_hash token) (some tenant))) db))

abbrev pub unconfigured : Reply
unconfigured = error_reply 404 "not_found" (codes "oauth not configured")

abbrev pub consent_url : Result Text → Reply
consent_url (ok url) = answer 200 (Body.url_field url)
consent_url (err e) = service_error e

abbrev pub called_back : Result CallbackResult → Reply
called_back (ok out) = record {
  status = 200;
  body = Body.signed_in out;
  cookie = some out.session_token;
}
called_back (err e) = service_error e

module _ (ext : OauthExternal) (auth_ext : AuthExternal) where
  -- `handleOAuthStart`, with the time, the new id, the state and the verifier.
  unfoldable pub handle_oauth_start :
      (now id : ℕ) (state verifier : Text)
      → Option Oauth
      → Credentials
      → Parsed StartRequest
      → Handler
  unfolding gate when with_request
  handle_oauth_start now id state verifier none c req db = (unconfigured, db)
  handle_oauth_start now id state verifier (some o) c req db =
      with_request req
        (λ r. gate (when (r.provider == "") (invalid "provider is required")) (λ db.
          replied consent_url (
            start ext auth_ext o now id state verifier r.provider r.redirect (session_token c) []
              db)))
        db

  -- `handleOAuthCallback`.
  unfoldable pub handle_oauth_callback :
      Fresh → Option Oauth → (state code : Text) → Credentials → Handler
  unfolding session_token
  handle_oauth_callback fresh none state code c db = (unconfigured, db)
  handle_oauth_callback fresh (some o) state code c db =
      replied called_back (callback ext auth_ext o fresh state code (session_token c) db)
