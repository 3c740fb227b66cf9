-- ===== src/Oauth/Tokens.antt =====
-- internal/oauth/tokens.go: `GetGoogleToken`.
use open_blog.Base.{
  ℕ, ◌+◌, Bool, false, not, ◌&&◌, ◌==◌, text_eq_instance, if◌then◌else◌, Option, none, some, [],
  Text, ltb, elem,
}
use open_blog.Store.Errors.{Error, Result, ok, err}
use open_blog.Store.Rows.{Db, OauthToken}
use open_blog.Store.Tx.{no_rows_as, scoped}
use open_blog.Store.Oauth.{get_oauth_token_by_user}
use open_blog.Auth.Service.{AuthExternal}
use open_blog.Oauth.Scopes.{scope_set, google, drive_readonly}
use open_blog.Oauth.External.{OauthExternal, Oauth, Token, unseal}
use open_blog.Oauth.Service.{store_oauth_token}

-- Thirty seconds.
abbrev pub refresh_margin : ℕ
refresh_margin = 30_000_000_000

abbrev pub is_fresh : (now : ℕ) → Option ℕ → Bool
is_fresh now none = false
is_fresh now (some expiry) = ltb (now + refresh_margin) expiry

module _ (ext : OauthExternal) (auth_ext : AuthExternal) (o : Oauth) (now : ℕ)
    (access_nonce refresh_nonce : Text) (user : ℕ) where
  abbrev stored_as : Text → Result (Unit {0}) × Db → Result Text × Db
  stored_as access (err e, db) = (err e, db)
  stored_as access (ok _, db) = (ok access, db)

  abbrev with_new : Option Token → Db → Result Text × Db
  with_new none db = (err Error.refresh_failed, db)
  with_new (some tok) db =
      if tok.access_token == []
      then (err Error.refresh_failed, db)
      else stored_as tok.access_token
          (store_oauth_token ext auth_ext o access_nonce refresh_nonce user google tok db)

  abbrev with_refresh : (access : Text) → Option Text → Db → Result Text × Db
  with_refresh access none db = (err Error.decrypt_failed, db)
  with_refresh access (some refresh) db = with_new (ext.refreshed access refresh) db

  abbrev refreshing : (access : Text) → Option Text → Db → Result Text × Db
  refreshing access none db = (err Error.refresh_failed, db)
  refreshing access (some sealed) db =
      if sealed == []
      then (err Error.refresh_failed, db)
      else with_refresh access (unseal ext sealed) db

  abbrev with_access : OauthToken → Option Text → Db → Result Text × Db
  with_access stored none db = (err Error.decrypt_failed, db)
  with_access stored (some access) db =
      if is_fresh now stored.token_expiry
      then (ok access, db)
      else refreshing access stored.refresh_token db

  abbrev with_token : (want_drive : Bool) → Result OauthToken → Db → Result Text × Db
  with_token want_drive (err e) db = (err e, db)
  with_token want_drive (ok stored) db =
      if want_drive && not (elem drive_readonly (scope_set stored.token_scopes))
      then (err Error.scope_missing, db)
      else with_access stored (unseal ext stored.access_token) db

  -- `GetGoogleToken`: Google is always configured.
  unfoldable pub get_google_token : (want_drive : Bool) → Db → Result Text × Db
  unfolding scope_set unseal store_oauth_token
  get_google_token want_drive db =
      with_token want_drive
        (no_rows_as Error.no_token (scoped (get_oauth_token_by_user user google) db)) db
