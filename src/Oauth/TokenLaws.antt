-- ===== src/Oauth/TokenLaws.antt =====
-- internal/oauth/tokens.go and internal/oauth/crypto.go: a stored token is given out again.
use mathlib.Core.Path.{subst}
use open_blog.Base.{
  none, not, ◌&&◌, ◌||◌, elem, sym, String, Bool-cases, ℕ, ◌+◌, ◌≡◌, ◌<◌, refl, ap, ◌∙◌, arith,
  Bool, true, false, nat_eq, string_eq, text_eq_instance, some, [], ◌∷◌, ◌++◌, Text, find, any,
  find-none, find-any, find-update_where, update_where, Option-cases, inl, inr, ==_refl, length,
  take, drop, ltb, if◌then◌else◌, length-append,
}
use open_blog.Store.Errors.{Error, ok, err}
use open_blog.Store.Rows.{Db, OauthToken}
use open_blog.Store.Tx.{scoped}
use open_blog.Store.Tx.Laws.{scoped_rw-eq-ok}
use open_blog.Store.Oauth.{is_token, renewed, upsert_oauth_token, get_oauth_token_by_user}
use open_blog.Auth.Service.{AuthExternal}
use open_blog.Oauth.Scopes.{google, drive_readonly, scope_set, granted_scopes}
use open_blog.Oauth.ScopeLaws.{merged_scopes-IsUnion}
use open_blog.Oauth.External.{OauthExternal, Oauth, Token, seal, unseal, nonce_size}
use open_blog.Oauth.Service.{store_oauth_token, token_row, scopes_or_none, provider_scopes}
use open_blog.Oauth.Tokens.{refresh_margin, is_fresh, get_google_token}

take-append : (s t : Text) → take (length s) (s ++ t) ≡ s
take-append [] t = refl
take-append (c ∷ s) t = ap (λ u. c ∷ u) (take-append s t)

drop-append : (s t : Text) → drop (length s) (s ++ t) ≡ t
drop-append [] t = refl
drop-append (c ∷ s) t = drop-append s t

-- What the program relies on of AES-GCM: what was sealed under a nonce is opened under it.
pub record IsSealed (ext : OauthExternal) : Type 0 where
  pub opened : (nonce plain : Text) → ext.gcm_open nonce (ext.gcm_seal nonce plain) ≡ some plain

unseal-seal :
    (ext : OauthExternal)
    → IsSealed ext
    → (nonce plain : Text) → length nonce ≡ nonce_size
    → unseal ext (seal ext nonce plain) ≡ some plain
unfolding unseal seal
unseal-seal ext law nonce plain h =
    let sealed : Text = ext.gcm_seal nonce plain in
    let long : ltb (length (nonce ++ sealed)) nonce_size ≡ false =
      ground (arith, length-append nonce sealed) in
    let front : take nonce_size (nonce ++ sealed) ≡ nonce =
      subst (λ n. take n (nonce ++ sealed) ≡ nonce) h (take-append nonce sealed) in
    let rest : drop nonce_size (nonce ++ sealed) ≡ sealed =
      subst (λ n. drop n (nonce ++ sealed) ≡ sealed) h (drop-append nonce sealed) in
    rw (long, front, rest) (law.opened nonce plain)

-- The scope is recorded with the user's token of the provider.
abbrev pub is_recorded : ℕ → String → (scope : Text) → Db → Bool
is_recorded user provider scope db = elim (find (is_token user provider) db.tokens) [
  | none ↦ false
  | some row ↦ elem scope (scope_set row.token_scopes)
]

-- The row that an upsert leaves has the new access token and expiry, and the scopes of the new token and
-- of the row before.
record IsStored (t : OauthToken) (before db : Db) : Type 0 where
  row : OauthToken
  found : find (is_token t.user_id t.provider) db.tokens ≡ some row
  scopes :
      (scope : Text)
      → elem scope (scope_set row.token_scopes)
        ≡ (is_recorded t.user_id t.provider scope before || elem scope (scope_set t.token_scopes))
  access : row.access_token ≡ t.access_token
  expiry : row.token_expiry ≡ t.token_expiry

upsert-rows :
    (collate : Text → Text → Bool) (t : OauthToken) (u : Unit {0}) (db db' : Db)
    → upsert_oauth_token collate t db ≡ ok (u, db')
    → db'.tokens ≡ (
        if any (is_token t.user_id t.provider) db.tokens
        then update_where (is_token t.user_id t.provider) (renewed collate t) db.tokens
        else t ∷ db.tokens)
unfolding upsert_oauth_token
upsert-rows collate t u db db' h = ground arith

upsert-IsStored :
    (collate : Text → Text → Bool) (t : OauthToken) (u : Unit {0}) (db db' : Db)
    → upsert_oauth_token collate t db ≡ ok (u, db')
    → IsStored t db db'
upsert-IsStored collate t u db db' h =
    elim (Option-cases (find (is_token t.user_id t.provider) db.tokens)) [
      | inl e ↦ record {
        row = t;
        scopes = λ scope. rw (e, ◌||◌) refl;
        found =
            rw
              (
                upsert-rows collate t u db db' h,
                find-none (is_token t.user_id t.provider) db.tokens e,
                ==_refl t.user_id,
                ==_refl t.provider,
              )
              refl;
        access = refl;
        expiry = refl;
      }
      | inr (x, e) ↦ record {
        row = renewed collate t x;
        scopes = λ scope.
            rw (e, ◌||◌) (merged_scopes-IsUnion collate x.token_scopes t.token_scopes scope);
        found =
            rw
              (
                upsert-rows collate t u db db' h,
                find-any (is_token t.user_id t.provider) db.tokens e,
              )
              (find-update_where (is_token t.user_id t.provider) (renewed collate t) db.tokens x
                (λ y. refl) e);
        access = refl;
        expiry = refl;
      }
    ]

module _ (ext : OauthExternal) (auth_ext : AuthExternal) (o : Oauth) (law : IsSealed ext) where
  -- A Google token that was stored is given out again, without a call of Google and without a change, as
  -- long as it does not expire within the margin, whatever was stored for the user before; only where the
  -- Drive scope is wanted, and was granted neither with this token nor with what was stored for the user
  -- before, the answer is `ErrScopeMissing`. AES-GCM opens what it sealed under a nonce of twelve bytes.
  pub store_oauth_token-get_google_token :
      (access_nonce refresh_nonce n n' : Text) (user now expiry : ℕ) (want_drive : Bool)
      (tok : Token) (db db' : Db)
      → length access_nonce ≡ nonce_size
      → tok.expiry ≡ some expiry
      → now + refresh_margin < expiry
      → store_oauth_token ext auth_ext o access_nonce refresh_nonce user google tok db
        ≡ (ok tt, db')
      → get_google_token ext auth_ext o now n n' user want_drive db' ≡ (
        if want_drive
              && not (
                  is_recorded user google drive_readonly db
                  || elem drive_readonly (
                      scope_set (
                        granted_scopes google tok.scope
                          (scopes_or_none (provider_scopes o google)))))
            then err Error.scope_missing
            else ok tok.access_token,
        db',
      )
  unfolding store_oauth_token get_google_token get_oauth_token_by_user scoped token_row
  store_oauth_token-get_google_token access_nonce refresh_nonce n n' user now expiry want_drive tok
        db db' k e f h =
      let t : OauthToken = token_row ext auth_ext o access_nonce refresh_nonce user google tok in
      let s : IsStored t db db' = upsert-IsStored ext.collate t tt db db' (scoped_rw-eq-ok _ h) in
      let found : find (is_token user google) db'.tokens ≡ some s.row = s.found in
      let opened : unseal ext s.row.access_token ≡ some tok.access_token =
        ap (unseal ext) s.access ∙ unseal-seal ext law access_nonce tok.access_token k in
      let live : is_fresh now s.row.token_expiry ≡ true =
        ap (is_fresh now) (s.expiry ∙ e) ∙ ground arith in
      let scopes = s.scopes drive_readonly in
      elim (Bool-cases (want_drive && not (elem drive_readonly (scope_set s.row.token_scopes)))) [
        | inl b ↦ rw (found, b) (rw (sym scopes, b) refl)
        | inr b ↦ rw (found, b, opened, live) (rw (sym scopes, b) refl)
      ]
