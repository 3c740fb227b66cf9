-- ===== src/Oauth/Flows.antt =====
-- internal/oauth: a flow serves once, and only redirects on the allow-list are begun and come back.
use open_blog.Base.{
  ℕ, ◌≡◌, ◌≤◌, refl, sym, ap, ◌∙◌, arith, Bool, true, not, ◌==◌, nat_eq, text_eq_instance, Option,
  none, some, List, [], ◌∷◌, Text, String, find, select, All, All-select, All-find, Bool-cases,
  Option-cases, inl, inr,
}
use open_blog.Store.Errors.{Error, Result, ok, err, eq_of_ok}
use open_blog.Store.Rows.{Db, OauthFlow}
use open_blog.Store.Tx.{scoped_rw}
use open_blog.Store.Oauth.{is_flow, consume_oauth_flow, insert_oauth_flow}
use open_blog.Auth.Service.{AuthExternal, issue}
use open_blog.Oauth.External.{
  OauthExternal, Oauth, Claims, Token, is_allowed_redirect, session_hash,
}
use open_blog.Oauth.Identities.{resolve_identity}
use open_blog.Oauth.Providers.{claims_of}
use open_blog.Oauth.Service.{
  Fresh, CallbackResult, provider_scopes, store_oauth_token, issued, with_stored, with_user,
  with_claims, with_token, with_provider, callback, start, start_with, started,
}
use open_blog.Oauth.Kept.{issue-IsKept, resolve_identity-IsKept, store_oauth_token-IsKept}

module _ (ext : OauthExternal) (auth_ext : AuthExternal) (o : Oauth) (fresh : Fresh)
    (flow : OauthFlow) where
  -- What follows the flow leaves the flows alone, and a success has the flow's redirect.
  abbrev Follows : Db → Result CallbackResult × Db → Type 0
  Follows db (r, db') =
      (db'.flows ≡ db.flows) × ((out : CallbackResult) → r ≡ ok out → out.redirect ≡ flow.redirect)

  issued-Follows :
      (user : ℕ) (db : Db) (p : Result Text × Db)
      → p.1.flows ≡ db.flows
      → Follows db (issued ext auth_ext o flow user p)
  issued-Follows user db (err e, db') h = (h, λ out k. cc)
  issued-Follows user db (ok t, db') h = (h, λ out k. sym (ap (λ x. x.redirect) (eq_of_ok k)))

  with_stored-Follows :
      (user : ℕ) (db : Db) (p : Result (Unit {0}) × Db)
      → p.1.flows ≡ db.flows
      → Follows db (with_stored ext auth_ext o fresh flow user p)
  with_stored-Follows user db (err e, db') h = (h, λ out k. cc)
  with_stored-Follows user db (ok _, db') h =
      issued-Follows user db (issue auth_ext fresh.now user o.ttl none fresh.session_token db')
        ((issue-IsKept auth_ext fresh.now user o.ttl none fresh.session_token db').flows ∙ h)

  with_user-Follows :
      (tok : Token) (db : Db) (p : Result ℕ × Db)
      → p.1.flows ≡ db.flows
      → Follows db (with_user ext auth_ext o fresh flow tok p)
  with_user-Follows tok db (err e, db') h = (h, λ out k. cc)
  with_user-Follows tok db (ok user, db') h =
      with_stored-Follows user db
        (store_oauth_token ext auth_ext o fresh.access_nonce fresh.refresh_nonce user flow.provider
          tok db')
        ((store_oauth_token-IsKept ext auth_ext o fresh.access_nonce fresh.refresh_nonce user
            flow.provider tok db').flows
          ∙ h)

  with_claims-Follows :
      (tok : Token) (c : Option Claims) (db : Db)
      → Follows db (with_claims ext auth_ext o fresh flow tok c db)
  with_claims-Follows tok none db = (refl, λ out k. cc)
  with_claims-Follows tok (some c) db =
      with_user-Follows tok db
        (resolve_identity ext auth_ext o fresh.now fresh.user_id flow.provider c db)
        (resolve_identity-IsKept ext auth_ext o fresh.now fresh.user_id flow.provider c db).flows

  with_token-Follows :
      (tok : Option Token) (db : Db) → Follows db (with_token ext auth_ext o fresh flow tok db)
  with_token-Follows none db = (refl, λ out k. cc)
  with_token-Follows (some tok) db =
      with_claims-Follows tok (claims_of ext flow.provider tok.access_token) db

  with_provider-Follows :
      (code : Text) (ss : Option (List Text)) (db : Db)
      → Follows db (with_provider ext auth_ext o fresh code flow ss db)
  with_provider-Follows code none db = (refl, λ out k. cc)
  with_provider-Follows code (some ss) db = elim (Bool-cases (code == [])) [
    | inl e ↦ rw e (refl, λ out k. cc)
    | inr e ↦ rw e (with_token-Follows (ext.exchange flow.provider code flow.code_verifier) db)
  ]

module _ (ext : OauthExternal) (auth_ext : AuthExternal) (o : Oauth) where
  abbrev rest_of : (now : ℕ) (state session : Text) → List OauthFlow → List OauthFlow
  rest_of now state session fs =
      select (λ g. not (is_flow now (ext.sha256 state) (session_hash ext session) g)) fs

  select-none :
      (p : OauthFlow → Bool) (fs : List OauthFlow)
      → find p fs ≡ none
      → select (λ g. not (p g)) fs ≡ fs
  select-none p [] h = refl
  select-none p (f ∷ fs) h = elim (Bool-cases (p f)) [
    | inl e ↦ let k : some f ≡ none = rw e at h in cc
    | inr e ↦ rw e (ap (λ gs. f ∷ gs) (select-none p fs (rw e at h)))
  ]

  -- Expiry is for ever.
  find-rest :
      (now later : ℕ) (state session : Text) (fs : List OauthFlow)
      → now ≤ later
      → find
          (is_flow later (ext.sha256 state) (session_hash ext session))
          (rest_of now state session fs)
        ≡ none
  find-rest now later state session [] h = refl
  find-rest now later state session (f ∷ fs) h =
      ground (arith, find-rest now later state session fs)

  callback-flows :
      (fresh : Fresh) (state code session : Text) (db : Db)
      → (callback ext auth_ext o fresh state code session db).1.flows
        ≡ rest_of fresh.now state session db.flows
  unfolding callback consume_oauth_flow scoped_rw
  callback-flows fresh state code session db =
      elim (Option-cases
        (find (is_flow fresh.now (ext.sha256 state) (session_hash ext session)) db.flows)) [
          | inl e ↦ rw e (sym (select-none _ db.flows e))
          | inr (f, e) ↦ rw e (
              (with_provider-Follows ext auth_ext o fresh f code (provider_scopes o f.provider)
                _).0)
        ]

  -- A state serves one callback: whatever came of it, every later callback for the same state from the
  -- same session fails with `ErrInvalidFlow` and changes nothing.
  pub callback-once :
      (fresh later : Fresh) (state code code' session : Text) (db : Db)
      → fresh.now ≤ later.now
      → callback ext auth_ext o later state code' session
          (callback ext auth_ext o fresh state code session db).1
        ≡ (err Error.invalid_flow, (callback ext auth_ext o fresh state code session db).1)
  unfolding callback consume_oauth_flow scoped_rw
  callback-once fresh later state code code' session db h =
      rw
        (
          callback-flows fresh state code session db,
          find-rest fresh.now later.now state session db.flows h,
        )
        refl

  -- Every flow was begun for a redirect on the allow-list.
  abbrev pub IsGuarded : Db → Type 0
  IsGuarded db = All (λ f. is_allowed_redirect ext o.allow f.redirect ≡ true) db.flows

  insert-IsGuarded :
      (f : OauthFlow) (db : Db)
      → is_allowed_redirect ext o.allow f.redirect ≡ true
      → IsGuarded db
      → IsGuarded (scoped_rw (insert_oauth_flow f) db).1
  unfolding scoped_rw insert_oauth_flow
  insert-IsGuarded f db a g = ground arith

  started-db : (url : Text) (p : Result (Unit {0}) × Db) → (started ext auth_ext o url p).1 ≡ p.1
  started-db url (ok _, db) = refl
  started-db url (err e, db) = refl

  start_with-IsGuarded :
      (now id : ℕ) (state verifier : Text) (provider : String) (redirect session : Text)
      (extra : List Text) (ss : Option (List Text)) (db : Db)
      → IsGuarded db
      → IsGuarded
          (start_with ext auth_ext o now id state verifier provider redirect session extra ss db).1
  start_with-IsGuarded now id state verifier provider redirect session extra none db g = g
  start_with-IsGuarded now id state verifier provider redirect session extra (some ss) db g =
      elim (Bool-cases (is_allowed_redirect ext o.allow redirect)) [
        | inl e ↦ rw (e, started-db) (insert-IsGuarded _ db e g)
        | inr e ↦ rw e g
      ]

  callback-redirect :
      (fresh : Fresh) (state code session : Text) (out : CallbackResult) (db : Db)
      → IsGuarded db
      → (callback ext auth_ext o fresh state code session db).0 ≡ ok out
      → is_allowed_redirect ext o.allow out.redirect ≡ true
  unfolding callback consume_oauth_flow scoped_rw
  callback-redirect fresh state code session out db g h =
      elim (Option-cases
        (find (is_flow fresh.now (ext.sha256 state) (session_hash ext session)) db.flows)) [
          | inl e ↦ let k : err Error.invalid_flow ≡ ok out = rw e at h in cc
          | inr (f, e) ↦
              let k : out.redirect ≡ f.redirect =
                (with_provider-Follows ext auth_ext o fresh f code (provider_scopes o f.provider)
                    _).1
                  out (rw e at h) in
              rw k
                (All-find (λ x. is_allowed_redirect ext o.allow x.redirect ≡ true) _ db.flows g e)
        ]

  -- A success sends the user to a redirect on the allow-list.
  abbrev pub IsSafe : Result CallbackResult → Type 0
  IsSafe (ok out) = is_allowed_redirect ext o.allow out.redirect ≡ true
  IsSafe (err e) = Unit {0}

  result-IsSafe :
      (r : Result CallbackResult)
      → ((out : CallbackResult) → r ≡ ok out → is_allowed_redirect ext o.allow out.redirect ≡ true)
      → IsSafe r
  result-IsSafe (ok out) h = h out refl
  result-IsSafe (err e) h = tt

  -- That every stored flow has a redirect on the allow-list is kept by `Start` and by `Callback`, whether
  -- they succeed or not, and a successful `Callback` sends the user to a redirect on the allow-list.
  pub redirects-IsGuarded :
      (now id : ℕ) (raw verifier : Text) (provider : String) (redirect : Text) (extra : List Text)
      (fresh : Fresh) (state code session : Text) (db : Db)
      → IsGuarded db
      → IsGuarded (start ext auth_ext o now id raw verifier provider redirect session extra db).1
        × IsGuarded (callback ext auth_ext o fresh state code session db).1
        × IsSafe (callback ext auth_ext o fresh state code session db).0
  unfolding start
  redirects-IsGuarded now id raw verifier provider redirect extra fresh state code session db g = (
    start_with-IsGuarded now id raw verifier provider redirect session extra
        (provider_scopes o provider) db g,
    rw (callback-flows fresh state code session db) (All-select _ _ db.flows g),
    result-IsSafe _ (λ out h. callback-redirect fresh state code session out db g h),
  )
