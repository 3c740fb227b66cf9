-- ===== src/Auth/Sessions.antt =====
-- The life of a session, and what a login needs.
use open_blog.Base.{
  ℕ, ◌+◌, ◌≡◌, refl, ◌⊎◌, inl, inr, sym, ap, Bool, false, not, ◌==◌, nat_eq, text_eq_instance,
  ==_refl, if◌then◌else◌, Option, none, some, List, [], ◌∷◌, Text, find, select, or_else, arith,
  ltb, Bool-cases,
}
use open_blog.Store.Errors.{Error, Result, ok, err, eq_of_ok}
use open_blog.Store.Rows.{Db, Session, User}
use open_blog.Store.Tx.{nil_id, scoped, scoped_rw, row}
use open_blog.Store.Tx.Laws.{scoped_rw-eq-ok}
use open_blog.Store.Accounts.{
  insert_session, has_hash, get_session_by_token_hash, delete_session_by_token_hash,
}
use open_blog.Store.Users.{get_user_by_email, has_email}
use open_blog.Auth.Service.{
  AuthExternal, issue, verify, logout, login, login_user, issue_for, tokened, normalize_email,
}

find-select-not :
    (p : Session → Bool) (xs : List Session) → find p (select (λ x. not (p x)) xs) ≡ none
find-select-not p [] = refl
find-select-not p (x ∷ xs) = ground (arith, find-select-not p xs)

-- A refused login.
abbrev pub IsRefused : AuthExternal → (password : Text) → Option User → Type 0
IsRefused ext password none = Unit {0}
IsRefused ext password (some u) =
    (u.password_hash ≡ none)
    ⊎ ((stored : Text) × (u.password_hash ≡ some stored)
        × (ext.verify_password stored password ≡ false))

module _ (ext : AuthExternal) where
  open ext use {token_hash, sql_lower}

  tokened-eq-ok :
      (token : Text) (r : Result (Unit {0}) × Db) {out : Text} {db' : Db}
      → tokened token r ≡ (ok out, db')
      → (out ≡ token) × (r ≡ (ok tt, db'))
  tokened-eq-ok token (ok u, db) h =
      (sym (eq_of_ok (ap (λ p. p.0) h)), ap (λ d. (ok tt, d)) (ap (λ p. p.1) h))
  tokened-eq-ok token (err e, db) h = cc (ap (λ p. p.0) h)

  inserted-eq-ok :
      (s : Session) {u : Unit {0}} (db db' : Db)
      → insert_session s db ≡ ok (u, db')
      → db' ≡ record db { sessions = s ∷ db.sessions }
  unfolding insert_session
  inserted-eq-ok s db db' h = ground arith

  abbrev new_session : (now user ttl : ℕ) → Option ℕ → Text → Session
  new_session now user ttl scope token = record {
    token_hash = token_hash token;
    user_id = user;
    scope = scope;
    expires_at = now + ttl;
  }

  refused_user :
      (password : Text) (o : Option User)
      → IsRefused ext password o
      → login_user ext password (row o) ≡ err Error.invalid_credentials
  refused_user password none h = refl
  refused_user password (some u) (inl e) = rw e refl
  refused_user password (some u) (inr (stored, e, f)) = rw (e, f) refl

  -- A session that was issued is verified, with its user and scope, until its time is over, and is
  -- expired from then on; the token that is given is the one that was minted.
  pub issue-verify :
      (now later user ttl : ℕ) (scope : Option ℕ) (token out : Text) (db db' : Db)
      → issue ext now user ttl scope token db ≡ (ok out, db')
      → (out ≡ token)
        × (verify ext later out db' ≡ (
            if ltb later (now + ttl)
            then ok (user, or_else scope nil_id)
            else err Error.session_expired))
  unfolding issue verify get_session_by_token_hash scoped
  issue-verify now later user ttl scope token out db db' h = elim (Bool-cases (user == nil_id)) [
    | inl z ↦ absurd (cc (ap (λ p. p.0) (rw z at h)))
    | inr z ↦
        let (o, k) =
          tokened-eq-ok token (scoped_rw (insert_session (new_session now user ttl scope token)) db)
            (rw z at h) in
        let w =
          inserted-eq-ok (new_session now user ttl scope token) db db' (scoped_rw-eq-ok _ k) in
        (o, rw (o, w) (rw (==_refl (token_hash token)) refl))
  ]

  -- After a logout the token has no session.
  pub logout-verify :
      (token : Text) (later : ℕ) (db : Db)
      → ((logout ext token db).0 ≡ ok tt)
        × (verify ext later token (logout ext token db).1 ≡ err Error.no_session)
  unfolding logout verify scoped_rw delete_session_by_token_hash get_session_by_token_hash scoped
  logout-verify token later db =
      (refl, rw (find-select-not (has_hash (token_hash token)) db.sessions) refl)

  -- An unknown address, an account without a password and a wrong password are refused alike, with
  -- `ErrInvalidCredentials`, and no session is made.
  pub login-IsRefused :
      (now : ℕ) (email password token : Text) (db : Db)
      → IsRefused ext password (find (has_email sql_lower (normalize_email ext email)) db.users)
      → login ext now email password token db ≡ (err Error.invalid_credentials, db)
  unfolding login get_user_by_email scoped
  login-IsRefused now email password token db h =
      ap (λ r. issue_for ext now token r db)
        (refused_user password (find (has_email sql_lower (normalize_email ext email)) db.users) h)
