-- ===== src/Oauth/Ownership.antt =====
-- internal/oauth: whom a login by OAuth signs in.
use mathlib.Core.Path.{subst}
use open_blog.Base.{
  ℕ, ◌≡◌, ◌≢◌, text_eq, ◌⊎◌, refl, sym, ap, arith, true, not, ◌==◌, nat_eq, string_eq,
  text_eq_instance, Option, none, some, [], ◌∷◌, Text, String, find, &&-eq-true, ==_refl, inl, inr,
  nat_beq_iff,
}
use open_blog.Store.Errors.{Error, Result, ok, eq_of_ok}
use open_blog.Store.Rows.{Db, Identity, User}
use open_blog.Store.Tx.{row}
use open_blog.Store.Tx.Laws.{
  scoped_rw-eq-ok, >>=-eq-ok, read-bind-eq-ok, guard-bind-eq-ok, guard-eq-ok, pure-eq-ok,
}
use open_blog.Store.Oauth.{is_identity, get_identity, insert_identity}
use open_blog.Store.Users.{has_email, get_user_by_email}
use open_blog.Auth.Service.{AuthExternal, normalize_email}
use open_blog.Oauth.External.{OauthExternal, Oauth, Claims}
use open_blog.Oauth.Identities.{
  optional_result, optional, link_found, link_identity_tx, user_or_new, new_identity, by_identity,
  resolve_identity_tx, resolve_identity,
}
use open_blog.Oauth.Kept.{
  IsKept, IsKept-trans, insert_identity-rows, Keeps-consume, Keeps-join_invited,
  resolve_identity-IsKept,
}

optional_row : {A : Type 0} (o e : Option A) → optional_result (row o) ≡ ok e → o ≡ e
optional_row none e h = eq_of_ok h
optional_row (some a) e h = eq_of_ok h

filled-ne : (s : Text) → not (s == []) ≡ true → s ≢ []
unfolding text_eq
filled-ne [] h = absurd (ground arith)
filled-ne (c ∷ s) h = ground arith

-- What was there is there still.
abbrev pub IsStill : {A : Type 0} → Option A → Option A → Type 0
IsStill (some a) o = o ≡ some a
IsStill none o = Unit {0}

found-IsStill : {A : Type 0} (o o' : Option A) → ((a : A) → o ≡ some a → o' ≡ some a) → IsStill o o'
found-IsStill (some a) o' h = h a refl
found-IsStill none o' h = tt

-- The identity belongs to the user.
pub record IsOwned (provider : String) (subject : Text) (user : ℕ) (db : Db) : Type 0 where
  pub identity : Identity
  pub linked : find (is_identity provider subject) db.identities ≡ some identity
  pub owner : identity.user_id ≡ user

insert-IsOwned :
    (provider : String) (subject : Text) (user : ℕ) (u : Unit {0}) (db db' : Db)
    → insert_identity provider subject user db ≡ ok (u, db')
    → IsOwned provider subject user db'
insert-IsOwned provider subject user u db db' h = record {
  identity = record { provider = provider; subject = subject; user_id = user };
  linked =
      rw (insert_identity-rows provider subject user u db db' h, ==_refl provider, ==_refl subject)
        refl;
  owner = refl;
}

module _ (ext : OauthExternal) (auth_ext : AuthExternal) (o : Oauth) where
  link_found-IsOwned :
      (user : ℕ) (provider : String) (subject : Text) (e : Option Identity) (u : Unit {0})
      (db db' : Db)
      → find (is_identity provider subject) db.identities ≡ e
      → link_found ext auth_ext o user provider subject e db ≡ ok (u, db')
      → IsOwned provider subject user db'
  unfolding link_found
  link_found-IsOwned user provider subject none u db db' f h =
      insert-IsOwned provider subject user u db db' h
  link_found-IsOwned user provider subject (some i) u db db' f h =
      let (e, same) = guard-eq-ok (i.user_id == user) Error.identity_taken h in
      record { identity = i; linked = rw same f; owner = (nat_beq_iff i.user_id user).0 e }

  pub link-IsOwned :
      (user : ℕ) (provider : String) (subject : Text) (u : Unit {0}) (db db' : Db)
      → link_identity_tx ext auth_ext o user provider subject db ≡ ok (u, db')
      → IsOwned provider subject user db'
  unfolding link_identity_tx optional get_identity
  link-IsOwned user provider subject u db db' h =
      let (e, f, k) =
        read-bind-eq-ok (optional (get_identity provider subject))
          (link_found ext auth_ext o user provider subject) db h in
      link_found-IsOwned user provider subject e u db db' (optional_row _ e f) k

  -- The user of the address, or the new one.
  abbrev IsUserOf : (new_id : ℕ) → (email : Text) → (user : ℕ) → Db → Type 0
  IsUserOf new_id email user db =
      ((u : User) × (find (has_email ext.sql_lower email) db.users ≡ some u) × (u.id ≡ user))
      ⊎ ((find (has_email ext.sql_lower email) db.users ≡ none) × (user ≡ new_id))

  user_or_new-IsUserOf :
      (new_id : ℕ) (c : Claims) (email : Text) (e : Option User) (user : ℕ) (db db' : Db)
      → find (has_email ext.sql_lower email) db.users ≡ e
      → user_or_new ext auth_ext o new_id c email e db ≡ ok (user, db')
      → IsUserOf new_id email user db
  unfolding user_or_new
  user_or_new-IsUserOf new_id c email none user db db' f h =
      let (_, db1, _, k) = >>=-eq-ok _ _ db h in
      let (same, _) = pure-eq-ok new_id db1 k in inr (f, same)
  user_or_new-IsUserOf new_id c email (some u) user db db' f h =
      let (same, _) = pure-eq-ok u.id db h in inl (u, f, sym same)

  -- The user owned the identity, or an address that the provider has verified led to the user.
  abbrev pub IsEntitled : (new_id : ℕ) → String → Claims → (user : ℕ) → Db → Type 0
  IsEntitled new_id provider c user db =
      IsOwned provider c.subject user db
      ⊎ ((find (is_identity provider c.subject) db.identities ≡ none)
          × (c.email_verified ≡ true)
          × (normalize_email auth_ext c.email ≢ [])
          × IsUserOf new_id (normalize_email auth_ext c.email) user db)

  kept-IsOwned :
      (provider : String) (subject : Text) (user : ℕ) (db db' : Db)
      → IsKept db db'
      → IsOwned provider subject user db
      → IsOwned provider subject user db'
  kept-IsOwned provider subject user db db' k w = record {
    identity = w.identity;
    linked = k.owners provider subject w.identity w.linked;
    owner = w.owner;
  }

  new_identity-IsOwned :
      (now new_id : ℕ) (provider : String) (c : Claims) (user : ℕ) (db db' : Db)
      → find (is_identity provider c.subject) db.identities ≡ none
      → new_identity ext auth_ext o now new_id provider c db ≡ ok (user, db')
      → IsEntitled new_id provider c user db × IsOwned provider c.subject user db'
  unfolding new_identity optional get_user_by_email
  new_identity-IsOwned now new_id provider c user db db' n h =
      let email : Text = normalize_email auth_ext c.email in
      let (v, h1) = guard-bind-eq-ok _ _ _ db h in
      let (e, f, h2) = read-bind-eq-ok (optional (get_user_by_email ext.sql_lower email)) _ db h1 in
      let (who, db1, g, h3) = >>=-eq-ok _ _ db h2 in
      let (u, db2, l, h4) = >>=-eq-ok _ _ db1 h3 in
      let (i, db3, m, h5) = >>=-eq-ok _ _ db2 h4 in
      let (u', db4, j, h6) = >>=-eq-ok _ _ db3 h5 in
      let (same, end) = pure-eq-ok who db4 h6 in
      let (verified, filled) = &&-eq-true c.email_verified _ v in
      let kept : IsKept db2 db4 =
        IsKept-trans db2 db3 db4 ((Keeps-consume ext auth_ext o now email).keeps db2 i db3 m)
          ((Keeps-join_invited ext auth_ext o who i).keeps db3 u' db4 j) in
      (
        inr (
          n,
          verified,
          filled-ne email filled,
          subst (λ x. IsUserOf new_id email x db) (sym same)
              (user_or_new-IsUserOf new_id c email e who db db1 (optional_row _ e f) g),
        ),
        subst (λ d. IsOwned provider c.subject user d) (sym end)
            (subst (λ x. IsOwned provider c.subject x db4) (sym same)
              (kept-IsOwned provider c.subject who db2 db4 kept
                (link-IsOwned who provider c.subject u db1 db2 l))),
      )

  by_identity-IsOwned :
      (now new_id : ℕ) (provider : String) (c : Claims) (e : Option Identity) (user : ℕ)
      (db db' : Db)
      → find (is_identity provider c.subject) db.identities ≡ e
      → by_identity ext auth_ext o now new_id provider c e db ≡ ok (user, db')
      → IsEntitled new_id provider c user db × IsOwned provider c.subject user db'
  unfolding by_identity
  by_identity-IsOwned now new_id provider c none user db db' f h =
      new_identity-IsOwned now new_id provider c user db db' f h
  by_identity-IsOwned now new_id provider c (some i) user db db' f h =
      let (same, end) = pure-eq-ok i.user_id db h in
      let owned : IsOwned provider c.subject user db = record {
        identity = i;
        linked = f;
        owner = sym same;
      } in
      (inl owned, subst (λ d. IsOwned provider c.subject user d) (sym end) owned)

  -- A successful login by OAuth signs in the user who owned the identity, or, for an identity that nobody
  -- owned, only with an address that the provider has verified and that is not empty: the user of this
  -- address, or a new user where the address has none. Afterwards the identity is this user's, and no
  -- other identity has another owner than before.
  pub resolve_identity-IsOwned :
      (now new_id : ℕ) (provider : String) (c : Claims) (user : ℕ) (db db' : Db)
      → resolve_identity ext auth_ext o now new_id provider c db ≡ (ok user, db')
      → IsEntitled new_id provider c user db
        × IsOwned provider c.subject user db'
        × ((p : String) (s : Text)
            → IsStill
                (find (is_identity p s) db.identities)
                (find (is_identity p s) db'.identities))
  unfolding resolve_identity resolve_identity_tx optional get_identity
  resolve_identity-IsOwned now new_id provider c user db db' h =
      let k : IsKept db db' =
        subst (λ x. IsKept db x) (ap (λ (x : Result ℕ × Db). x.1) h)
          (resolve_identity-IsKept ext auth_ext o now new_id provider c db) in
      let (e, f, h1) =
        read-bind-eq-ok (optional (get_identity provider c.subject))
          (by_identity ext auth_ext o now new_id provider c) db (scoped_rw-eq-ok _ h) in
      let (a, b) =
        by_identity-IsOwned now new_id provider c e user db db' (optional_row _ e f) h1 in
      (
        a,
        b,
        λ p s.
            found-IsStill (find (is_identity p s) db.identities)
              (find (is_identity p s) db'.identities) (k.owners p s),
      )
