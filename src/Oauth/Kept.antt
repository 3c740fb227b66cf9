-- ===== src/Oauth/Kept.antt =====
-- What every step of a login by OAuth keeps: the flows, and whom an identity belongs to.
use text.Mathlib.TextEquality.{eq_iff}
use open_blog.Base.{
  ℕ, ◌≡◌, refl, ap, ◌∙◌, arith, Bool, true, not, ◌&&◌, ◌==◌, nat_eq, string_eq, text_eq_instance,
  text_eq_iff, Option, none, some, [], ◌∷◌, Text, String, find, any, find-any, Bool-cases, inl, inr,
  &&-eq-true,
}
use open_blog.Store.Errors.{Error, Result, ok, err}
use open_blog.Store.Rows.{Db, Identity, Invitation, OauthToken, User, Session}
use open_blog.Store.Tx.{nil_id, Tx, ◌>>=◌}
use open_blog.Store.Tx.Laws.{
  Keeps, Keeps-read, Keeps-guard, Keeps-pure, Keeps-bind, Keeps-scoped_rw,
}
use open_blog.Store.Accounts.{add_membership_if_absent, insert_session}
use open_blog.Store.Users.{create_user, get_user_by_email}
use open_blog.Store.Oauth.{
  is_identity, insert_identity, consume_pending_invitation, claimed_invitation, upsert_oauth_token,
  first,
}
use open_blog.Auth.Service.{AuthExternal, issue, tokened, normalize_email}
use open_blog.Oauth.External.{OauthExternal, Oauth, Claims, Token}
use open_blog.Oauth.Identities.{
  optional, optional_end, optional_tx, link_found, link_identity_tx, user_or_new, join_invited,
  new_identity, by_identity, resolve_identity_tx, resolve_identity,
}
use open_blog.Oauth.Service.{store_oauth_token}

pub record IsKept (db db' : Db) : Type 0 where
  pub flows : db'.flows ≡ db.flows
  pub owners :
      (provider : String) (subject : Text) (i : Identity)
      → find (is_identity provider subject) db.identities ≡ some i
      → find (is_identity provider subject) db'.identities ≡ some i

pub IsKept-refl : (db : Db) → IsKept db db
IsKept-refl db = record { flows = refl; owners = λ p s i h. h }

pub IsKept-trans : (a b c : Db) → IsKept a b → IsKept b c → IsKept a c
IsKept-trans a b c h k = record {
  flows = k.flows ∙ h.flows;
  owners = λ p s i e. k.owners p s i (h.owners p s i e);
}

same-IsKept : (db db' : Db) → db'.flows ≡ db.flows → db'.identities ≡ db.identities → IsKept db db'
same-IsKept db db' f e = record { flows = f; owners = λ p s i h. ap (find (is_identity p s)) e ∙ h }

create_user-IsKept :
    (sql_lower : Text → Text) (id : ℕ) (email name : Text) (hash : Option Text) (u : Unit {0})
    (db db' : Db)
    → create_user sql_lower id email name hash db ≡ ok (u, db')
    → (db'.flows ≡ db.flows) × (db'.identities ≡ db.identities)
unfolding create_user
create_user-IsKept sql_lower id email name hash u db db' h = ground arith

add_membership-IsKept :
    (tenant user : ℕ) (role : String) (u : Unit {0}) (db db' : Db)
    → add_membership_if_absent tenant user role db ≡ ok (u, db')
    → (db'.flows ≡ db.flows) × (db'.identities ≡ db.identities)
unfolding add_membership_if_absent
add_membership-IsKept tenant user role u db db' h = ground arith

insert_session-IsKept :
    (s : Session) (u : Unit {0}) (db db' : Db)
    → insert_session s db ≡ ok (u, db')
    → (db'.flows ≡ db.flows) × (db'.identities ≡ db.identities)
unfolding insert_session
insert_session-IsKept s u db db' h = ground arith

upsert-IsKept :
    (collate : Text → Text → Bool) (t : OauthToken) (u : Unit {0}) (db db' : Db)
    → upsert_oauth_token collate t db ≡ ok (u, db')
    → (db'.flows ≡ db.flows) × (db'.identities ≡ db.identities)
unfolding upsert_oauth_token
upsert-IsKept collate t u db db' h = ground arith

claimed-IsKept :
    (lower : Text → Text) (now : ℕ) (o : Option Invitation) (i : Option Invitation) (db db' : Db)
    → optional_end db (claimed_invitation lower now db o) ≡ ok (i, db')
    → (db'.flows ≡ db.flows) × (db'.identities ≡ db.identities)
claimed-IsKept lower now none i db db' h = ground arith
claimed-IsKept lower now (some x) i db db' h = ground arith

pub insert_identity-rows :
    (provider : String) (subject : Text) (user : ℕ) (u : Unit {0}) (db db' : Db)
    → insert_identity provider subject user db ≡ ok (u, db')
    → db'.identities
      ≡ record { provider = provider; subject = subject; user_id = user } ∷ db.identities
unfolding insert_identity
insert_identity-rows provider subject user u db db' h = ground arith

insert_identity-flows :
    (provider : String) (subject : Text) (user : ℕ) (u : Unit {0}) (db db' : Db)
    → insert_identity provider subject user db ≡ ok (u, db')
    → db'.flows ≡ db.flows
unfolding insert_identity
insert_identity-flows provider subject user u db db' h = ground arith

-- A new identity is one that nobody had.
insert_identity-owners :
    (provider : String) (subject : Text) (user : ℕ) (u : Unit {0}) (db db' : Db)
    → insert_identity provider subject user db ≡ ok (u, db')
    → (p : String) (s : Text) (i : Identity) → find (is_identity p s) db.identities ≡ some i
    → find (is_identity p s) db'.identities ≡ some i
unfolding insert_identity
insert_identity-owners provider subject user u db db' h p s i e =
    elim (Bool-cases (provider == p && subject == s)) [
      | inl k ↦
          let (kp, ks) = &&-eq-true _ _ k in
          let taken : any (is_identity provider subject) db.identities ≡ true =
            rw ((eq_iff provider p).0 kp, (text_eq_iff subject s).0 ks)
              (find-any (is_identity p s) db.identities e) in
          let no : insert_identity provider subject user db ≡ err Error.unique_violation =
            rw taken in
          cc
      | inr k ↦ rw (insert_identity-rows provider subject user u db db' h, k) e
    ]

Keeps-same :
    {A : Type 0} (m : Tx A)
    → ((a : A) (db db' : Db)
        → m db ≡ ok (a, db')
        → (db'.flows ≡ db.flows) × (db'.identities ≡ db.identities))
    → Keeps IsKept m
Keeps-same m f = record {
  keeps = λ db a db' h. let (k, e) = f a db db' h in same-IsKept db db' k e;
}

Keeps-insert_identity :
    (provider : String) (subject : Text) (user : ℕ)
    → Keeps IsKept (insert_identity provider subject user)
Keeps-insert_identity provider subject user = record {
  keeps = λ db u db' h. record {
    flows = insert_identity-flows provider subject user u db db' h;
    owners = insert_identity-owners provider subject user u db db' h;
  };
}

tokened-IsKept :
    (token : Text) (db : Db) (p : Result (Unit {0}) × Db)
    → IsKept db p.1
    → IsKept db (tokened token p).1
tokened-IsKept token db (ok _, db') h = h
tokened-IsKept token db (err e, db') h = h

module _ (ext : OauthExternal) (auth_ext : AuthExternal) (o : Oauth) where
  abbrev bind :
      {A B : Type 0} (m : Tx A) (f : A → Tx B)
      → Keeps IsKept m
      → ((a : A) → Keeps IsKept (f a))
      → Keeps IsKept (m >>= f)
  bind m f = Keeps-bind IsKept IsKept-trans m f

  Keeps-link_found :
      (user : ℕ) (provider : String) (subject : Text) (i : Option Identity)
      → Keeps IsKept (link_found ext auth_ext o user provider subject i)
  unfolding link_found
  Keeps-link_found user provider subject none = Keeps-insert_identity provider subject user
  Keeps-link_found user provider subject (some i) = Keeps-guard IsKept IsKept-refl _ _

  pub Keeps-link :
      (user : ℕ) (provider : String) (subject : Text)
      → Keeps IsKept (link_identity_tx ext auth_ext o user provider subject)
  unfolding link_identity_tx
  Keeps-link user provider subject =
      bind _ _ (Keeps-read IsKept IsKept-refl _) (Keeps-link_found user provider subject)

  Keeps-user_or_new :
      (id : ℕ) (c : Claims) (email : Text) (u : Option User)
      → Keeps IsKept (user_or_new ext auth_ext o id c email u)
  unfolding user_or_new
  Keeps-user_or_new id c email (some u) = Keeps-pure IsKept IsKept-refl _
  Keeps-user_or_new id c email none =
      bind _ _
        (Keeps-same _ (λ u db db' h. create_user-IsKept ext.sql_lower id email _ none u db db' h))
        (λ _. Keeps-pure IsKept IsKept-refl _)

  pub Keeps-join_invited :
      (user : ℕ) (i : Option Invitation) → Keeps IsKept (join_invited ext auth_ext o user i)
  unfolding join_invited
  Keeps-join_invited user none = Keeps-pure IsKept IsKept-refl _
  Keeps-join_invited user (some i) = Keeps-same _ (add_membership-IsKept i.tenant_id user i.role)

  pub Keeps-consume :
      (now : ℕ) (email : Text)
      → Keeps IsKept (optional_tx (consume_pending_invitation ext.sql_lower now email none))
  unfolding optional_tx consume_pending_invitation
  Keeps-consume now email =
      Keeps-same _
        (λ i db db' h. claimed-IsKept ext.sql_lower now (first ext.sql_lower _) i db db' h)

  Keeps-new_identity :
      (now id : ℕ) (provider : String) (c : Claims)
      → Keeps IsKept (new_identity ext auth_ext o now id provider c)
  unfolding new_identity
  Keeps-new_identity now id provider c =
      let email : Text = normalize_email auth_ext c.email in
      bind _ _
        (Keeps-guard IsKept IsKept-refl (c.email_verified && not (email == []))
          Error.unverified_email)
        λ _.
          bind _ _
            (Keeps-read IsKept IsKept-refl (optional (get_user_by_email ext.sql_lower email)))
            λ u. bind _ _ (Keeps-user_or_new id c email u) λ user.
              bind _ _ (Keeps-link user provider c.subject) λ _.
                bind _ _ (Keeps-consume now email)
                  λ i. bind _ _ (Keeps-join_invited user i) λ _. Keeps-pure IsKept IsKept-refl user

  Keeps-by_identity :
      (now id : ℕ) (provider : String) (c : Claims) (i : Option Identity)
      → Keeps IsKept (by_identity ext auth_ext o now id provider c i)
  unfolding by_identity
  Keeps-by_identity now id provider c none = Keeps-new_identity now id provider c
  Keeps-by_identity now id provider c (some i) = Keeps-pure IsKept IsKept-refl _

  pub resolve_identity-IsKept :
      (now id : ℕ) (provider : String) (c : Claims) (db : Db)
      → IsKept db (resolve_identity ext auth_ext o now id provider c db).1
  unfolding resolve_identity resolve_identity_tx
  resolve_identity-IsKept now id provider c db =
      Keeps-scoped_rw IsKept IsKept-refl _
        (bind _ _ (Keeps-read IsKept IsKept-refl _) (Keeps-by_identity now id provider c)) db

  pub store_oauth_token-IsKept :
      (n n' : Text) (user : ℕ) (provider : String) (t : Token) (db : Db)
      → IsKept db (store_oauth_token ext auth_ext o n n' user provider t db).1
  unfolding store_oauth_token
  store_oauth_token-IsKept n n' user provider t db =
      Keeps-scoped_rw IsKept IsKept-refl _
        (Keeps-same _ (λ u d d' h. upsert-IsKept ext.collate _ u d d' h)) db

pub issue-IsKept :
    (auth_ext : AuthExternal) (now user ttl : ℕ) (scope : Option ℕ) (token : Text) (db : Db)
    → IsKept db (issue auth_ext now user ttl scope token db).1
unfolding issue
issue-IsKept auth_ext now user ttl scope token db = elim (Bool-cases (user == nil_id)) [
  | inl e ↦ rw e (IsKept-refl db)
  | inr e ↦ rw e (
      tokened-IsKept token db _
        (Keeps-scoped_rw IsKept IsKept-refl _ (Keeps-same _ (insert_session-IsKept _)) db))
]
