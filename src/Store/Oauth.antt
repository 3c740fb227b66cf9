-- ===== src/Store/Oauth.antt =====
-- The queries on oauth_flows, oauth_tokens, identities and invitations of internal/store/queries.go.
use open_blog.Base.{
  ℕ, Bool, true, false, not, ◌&&◌, ◌||◌, ◌==◌, nat_eq, string_eq, text_eq_instance, if◌then◌else◌,
  Option, none, some, List, [], ◌∷◌, ◌++◌, any, find, select, update_where, elem, sort_by, split,
  join, Text, String, ltb, leb, is_some,
}
use open_blog.Store.Errors.{Error, Result, ok, err}
use open_blog.Store.Rows.{Db, Identity, Invitation, OauthFlow, OauthToken}
use open_blog.Store.Tx.{Read, Tx, row}
use open_blog.Store.Users.{email_is}

-- check (provider in ('google','github')).
abbrev known_provider : String → Bool
known_provider p = p == "google" || p == "github"

unfoldable pub insert_oauth_flow : OauthFlow → Tx (Unit {0})
insert_oauth_flow f db =
    if not (known_provider f.provider)
    then err Error.check_violation
    else if any (λ g. g.id == f.id) db.flows
    then err Error.unique_violation
    else ok (tt, record db { flows = f ∷ db.flows })

-- is not distinct from.
abbrev pub same_hash : Option Text → Option Text → Bool
same_hash none none = true
same_hash (some a) (some b) = a == b
same_hash _ _ = false

abbrev pub is_flow : (now : ℕ) → (state : Text) → (session : Option Text) → OauthFlow → Bool
is_flow now state session f =
    f.state == state && (ltb now f.expires_at && same_hash f.session_token_hash session)

abbrev pub taken_flow :
    (now : ℕ) → (state : Text) → Option Text → Db → Option OauthFlow → Result (OauthFlow × Db)
taken_flow now state session db none = err Error.no_rows
taken_flow now state session db (some f) =
    ok (f, record db { flows = select (λ g. not (is_flow now state session g)) db.flows })

-- DELETE … RETURNING: the flow is gone with the read.
unfoldable pub consume_oauth_flow :
    (now : ℕ) → (state : Text) → (session : Option Text) → Tx OauthFlow
consume_oauth_flow now state session db =
    taken_flow now state session db (find (is_flow now state session) db.flows)

abbrev pub is_identity : String → Text → Identity → Bool
is_identity provider subject i = i.provider == provider && i.subject == subject

unfoldable pub get_identity : String → Text → Read Identity
get_identity provider subject db = row (find (is_identity provider subject) db.identities)

-- With the primary key (provider, subject) and the foreign key.
unfoldable pub insert_identity : String → Text → ℕ → Tx (Unit {0})
insert_identity provider subject user db =
    let inserted : Identity = record { provider = provider; subject = subject; user_id = user } in
    if any (is_identity provider subject) db.identities
    then err Error.unique_violation
    else if not (any (λ u. u.id == user) db.users)
    then err Error.foreign_key_violation
    else ok (tt, record db { identities = inserted ∷ db.identities })

module _ (sql_lower : Text → Text) where
  abbrev in_tenant : Option ℕ → Invitation → Bool
  in_tenant none i = true
  in_tenant (some tenant) i = i.tenant_id == tenant

  abbrev pub is_live : (now : ℕ) → Text → Option ℕ → Invitation → Bool
  is_live now email tenant i =
      email_is sql_lower email i.email
      && (not (is_some i.consumed_at) && (ltb now i.expires_at && in_tenant tenant i))

  -- order by expires_at, id.
  abbrev pub sooner : Invitation → Invitation → Bool
  sooner i j = ltb i.expires_at j.expires_at || (i.expires_at == j.expires_at && leb i.id j.id)

  abbrev pub first : List Invitation → Option Invitation
  first [] = none
  first (i ∷ is) = some i

  abbrev consumed : (now : ℕ) → Invitation → Invitation
  consumed now i = record i { consumed_at = some now }

  abbrev pub claimed_invitation : (now : ℕ) → Db → Option Invitation → Result (Invitation × Db)
  claimed_invitation now db none = err Error.no_rows
  claimed_invitation now db (some i) = ok (
    i,
    record db { invitations = update_where (λ j. j.id == i.id) (consumed now) db.invitations },
  )

  unfoldable pub consume_pending_invitation : (now : ℕ) → Text → Option ℕ → Tx Invitation
  consume_pending_invitation now email tenant db =
      claimed_invitation now db
        (first (sort_by sooner (select (is_live now email tenant) db.invitations)))

abbrev pub is_token : ℕ → String → OauthToken → Bool
is_token user provider t = t.user_id == user && t.provider == provider

-- string_to_array(…, ','): an empty text has no parts.
abbrev pub scope_parts : Text → List Text
scope_parts [] = []
scope_parts (c ∷ s) = split b',' (c ∷ s)

abbrev pub distinct_texts : List Text → List Text
distinct_texts [] = []
distinct_texts (s ∷ ss) = let rest = distinct_texts ss in if elem s rest then rest else s ∷ rest

abbrev or_old : Option Text → Option Text → Option Text
or_old none old = old
or_old (some new) old = some new

module _ (collate : Text → Text → Bool) where
  -- The sorted union of two comma-joined lists.
  unfoldable pub merged_scopes : Text → Text → Text
  merged_scopes old new = join (b',' ∷ []) (
      sort_by collate
        (distinct_texts (select (λ s. not (s == [])) (scope_parts old ++ scope_parts new))))

  abbrev pub renewed : OauthToken → OauthToken → OauthToken
  renewed t old = record old {
    refresh_token = or_old t.refresh_token old.refresh_token;
    access_token = t.access_token;
    token_scopes = merged_scopes old.token_scopes t.token_scopes;
    token_expiry = t.token_expiry;
  }

  -- INSERT … ON CONFLICT (user_id, provider) DO UPDATE.
  unfoldable pub upsert_oauth_token : OauthToken → Tx (Unit {0})
  unfolding merged_scopes
  upsert_oauth_token t db =
      if not (known_provider t.provider)
      then err Error.check_violation
      else if any (is_token t.user_id t.provider) db.tokens
      then ok (
        tt,
        record db { tokens = update_where (is_token t.user_id t.provider) (renewed t) db.tokens },
      )
      else if not (any (λ u. u.id == t.user_id) db.users)
      then err Error.foreign_key_violation
      else ok (tt, record db { tokens = t ∷ db.tokens })

unfoldable pub get_oauth_token_by_user : ℕ → String → Read OauthToken
get_oauth_token_by_user user provider db = row (find (is_token user provider) db.tokens)
